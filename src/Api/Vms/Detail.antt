-- ===== src/Api/Vms/Detail.antt =====
-- src/api/vms.rs: the answer about one VM.
use moxui.Prelude.{
  ℕ, List, [], ◌∷◌, Str, Bool, true, some, Result, ok, ◌≡◌, refl, sym, ==_iff, ◌==◌, arith, inl,
  inr, Option-cases, Bool-cases,
}
use moxui.Prelude.Results.{reply-cases}
use moxui.Proxmox.Http.{Net}
use moxui.Proxmox.Call.{ProxmoxClient}
use moxui.Proxmox.Types.{VmResource}
use moxui.Proxmox.Client.Vms
use moxui.Api.Handler.{◌>>=◌, on_cluster}
use moxui.Api.Vms.Rows.{VmRow, vm_row, find}
use moxui.Api.Vms.Reads.{vm_detail}

find_sound : {A : Type 0} (p : A → Bool) (xs : List A) (x : A) → find p xs ≡ some x → p x ≡ true
unfolding find
find_sound p [] x h = ground arith
find_sound p (y ∷ xs) x h = elim (Bool-cases (p y)) [
  | inl e ↦ let g = rw e at h in let same : y ≡ x = ground (arith, g) in rw (sym same) e
  | inr e ↦ let g = rw e at h in find_sound p xs x g
]

module _ {W : Type 0} (net : Net W) (to_lowercase : Str → Str)
    (vms : Str → Result (List VmResource) Str) where
  -- A VM that is answered is one of the cluster and has the id that was asked for.
  pub vm_detail_sound :
      (cluster : Str) (vmid : ℕ) (w : W) (cs : List ProxmoxClient) (row : VmRow)
      → (vm_detail net to_lowercase vms cluster vmid w cs).2 ≡ some (ok row)
      → (row.cluster ≡ cluster) × (row.vmid ≡ vmid)
  unfolding vm_detail ◌>>=◌ vm_row
  vm_detail_sound cluster vmid w cs row h =
      elim (reply-cases (on_cluster cluster (Vms.list_vms net vms) w cs).2) [
        | inl e ↦ let g = rw (◌>>=◌, e) at h in ground (arith, g)
        | inr (inl (listed, e)) ↦
            let g = rw (◌>>=◌, e) at h in
            elim (Option-cases (find (λ (r : VmResource). r.vmid == vmid) listed)) [
              | inl f ↦ let k = rw f at g in ground (arith, k)
              | inr (r, f) ↦
                  let k = rw f at g in
                  let same : vm_row cluster r ≡ row = ground (arith, k) in
                  let id = find_sound (λ (r : VmResource). r.vmid == vmid) listed r f in
                  rw (sym same) (refl, (==_iff r.vmid vmid).0 id)
            ]
        | inr (inr (x, e)) ↦ let g = rw (◌>>=◌, e) at h in ground (arith, g)
      ]
