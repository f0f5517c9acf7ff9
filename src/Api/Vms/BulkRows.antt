-- ===== src/Api/Vms/BulkRows.antt =====
-- src/api/vms.rs: the rows that a bulk action answers.
use moxui.Prelude.{
  codes, List, [], ◌∷◌, Str, str_eq, ◌||◌, true, some, Result, ok, err, ◌≡◌, refl, inl, inr,
  Option-cases,
}
use moxui.Prelude.Results.{Result-cases}
use moxui.Auth.User
use moxui.State.{client}
use moxui.Proxmox.Call.{Call, ProxmoxClient}
use moxui.Proxmox.Call.Steady.{Steady}
use moxui.Api.Handler.{◌>>=◌, name_of, not_configured}
use moxui.Error.{to_string}
use moxui.Api.Vms.Bulk.{BulkVmRef, BulkResultRow, result_row, called_row, run_one, run_all}

-- The reference that a row answers.
abbrev pub ref_of : BulkResultRow → BulkVmRef
ref_of row = record { cluster = row.cluster; node = row.node; vmid = row.vmid }

-- A row for the VM and the action, with one of the two statuses.
abbrev pub Answers : Str → BulkVmRef → BulkResultRow → Type 0
Answers action vm row =
    (ref_of row ≡ vm)
    × (row.action ≡ action)
    × ((str_eq row.status (codes "ok") || str_eq row.status (codes "error")) ≡ true)

-- One row for each VM, in the order of the request.
abbrev pub AllAnswer : Str → List BulkVmRef → List BulkResultRow → Type 0
AllAnswer action [] [] = Unit {0}
AllAnswer action [] (row ∷ rows) = ⊥
AllAnswer action (vm ∷ vms) [] = ⊥
AllAnswer action (vm ∷ vms) (row ∷ rows) = Answers action vm row × AllAnswer action vms rows

result_row-Answers :
    (action : Str) (vm : BulkVmRef) (r : Result Str Str)
    → Answers action vm (result_row action vm r)
unfolding result_row str_eq
result_row-Answers action vm (ok upid) = (refl, refl, refl)
result_row-Answers action vm (err e) = (refl, refl, refl)

module _ {W : Type 0} (action : Str) (call : BulkVmRef → Call W Str) where
  run_one_lem :
      ((vm : BulkVmRef) → Steady (call vm))
      → (vm : BulkVmRef) (w : W) (cs : List ProxmoxClient)
      → (row : BulkResultRow) × ((run_one action call vm w cs).2 ≡ some (ok row))
        × Answers action vm row
  unfolding run_one called_row
  run_one_lem hc vm w cs = elim (Option-cases (client name_of cs vm.cluster)) [
    | inl e ↦
        rw (e, run_one) (_, refl, result_row-Answers action vm (err (not_configured vm.cluster)))
    | inr (c, e) ↦
        let (r, q) = (hc vm).completes w c in
        elim (Result-cases r) [
          | inl (upid, s) ↦ rw (e, run_one, q, s) (_, refl, result_row-Answers action vm (ok upid))
          | inr (x, s) ↦
              rw (e, run_one, q, s) (_, refl, result_row-Answers action vm (err (to_string x)))
        ]
  ]

  pub run_all_lem :
      ((vm : BulkVmRef) → Steady (call vm))
      → (vms : List BulkVmRef) (w : W) (cs : List ProxmoxClient)
      → (rows : List BulkResultRow) × ((run_all action call vms w cs).2 ≡ some (ok rows))
        × AllAnswer action vms rows
  unfolding run_all ◌>>=◌
  run_all_lem hc [] w cs = ([], refl, tt)
  run_all_lem hc (vm ∷ vms) w cs =
      let (row, e, a) = run_one_lem hc vm w cs in
      let (w', cs', r) = run_one action call vm w cs in
      let (rows, q, b) = run_all_lem hc vms w' cs' in rw (e, ◌>>=◌, q) (row ∷ rows, refl, (a, b))
