-- ===== src/Proxmox/Client/Backups.antt =====
-- src/proxmox/client.rs: which backups are listed for a VM.
use moxui.Prelude.{
  ℕ, ◌+◌, ◌*◌, ◌^◌, ◌<◌, ◌++◌, map, all, keep_if, List, [], ◌∷◌, Str, Bool, true, Option, some,
  Result, ok, err, ◌≡◌, refl, subst, arith, inl, inr, Bool-cases,
}
use moxui.Prelude.Text.{starts_with, contains}
use moxui.Prelude.Decimal.{decimal, decimal_snoc}
use moxui.Error.{AppError}
use moxui.Proxmox.Http.{Net}
use moxui.Proxmox.Call.{ProxmoxClient}
use moxui.Proxmox.Call.Yields.{Yields, any-Yields, done-Yields, bind-Yields}
use moxui.Proxmox.Types.{StorageResource, StorageContent, BackupEntry}
use moxui.Proxmox.Client.Storages.{is_backup_of, backup_entry, found, collect_backups, list_backups}

starts_with-prefix : (p q s : Str) → starts_with (p ++ q) s ≡ true → starts_with p s ≡ true
unfolding starts_with
starts_with-prefix [] q s h = refl
starts_with-prefix (b ∷ p) q [] h = ground (arith, h)
starts_with-prefix (b ∷ p) q (c ∷ s) h = ground (arith, h, starts_with-prefix p q s)

contains-prefix : (p q s : Str) → contains (p ++ q) s ≡ true → contains p s ≡ true
unfolding contains
contains-prefix p q [] h = starts_with-prefix p q [] h
contains-prefix p q (c ∷ s) h =
    ground (arith, h, starts_with-prefix p q (c ∷ s), contains-prefix p q s)

-- A backup that is listed for the VM whose id has one more digit is listed for this VM as well, as
-- the volume's name is only searched for the digits of the id: VM 10 is shown the backups of VM 100.
pub is_backup_of-decimal :
    (vmid k : ℕ) (c : StorageContent)
    → 0 < vmid
    → vmid < 10 ^ 19
    → k < 10
    → is_backup_of (decimal (vmid * 10 + k)) c ≡ true
    → is_backup_of (decimal vmid) c ≡ true
unfolding is_backup_of
is_backup_of-decimal vmid k c p b l h =
    let g = subst (λ s. is_backup_of s c ≡ true) (decimal_snoc vmid k p b l) h in
    ground (arith, g, contains-prefix (decimal vmid) ((48 + k) ∷ []) c.volid)

-- The name of the volume contains the digits of the VM's id.
abbrev pub names : ℕ → BackupEntry → Bool
names vmid b = contains (decimal vmid) b.volid

all-append :
    {A : Type 0} (p : A → Bool) (xs ys : List A)
    → all p xs ≡ true
    → all p ys ≡ true
    → all p (xs ++ ys) ≡ true
all-append p [] ys h k = k
all-append p (x ∷ xs) ys h k = ground (arith, h, all-append p xs ys)

found_contents :
    (vmid : ℕ) (cs : List StorageContent)
    → all (names vmid) (map backup_entry (keep_if (is_backup_of (decimal vmid)) cs)) ≡ true
unfolding is_backup_of backup_entry
found_contents vmid [] = refl
found_contents vmid (c ∷ cs) = elim (Bool-cases (is_backup_of (decimal vmid) c)) [
  | inl y ↦ rw y (ground (arith, y, found_contents vmid cs))
  | inr y ↦ rw y (found_contents vmid cs)
]

found-names :
    (vmid : ℕ) (r : Result (List StorageContent) AppError)
    → all (names vmid) (found (decimal vmid) r) ≡ true
unfolding found
found-names vmid (ok cs) = found_contents vmid cs
found-names vmid (err e) = refl

module _ {W : Type 0} (net : Net W) (contents : Str → Result (List StorageContent) Str) where
  collect_backups-names :
      (node : Str) (vmid : ℕ) (storages : List StorageResource)
      → Yields
          (λ bs. all (names vmid) bs ≡ true)
          (collect_backups net contents node (decimal vmid) storages)
  unfolding collect_backups
  collect_backups-names node vmid [] = done-Yields _ [] refl
  collect_backups-names node vmid (s ∷ storages) =
      bind-Yields (λ r. Unit {0}) _ _ _ (any-Yields _)
        λ r u.
          bind-Yields (λ bs. all (names vmid) bs ≡ true) _ _ _
            (collect_backups-names node vmid storages)
            λ rest h.
              done-Yields _ (found (decimal vmid) r ++ rest)
                (all-append (names vmid) (found (decimal vmid) r) rest (found-names vmid r) h)

  -- Every backup that is listed for a VM is in a volume whose name contains the digits of its id.
  pub list_backups-names :
      (storages : Str → Result (List StorageResource) Str) (node : Str) (vmid : ℕ) (d : Option ℕ)
      (w : W) (c : ProxmoxClient) (bs : List BackupEntry)
      → (list_backups net storages contents node vmid d w c).2 ≡ some (ok bs)
      → all (names vmid) bs ≡ true
  unfolding list_backups
  list_backups-names storages node vmid =
      (bind-Yields (λ r. Unit {0}) (λ bs. all (names vmid) bs ≡ true) _ _ (any-Yields _)
        λ listed u. collect_backups-names node vmid listed).yields
