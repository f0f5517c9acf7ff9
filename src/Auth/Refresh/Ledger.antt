-- ===== src/Auth/Refresh/Ledger.antt =====
-- src/auth/refresh.rs seen as a ledger: what the store knows of each token hash. Every operation
-- acts on the ledger point by point, whatever the order in which the map iterates.
use moxui.Prelude.{
  ◌≡◌, refl, [], ◌∷◌, Str, str_eq, str_eq_iff, Bool, false, Option, none, some, if◌then◌else◌,
  arith, inl, inr, Option-cases,
}
use moxui.Prelude.Int.{ℤ, ltb_ℤ}
use moxui.Prelude.Map
use moxui.Prelude.Map.{Map}
use moxui.Auth.Refresh.{
  StoredRefreshToken, set_revoked, verify_scan, find_hash, revoke_family, revoke_active,
}

-- What is stored under a hash.
unfoldable pub entry : Str → Map StoredRefreshToken → Option StoredRefreshToken
entry h [] = none
entry h ((k, r) ∷ m) = if str_eq r.token_hash h then some r else entry h m

-- Each record stands under its own id, and no id and no hash stands there twice.
abbrev pub Distinct : Map StoredRefreshToken → Type 0
Distinct [] = Unit {0}
Distinct ((k, r) ∷ m) =
    (r.id ≡ k) × (Map.get k m ≡ none) × (entry r.token_hash m ≡ none) × Distinct m

-- The records that pass a test are revoked, the others stay.
abbrev pub revoke_if :
    (StoredRefreshToken → Bool) → Option StoredRefreshToken → Option StoredRefreshToken
revoke_if p none = none
revoke_if p (some r) = some (if p r then set_revoked r else r)

-- What `verify` answers for a ledger entry.
abbrev pub admit : ℤ → Option StoredRefreshToken → Option (Str × Str)
admit now none = none
admit now (some r) =
    if r.revoked then none else if ltb_ℤ r.expires_at now then none else some (r.id, r.user_id)

pub verify_scan-admit :
    (h : Str) (now : ℤ) (m : Map StoredRefreshToken) → verify_scan h now m ≡ admit now (entry h m)
unfolding verify_scan entry
verify_scan-admit h now [] = refl
verify_scan-admit h now ((k, r) ∷ m) = ground (arith, verify_scan-admit h now m)

-- The id under which a hash is found is the record's own.
pub find_hash-entry :
    (h : Str) (m : Map StoredRefreshToken) (r : StoredRefreshToken)
    → Distinct m
    → entry h m ≡ some r
    → find_hash h m ≡ some (r.id, r)
unfolding find_hash entry
find_hash-entry h [] r d e = ground arith
find_hash-entry h ((k, s) ∷ m) r d e = ground (arith, find_hash-entry h m r d.3)

pub find_hash-none :
    (h : Str) (m : Map StoredRefreshToken) → entry h m ≡ none → find_hash h m ≡ none
unfolding find_hash entry
find_hash-none h [] e = refl
find_hash-none h ((k, s) ∷ m) e = ground (arith, find_hash-none h m)

-- The entry of a hash stores that hash.
pub entry-token_hash :
    (h : Str) (m : Map StoredRefreshToken) (r : StoredRefreshToken)
    → entry h m ≡ some r
    → r.token_hash ≡ h
unfolding entry
entry-token_hash h [] r e = ground arith
entry-token_hash h ((k, s) ∷ m) r e =
    ground (arith, str_eq_iff s.token_hash h, entry-token_hash h m r)

-- An id that is no key belongs to no entry.
pub entry_id_ne :
    (id h : Str) (m : Map StoredRefreshToken) (r : StoredRefreshToken)
    → Distinct m
    → Map.get id m ≡ none
    → entry h m ≡ some r
    → str_eq r.id id ≡ false
unfolding entry Map.get
entry_id_ne id h [] r d g e = ground arith
entry_id_ne id h ((k, s) ∷ m) r d g e = ground (arith, entry_id_ne id h m r d.3)

-- An id belongs to one entry only.
pub entry_id_unique :
    (g h : Str) (m : Map StoredRefreshToken) (q r : StoredRefreshToken)
    → Distinct m
    → entry g m ≡ some q
    → entry h m ≡ some r
    → q.id ≡ r.id
    → g ≡ h
unfolding entry
entry_id_unique g h [] q r d a b e = ground arith
entry_id_unique g h ((k, s) ∷ m) q r d a b e = ground (
  arith,
  str_eq_iff s.token_hash g,
  str_eq_iff s.token_hash h,
  str_eq_iff q.id k,
  str_eq_iff r.id k,
  entry_id_ne k g m q d.3 d.1,
  entry_id_ne k h m r d.3 d.1,
  entry_id_unique g h m q r d.3,
)

pub entry-update :
    (id h : Str) (m : Map StoredRefreshToken)
    → Distinct m
    → entry h (Map.update id set_revoked m) ≡ revoke_if (λ r. str_eq r.id id) (entry h m)
unfolding entry Map.update
entry-update id h [] d = refl
entry-update id h ((k, s) ∷ m) d = elim (Option-cases (entry h m)) [
  | inl e ↦ ground (arith, entry-update id h m d.3)
  | inr (r, e) ↦
      ground (arith, str_eq_iff k id, entry_id_ne k h m r d.3 d.1, entry-update id h m d.3)
]

-- To revoke by the id of an entry is to revoke that entry.
pub revoke_if-entry_id :
    (g h : Str) (m : Map StoredRefreshToken) (r : StoredRefreshToken)
    → Distinct m
    → entry h m ≡ some r
    → revoke_if (λ q. str_eq q.id r.id) (entry g m)
      ≡ (if str_eq h g then some (set_revoked r) else entry g m)
revoke_if-entry_id g h m r d e = elim (Option-cases (entry g m)) [
  | inl a ↦ rw a (ground (arith, str_eq_iff h g))
  | inr (q, a) ↦
      rw a (ground (arith, str_eq_iff h g, str_eq_iff q.id r.id, entry_id_unique g h m q r d a e))
]

pub entry-insert :
    (id h : Str) (new : StoredRefreshToken) (m : Map StoredRefreshToken)
    → Map.get id m ≡ none
    → entry new.token_hash m ≡ none
    → entry h (Map.insert id new m) ≡ (if str_eq new.token_hash h then some new else entry h m)
unfolding entry Map.insert Map.get
entry-insert id h new [] g f = refl
entry-insert id h new ((k, s) ∷ m) g f = ground (
  arith,
  str_eq_iff new.token_hash h,
  str_eq_iff s.token_hash h,
  str_eq_iff s.token_hash new.token_hash,
  entry-insert id h new m,
)

pub entry-revoke_family :
    (u h : Str) (m : Map StoredRefreshToken)
    → entry h (revoke_family u m) ≡ revoke_if (λ r. str_eq r.user_id u) (entry h m)
unfolding entry revoke_family Map.update_all
entry-revoke_family u h [] = refl
entry-revoke_family u h ((k, s) ∷ m) = ground (arith, entry-revoke_family u h m)

-- The counted loop leaves the same ledger as the family revocation.
pub revoke_active-revoke_family :
    (u : Str) (m : Map StoredRefreshToken) → (revoke_active u m).0 ≡ revoke_family u m
unfolding revoke_active revoke_family Map.update_all
revoke_active-revoke_family u [] = refl
revoke_active-revoke_family u ((k, s) ∷ m) = ground (arith, revoke_active-revoke_family u m)
