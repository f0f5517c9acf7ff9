-- ===== src/Auth/Refresh/Rotation.antt =====
-- src/auth/refresh.rs: `rotate` on each of its branches, and what it does to the ledger.
use moxui.Prelude.{
  ℕ, ◌≡◌, refl, List, Str, str_eq, true, false, none, some, if◌then◌else◌, inl, inr, Bool-cases,
  Option-cases,
}
use moxui.Prelude.Int.{ℤ, ltb_ℤ, add_i64}
use moxui.Prelude.Map
use moxui.Auth.Crypto.{Crypto}
use moxui.Auth.Refresh.{
  StoredRefreshToken, RefreshStore, IssuedRefreshToken, set_revoked, hash_token, generate_token,
  verify, revoke_family, rotate, find_hash,
}
use moxui.Auth.Refresh.Ledger.{
  entry, admit, entry-update, entry-insert, revoke_if-entry_id, find_hash-entry, find_hash-none,
  verify_scan-admit,
}
use moxui.Auth.Refresh.Valid.{
  IsValid, IsFresh, update-Distinct, insert-Distinct, revoke_family-Distinct, get-update,
}

-- The record and the answer that an issue at `now` makes.
abbrev pub fresh_record : Crypto → Str → ℤ → Str → List ℕ → ℤ → StoredRefreshToken
fresh_record c user_id ttl id buf now = record {
  id = id;
  user_id = user_id;
  token_hash = hash_token c (generate_token c buf);
  expires_at = add_i64 now ttl;
  revoked = false;
  created_at = now;
}

abbrev pub fresh_answer : Crypto → Str → ℤ → Str → List ℕ → ℤ → IssuedRefreshToken
fresh_answer c user_id ttl id buf now = record {
  token = generate_token c buf;
  id = id;
  user_id = user_id;
  expires_at = add_i64 now ttl;
}

pub verify-admit :
    (c : Crypto) (s : RefreshStore) (raw : Str) (now : ℤ)
    → verify c s raw now ≡ admit now (entry (hash_token c raw) s.tokens)
unfolding verify
verify-admit c s raw now = verify_scan-admit (hash_token c raw) now s.tokens

module _ (c : Crypto) (s : RefreshStore) (raw : Str) (ttl now : ℤ) (id : Str) (buf : List ℕ)
    (later : ℤ) where
  pub rotate_unknown :
      entry (hash_token c raw) s.tokens ≡ none → rotate c s raw ttl now id buf later ≡ (s, none)
  unfolding rotate
  rotate_unknown e = rw (find_hash-none _ s.tokens e, rotate)

  module _ (r : StoredRefreshToken) (v : IsValid s)
      (e : entry (hash_token c raw) s.tokens ≡ some r) where
    found : find_hash (hash_token c raw) s.tokens ≡ some (r.id, r)
    unfolding IsValid
    found = find_hash-entry _ s.tokens r v e

    pub rotate_expired :
        ltb_ℤ r.expires_at now ≡ true → rotate c s raw ttl now id buf later ≡ (s, none)
    unfolding rotate
    rotate_expired x = rw (found, rotate) (rw x)

    pub rotate_revoked :
        ltb_ℤ r.expires_at now ≡ false
        → r.revoked ≡ true
        → rotate c s raw ttl now id buf later
          ≡ (record { tokens = revoke_family r.user_id s.tokens }, none)
    unfolding rotate
    rotate_revoked x y = rw (found, rotate) (rw (x, y))

    pub rotate_live :
        ltb_ℤ r.expires_at now ≡ false
        → r.revoked ≡ false
        → rotate c s raw ttl now id buf later ≡ (
          record {
            tokens =
                Map.insert id
                  (fresh_record c r.user_id ttl id buf later)
                  (Map.update r.id set_revoked s.tokens);
          },
          some (fresh_answer c r.user_id ttl id buf later),
        )
    unfolding rotate
    rotate_live x y = rw (found, rotate) (rw (x, y))

module _ (c : Crypto) (s : RefreshStore) (raw : Str) (ttl now : ℤ) (id : Str) (buf : List ℕ)
    (later : ℤ) (fresh : IsFresh c s id buf) (v : IsValid s) where
  module _ (r : StoredRefreshToken) (e : entry (hash_token c raw) s.tokens ≡ some r)
      (live : ltb_ℤ r.expires_at now ≡ false) (unused : r.revoked ≡ false) where
    revoked_fresh :
        entry (hash_token c (generate_token c buf)) (Map.update r.id set_revoked s.tokens) ≡ none
    unfolding IsValid
    revoked_fresh = rw (entry-update r.id (hash_token c (generate_token c buf)) s.tokens v, fresh.1)

    -- The ledger after a rotation: the new record, the old one revoked, and the rest as before.
    pub entry-rotate :
        (g : Str)
        → entry g (rotate c s raw ttl now id buf later).0.tokens ≡ (
            if str_eq (hash_token c (generate_token c buf)) g
            then some (fresh_record c r.user_id ttl id buf later)
            else if str_eq (hash_token c raw) g
            then some (set_revoked r)
            else entry g s.tokens)
    unfolding IsValid
    entry-rotate g = rw (
      rotate_live c s raw ttl now id buf later r v e live unused,
      entry-insert id g (fresh_record c r.user_id ttl id buf later)
          (Map.update r.id set_revoked s.tokens) (get-update id r.id s.tokens fresh.0)
          revoked_fresh,
      entry-update r.id g s.tokens v,
      revoke_if-entry_id g (hash_token c raw) s.tokens r v e,
    )

  pub rotate-IsValid : IsValid (rotate c s raw ttl now id buf later).0
  unfolding IsValid
  rotate-IsValid = elim (Option-cases (entry (hash_token c raw) s.tokens)) [
    | inl e ↦ rw (rotate_unknown c s raw ttl now id buf later e) v
    | inr (r, e) ↦ elim (Bool-cases (ltb_ℤ r.expires_at now)) [
      | inl x ↦ rw (rotate_expired c s raw ttl now id buf later r v e x) v
      | inr x ↦ elim (Bool-cases r.revoked) [
        | inl y ↦
            rw (rotate_revoked c s raw ttl now id buf later r v e x y)
              (revoke_family-Distinct r.user_id s.tokens v)
        | inr y ↦ rw (rotate_live c s raw ttl now id buf later r v e x y) (
            insert-Distinct id _ _ refl (get-update id r.id s.tokens fresh.0)
              (revoked_fresh r e x y) (update-Distinct r.id s.tokens v))
      ]
    ]
  ]
