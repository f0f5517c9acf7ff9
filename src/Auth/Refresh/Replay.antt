-- ===== src/Auth/Refresh/Replay.antt =====
-- src/auth/refresh.rs: replayed tokens, the revocation of a user's tokens, and the counters.
use moxui.Prelude.{
  ℕ, ◌≡◌, refl, List, [], ◌∷◌, Str, str_eq, true, false, not, if◌then◌else◌, ◌&&◌, Option, none,
  some, arith, count_if,
}
use moxui.Prelude.Int.{ℤ, ltb_ℤ}
use moxui.Prelude.Map
use moxui.Prelude.Map.{Map}
use moxui.Auth.Crypto.{Crypto}
use moxui.Auth.Refresh.{
  StoredRefreshToken, RefreshStore, hash_token, verify, rotate, revoke_family, revoke_active,
  revoke_all_for_user,
}
use moxui.Auth.Refresh.Ledger.{
  entry, admit, revoke_if, entry-revoke_family, revoke_active-revoke_family,
}
use moxui.Auth.Refresh.Valid.{IsValid}
use moxui.Auth.Refresh.Rotation.{verify-admit, rotate_revoked}

-- What is left of an answer of `verify` when a user is locked out.
abbrev pub without : Str → Option (Str × Str) → Option (Str × Str)
without user_id none = none
without user_id (some (id, u)) = if str_eq u user_id then none else some (id, u)

-- Every token is answered as before, except that those of the user are refused.
unfoldable pub LockedOut : Crypto → RefreshStore → RefreshStore → Str → Type 0
LockedOut c s s' user_id =
    (raw : Str) (t : ℤ) → verify c s' raw t ≡ without user_id (verify c s raw t)

admit-without :
    (t : ℤ) (user_id : Str) (o : Option StoredRefreshToken)
    → admit t (revoke_if (λ r. str_eq r.user_id user_id) o) ≡ without user_id (admit t o)
admit-without t user_id none = refl
admit-without t user_id (some r) = ground arith

pub revoke_family-LockedOut :
    (c : Crypto) (s : RefreshStore) (user_id : Str)
    → LockedOut c s (record { tokens = revoke_family user_id s.tokens }) user_id
unfolding LockedOut
revoke_family-LockedOut c s user_id = λ raw t.
    rw (verify-admit, entry-revoke_family, verify-admit)
      (admit-without t user_id (entry (hash_token c raw) s.tokens))

-- Presenting to `rotate` a token that a valid store holds as revoked and that has not yet expired
-- gives no token, and locks out the user of that token: every token is answered as before, except
-- that those of the user are refused.
pub rotate-LockedOut :
    (c : Crypto) (s : RefreshStore) (raw : Str) (ttl now : ℤ) (id : Str) (buf : List ℕ) (later : ℤ)
    → IsValid s
    → (r : StoredRefreshToken) → entry (hash_token c raw) s.tokens ≡ some r
    → ltb_ℤ r.expires_at now ≡ false
    → r.revoked ≡ true
    → ((rotate c s raw ttl now id buf later).1 ≡ none)
      × LockedOut c s (rotate c s raw ttl now id buf later).0 r.user_id
rotate-LockedOut c s raw ttl now id buf later v r e live used =
    rw (rotate_revoked c s raw ttl now id buf later r v e live used)
      (refl, revoke_family-LockedOut c s r.user_id)

count_revoke_active :
    (u : Str) (m : Map StoredRefreshToken)
    → (revoke_active u m).1 ≡ count_if (λ r. str_eq r.user_id u && not r.revoked) (Map.values m)
unfolding revoke_active Map.values
count_revoke_active u [] = refl
count_revoke_active u ((k, r) ∷ m) = ground (arith, count_revoke_active u m)

count_revoke_family :
    (u : Str) (m : Map StoredRefreshToken)
    → count_if (λ r. str_eq r.user_id u && not r.revoked) (Map.values (revoke_family u m)) ≡ 0
unfolding revoke_family Map.update_all Map.values
count_revoke_family u [] = refl
count_revoke_family u ((k, r) ∷ m) = ground (arith, count_revoke_family u m)

-- `revoke_all_for_user` locks out the user (every token is answered as before, except that those of
-- the user are refused), reports how many unrevoked tokens the user had, and
-- leaves none.
pub revoke_all_for_user-LockedOut :
    (c : Crypto) (s : RefreshStore) (user_id : Str)
    → let s' = (revoke_all_for_user s user_id).0 in
      LockedOut c s s' user_id
      × ((revoke_all_for_user s user_id).1
          ≡ count_if (λ r. str_eq r.user_id user_id && not r.revoked) (Map.values s.tokens))
      × (count_if (λ r. str_eq r.user_id user_id && not r.revoked) (Map.values s'.tokens) ≡ 0)
unfolding revoke_all_for_user
revoke_all_for_user-LockedOut c s user_id = (
  rw (revoke_active-revoke_family user_id s.tokens) (revoke_family-LockedOut c s user_id),
  count_revoke_active user_id s.tokens,
  rw (revoke_active-revoke_family user_id s.tokens) (count_revoke_family user_id s.tokens),
)
