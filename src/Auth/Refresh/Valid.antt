-- ===== src/Auth/Refresh/Valid.antt =====
-- src/auth/refresh.rs: what every operation keeps of the map of tokens.
use moxui.Prelude.{ℕ, ◌≡◌, refl, List, [], ◌∷◌, Str, str_eq, str_eq_iff, none, if◌then◌else◌, arith}
use moxui.Prelude.Int.{ℤ}
use moxui.Prelude.Map
use moxui.Prelude.Map.{Map, get-insert}
use moxui.Auth.Crypto.{Crypto}
use moxui.Auth.Refresh.{
  StoredRefreshToken, RefreshStore, set_revoked, new, hash_token, generate_token, issue, revoke,
  revoke_all_for_user, revoke_family,
}
use moxui.Auth.Refresh.Ledger.{
  entry, Distinct, entry-update, entry-insert, entry-revoke_family, revoke_active-revoke_family,
}

unfoldable pub IsValid : RefreshStore → Type 0
IsValid s = Distinct s.tokens

-- The random bytes give a hash, and the UUID an id, that the store does not hold yet.
abbrev pub IsFresh : Crypto → RefreshStore → Str → List ℕ → Type 0
IsFresh c s id buf =
    (Map.get id s.tokens ≡ none) × (entry (hash_token c (generate_token c buf)) s.tokens ≡ none)

pub get-update :
    (k id : Str) (m : Map StoredRefreshToken)
    → Map.get k m ≡ none
    → Map.get k (Map.update id set_revoked m) ≡ none
unfolding Map.get Map.update
get-update k id [] e = refl
get-update k id ((j, r) ∷ m) e = ground (arith, get-update k id m)

get-update_all :
    (k : Str) (f : StoredRefreshToken → StoredRefreshToken) (m : Map StoredRefreshToken)
    → Map.get k m ≡ none
    → Map.get k (Map.update_all f m) ≡ none
unfolding Map.get Map.update_all
get-update_all k f [] e = refl
get-update_all k f ((j, r) ∷ m) e = ground (arith, get-update_all k f m)

pub update-Distinct :
    (id : Str) (m : Map StoredRefreshToken) → Distinct m → Distinct (Map.update id set_revoked m)
unfolding Map.update
update-Distinct id [] d = tt
update-Distinct id ((k, r) ∷ m) d =
    ground
      (arith, get-update k id m d.1, entry-update id r.token_hash m d.3, update-Distinct id m d.3)

pub revoke_family-Distinct :
    (u : Str) (m : Map StoredRefreshToken) → Distinct m → Distinct (revoke_family u m)
unfolding revoke_family Map.update_all
revoke_family-Distinct u [] d = tt
revoke_family-Distinct u ((k, r) ∷ m) d = ground (
  arith,
  get-update_all k (λ (s : StoredRefreshToken). if str_eq s.user_id u then set_revoked s else s) m
      d.1,
  entry-revoke_family u r.token_hash m,
  revoke_family-Distinct u m d.3,
)

pub insert-Distinct :
    (id : Str) (r : StoredRefreshToken) (m : Map StoredRefreshToken)
    → r.id ≡ id
    → Map.get id m ≡ none
    → entry r.token_hash m ≡ none
    → Distinct m
    → Distinct (Map.insert id r m)
unfolding Map.insert Map.get entry
insert-Distinct id r [] e g f d = (e, refl, refl, tt)
insert-Distinct id r ((k, s) ∷ m) e g f d = ground (
  arith,
  str_eq_iff k id,
  str_eq_iff id k,
  str_eq_iff s.token_hash r.token_hash,
  str_eq_iff r.token_hash s.token_hash,
  get-insert id k r m,
  entry-insert id s.token_hash r m,
  insert-Distinct id r m e,
)

pub new-IsValid : IsValid new
unfolding IsValid new
new-IsValid = tt

pub issue-IsValid :
    (c : Crypto) (s : RefreshStore) (user_id : Str) (ttl : ℤ) (id : Str) (buf : List ℕ) (now : ℤ)
    → IsFresh c s id buf
    → IsValid s
    → IsValid (issue c s user_id ttl id buf now).0
unfolding IsValid issue
issue-IsValid c s user_id ttl id buf now fresh v =
    insert-Distinct id _ s.tokens refl fresh.0 fresh.1 v

pub revoke-IsValid : (s : RefreshStore) (id : Str) → IsValid s → IsValid (revoke s id).0
unfolding IsValid revoke
revoke-IsValid s id v = ground (arith, update-Distinct id s.tokens v)

pub revoke_all_for_user-IsValid :
    (s : RefreshStore) (user_id : Str) → IsValid s → IsValid (revoke_all_for_user s user_id).0
unfolding IsValid revoke_all_for_user
revoke_all_for_user-IsValid s user_id v =
    rw (revoke_active-revoke_family user_id s.tokens) (revoke_family-Distinct user_id s.tokens v)
