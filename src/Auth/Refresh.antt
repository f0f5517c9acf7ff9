-- ===== src/Auth/Refresh.antt =====
-- src/auth/refresh.rs: the store of refresh tokens. The clock, the random bytes and the fresh
-- UUIDs are arguments of the operations that draw them; the lock makes each operation one step.
pub mod Ledger
pub mod Valid
pub mod Rotation
pub mod Admission
pub mod Replay
pub mod History
use moxui.Prelude.{
  ℕ, suc, List, [], ◌∷◌, Str, str_eq, Bool, true, false, ◌&&◌, not, Option, none, some,
  if◌then◌else◌, length, count_if,
}
use moxui.Prelude.Int.{ℤ, pos, ltb_ℤ, add_i64}
use moxui.Prelude.Map
use moxui.Prelude.Map.{Map}
use moxui.Auth.Crypto.{Crypto}

-- DEFAULT_REFRESH_TTL_SECS: seven days.
abbrev pub default_refresh_ttl_secs : ℤ
default_refresh_ttl_secs = pos 604800

pub record StoredRefreshToken : Type 0 where
  pub id : Str
  pub user_id : Str
  pub token_hash : Str
  pub expires_at : ℤ
  pub revoked : Bool
  pub created_at : ℤ

pub record RefreshStore : Type 0 where
  pub tokens : Map StoredRefreshToken

pub record IssuedRefreshToken : Type 0 where
  pub token : Str
  pub id : Str
  pub user_id : Str
  pub expires_at : ℤ

unfoldable pub new : RefreshStore
new = record { tokens = [] }

unfoldable pub hash_token : Crypto → Str → Str
hash_token c token = c.hex_encode (c.sha256 token)

-- `buf` is what the operating system's generator put into the 32 bytes.
unfoldable pub generate_token : Crypto → List ℕ → Str
generate_token c buf = c.base64_no_pad buf

abbrev pub set_revoked : StoredRefreshToken → StoredRefreshToken
set_revoked r = record r { revoked = true }

-- The scan of `verify` over the values of the map.
unfoldable pub verify_scan : Str → ℤ → Map StoredRefreshToken → Option (Str × Str)
verify_scan hash now [] = none
verify_scan hash now ((_, r) ∷ rest) =
    if str_eq r.token_hash hash
    then (if r.revoked
        then none
        else if ltb_ℤ r.expires_at now
        then none
        else some (r.id, r.user_id))
    else verify_scan hash now rest

-- The first entry, in the order of iteration, that stores the hash.
unfoldable pub find_hash : Str → Map StoredRefreshToken → Option (Str × StoredRefreshToken)
find_hash hash [] = none
find_hash hash ((k, r) ∷ rest) =
    if str_eq r.token_hash hash then some (k, r) else find_hash hash rest

-- The loop of the family revocation in `rotate`.
unfoldable pub revoke_family : Str → Map StoredRefreshToken → Map StoredRefreshToken
revoke_family user_id = Map.update_all (λ r. if str_eq r.user_id user_id then set_revoked r else r)

-- The loop of `revoke_all_for_user`, with its counter.
unfoldable pub revoke_active : Str → Map StoredRefreshToken → Map StoredRefreshToken × ℕ
revoke_active user_id [] = ([], 0)
revoke_active user_id ((k, r) ∷ rest) =
    let (rest', count) = revoke_active user_id rest in
    if str_eq r.user_id user_id && not r.revoked
    then ((k, set_revoked r) ∷ rest', suc count)
    else ((k, r) ∷ rest', count)

unfoldable pub revoke : RefreshStore → Str → RefreshStore × Bool
revoke s id =
    if Map.contains_key id s.tokens
    then (record s { tokens = Map.update id set_revoked s.tokens }, true)
    else (s, false)

unfoldable pub revoke_all_for_user : RefreshStore → Str → RefreshStore × ℕ
revoke_all_for_user s user_id =
    let (tokens, count) = revoke_active user_id s.tokens in (record s { tokens = tokens }, count)

unfoldable pub count : RefreshStore → ℕ
count s = length s.tokens

unfoldable pub active_count : RefreshStore → ℤ → ℕ
active_count s now = count_if (λ r. not r.revoked && ltb_ℤ now r.expires_at) (Map.values s.tokens)

module _ (c : Crypto) where
  unfoldable pub issue :
      RefreshStore → Str → ℤ → Str → List ℕ → ℤ → RefreshStore × IssuedRefreshToken
  issue s user_id ttl_secs id buf now =
      let raw = generate_token c buf in
      let stored : StoredRefreshToken = record {
        id = id;
        user_id = user_id;
        token_hash = hash_token c raw;
        expires_at = add_i64 now ttl_secs;
        revoked = false;
        created_at = now;
      } in
      (
        record s { tokens = Map.insert id stored s.tokens },
        record { token = raw; id = id; user_id = user_id; expires_at = add_i64 now ttl_secs },
      )

  unfoldable pub verify : RefreshStore → Str → ℤ → Option (Str × Str)
  unfolding verify_scan
  verify s raw_token now = verify_scan (hash_token c raw_token) now s.tokens

  -- `now` is the clock at the test of the expiry, `later` the clock at the new record.
  unfoldable pub rotate :
      RefreshStore → Str → ℤ → ℤ → Str → List ℕ → ℤ → RefreshStore × Option IssuedRefreshToken
  rotate s raw_token ttl_secs now new_id buf later =
      elim (find_hash (hash_token c raw_token) s.tokens) [
        | none ↦ (s, none)
        | some (id, r) ↦
            let new_raw = generate_token c buf in
            let new_record : StoredRefreshToken = record {
              id = new_id;
              user_id = r.user_id;
              token_hash = hash_token c new_raw;
              expires_at = add_i64 later ttl_secs;
              revoked = false;
              created_at = later;
            } in
            let issued : IssuedRefreshToken = record {
              token = new_raw;
              id = new_id;
              user_id = r.user_id;
              expires_at = add_i64 later ttl_secs;
            } in
            if ltb_ℤ r.expires_at now
            then (s, none)
            else if r.revoked
            then (record s { tokens = revoke_family r.user_id s.tokens }, none)
            else (
              record s {
                tokens = Map.insert new_id new_record (Map.update id set_revoked s.tokens);
              },
              some issued,
            )
      ]
