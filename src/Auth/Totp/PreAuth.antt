-- ===== src/Auth/Totp/PreAuth.antt =====
-- src/auth/totp.rs: `PreAuthStore`, the sessions between the password and the second factor.
pub mod SingleUse
use moxui.Prelude.{
  ℕ, ◌-◌, List, [], ◌∷◌, Str, Bool, true, false, not, ◌&&◌, ◌||◌, Option, none, some, if◌then◌else◌,
  length,
}
use moxui.Prelude.Int.{ℤ, pos, ltb_ℤ, add_i64}
use moxui.Prelude.Map
use moxui.Prelude.Map.{Map}
use moxui.Auth.Crypto.{Crypto}

-- PREAUTH_TTL_SECS: five minutes.
abbrev pub preauth_ttl_secs : ℤ
preauth_ttl_secs = pos 300

pub record PreAuthSession : Type 0 where
  pub user_id : Str
  pub username : Str
  pub expires_at : ℤ
  pub consumed : Bool

pub record PreAuthStore : Type 0 where
  pub sessions : Map PreAuthSession

unfoldable pub new : PreAuthStore
new = record { sessions = [] }

-- `buf` is what the operating system's generator put into the 32 bytes.
unfoldable pub issue : Crypto → PreAuthStore → Str → Str → List ℕ → ℤ → PreAuthStore × Str
issue c s user_id username buf now =
    let token = c.hex_encode buf in
    let session : PreAuthSession = record {
      user_id = user_id;
      username = username;
      expires_at = add_i64 now preauth_ttl_secs;
      consumed = false;
    } in
    (record s { sessions = Map.insert token session s.sessions }, token)

abbrev pub set_consumed : PreAuthSession → PreAuthSession
set_consumed x = record x { consumed = true }

unfoldable pub consume : PreAuthStore → Str → ℤ → PreAuthStore × Option PreAuthSession
consume s token now = elim (Map.get token s.sessions) [
  | none ↦ (s, none)
  | some session ↦
      if ltb_ℤ session.expires_at now || session.consumed
      then (record s { sessions = Map.remove token s.sessions }, none)
      else (let marked = Map.update token set_consumed s.sessions in
          (record s { sessions = Map.remove token marked }, Map.get token marked))
]

unfoldable pub count : PreAuthStore → ℕ
count s = length s.sessions

abbrev pub is_pending : ℤ → PreAuthSession → Bool
is_pending now x = not (ltb_ℤ x.expires_at now) && not x.consumed

unfoldable pub purge_expired : PreAuthStore → ℤ → PreAuthStore × ℕ
purge_expired s now =
    let kept = Map.retain (is_pending now) s.sessions in
    (record s { sessions = kept }, length s.sessions - length kept)
