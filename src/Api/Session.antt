-- ===== src/Api/Session.antt =====
-- src/api/auth.rs: the handlers that begin, extend and end a session.
pub mod Login
pub mod SecondFactor
pub mod Renewal
use moxui.Prelude.{ℕ, List, Str, Bool, true, false, Option, none, some, is_some, if◌then◌else◌}
use moxui.Prelude.Int.{ℤ, add_i64}
use moxui.Auth.Crypto.{Crypto}
use moxui.Auth.Jwt.{Claims, JwtService}
use moxui.Auth.Refresh
use moxui.Auth.Refresh.{RefreshStore, default_refresh_ttl_secs}
use moxui.Auth.Totp.Backup.{verify_backup_code}
use moxui.Auth.Totp.Code.{verify_totp}
use moxui.Auth.Totp.PreAuth
use moxui.Auth.Totp.PreAuth.{PreAuthStore}
use moxui.Auth.User.{User, UserStore, as_str, authenticate, get_by_id}

-- What the handlers read and write of `AppState`.
pub record SessionState : Type 0 where
  pub users : UserStore
  pub refresh_store : RefreshStore
  pub preauth : PreAuthStore
  pub jwt_lifetime_secs : ℤ

-- What a request draws from the outside: random bytes, a fresh UUID, and the clock at each place
-- that reads it.
pub record Draws : Type 0 where
  pub preauth_buf : List ℕ
  pub preauth_now : ℤ
  pub totp_now : ℕ
  pub claims_now : ℤ
  pub refresh_id : Str
  pub refresh_buf : List ℕ
  pub expiry_now : ℤ
  pub refresh_now : ℤ

pub record UserView : Type 0 where
  pub id : Str
  pub username : Str
  pub display_name : Str
  pub email : Option Str
  pub role : Str

pub record LoginResponse : Type 0 where
  pub token : Str
  pub expires_in : ℤ
  pub user : UserView
  pub refresh_token : Str

pub record RefreshResponse : Type 0 where
  pub token : Str
  pub expires_in : ℤ
  pub refresh_token : Str

-- The responses; `panicked` is a panic of a callee.
pub data Answer : Type 0 where
  unauthorized internal panicked logged_out : Answer
  two_factor_required : Str → Answer
  logged_in : LoginResponse → Answer
  refreshed : RefreshResponse → Answer

-- `From<&User>`.
unfoldable pub view_of : User → UserView
view_of u = record {
  id = u.id;
  username = u.username;
  display_name = u.display_name;
  email = u.email;
  role = as_str u.role;
}

unfoldable pub claims_of : User → ℤ → ℤ → Claims
claims_of u now lifetime = record {
  sub = u.id;
  username = u.username;
  role = as_str u.role;
  iat = now;
  exp = add_i64 now lifetime;
}

module _ (c : Crypto) (jwt : JwtService) where
  -- The end of `login` and of `two_factor_complete`.
  unfoldable pub grant : SessionState → Draws → User → SessionState × Answer
  unfolding claims_of view_of
  grant state d user = elim (jwt.encode (claims_of user d.claims_now state.jwt_lifetime_secs)) [
    | none ↦ (state, internal)
    | some token ↦
        let (store, refresh) =
          Refresh.issue c state.refresh_store user.id default_refresh_ttl_secs d.refresh_id
            d.refresh_buf d.refresh_now in
        let response : LoginResponse = record {
          token = token;
          expires_in = state.jwt_lifetime_secs;
          user = view_of user;
          refresh_token = refresh.token;
        } in
        (record state { refresh_store = store }, logged_in response)
  ]

  unfoldable pub login : SessionState → Draws → Str → Str → SessionState × Answer
  unfolding grant
  login state d username password = elim (authenticate c state.users username password) [
    | none ↦ (state, unauthorized)
    | some user ↦
        let (preauth, token) =
          PreAuth.issue c state.preauth user.id user.username d.preauth_buf d.preauth_now in
        if user.totp_enabled
        then (record state { preauth = preauth }, two_factor_required token)
        else grant state d user
  ]

  -- The TOTP code is tried first, then the backup codes; the remaining codes are only counted.
  unfoldable pub second_factor : User → Draws → Str → Option Bool
  second_factor user d code =
      let backup = is_some (verify_backup_code c user.backup_codes code) in
      elim user.totp_secret [
        | none ↦ some backup
        | some secret ↦ elim (verify_totp c secret code d.totp_now) [
          | none ↦ none
          | some valid ↦ some (if valid then true else backup)
        ]
      ]

  unfoldable pub two_factor_complete : SessionState → Draws → Str → Str → SessionState × Answer
  unfolding second_factor grant
  two_factor_complete state d preauth_token code =
      let (preauth, session) = PreAuth.consume state.preauth preauth_token d.preauth_now in
      let state' = record state { preauth = preauth } in
      elim session [
        | none ↦ (state', unauthorized)
        | some session ↦ elim (get_by_id state.users session.user_id) [
          | none ↦ (state', internal)
          | some user ↦ elim (second_factor user d code) [
            | none ↦ (state', panicked)
            | some valid ↦ if valid then grant state' d user else (state', unauthorized)
          ]
        ]
      ]

  unfoldable pub refresh : SessionState → Draws → Str → SessionState × Answer
  unfolding claims_of
  refresh state d refresh_token =
      let (store, rotated) =
        Refresh.rotate c state.refresh_store refresh_token default_refresh_ttl_secs d.expiry_now
          d.refresh_id d.refresh_buf d.refresh_now in
      let state' = record state { refresh_store = store } in
      elim rotated [
        | none ↦ (state', unauthorized)
        | some new_refresh ↦ elim (get_by_id state.users new_refresh.user_id) [
          | none ↦ (state', internal)
          | some user ↦ elim (jwt.encode (claims_of user d.claims_now state.jwt_lifetime_secs)) [
            | none ↦ (state', internal)
            | some token ↦
                let response : RefreshResponse = record {
                  token = token;
                  expires_in = state.jwt_lifetime_secs;
                  refresh_token = new_refresh.token;
                } in
                (state', refreshed response)
          ]
        ]
      ]

  unfoldable pub logout : SessionState → Draws → Str → SessionState × Answer
  logout state d refresh_token =
      elim (Refresh.verify c state.refresh_store refresh_token d.expiry_now) [
        | none ↦ (state, logged_out)
        | some found ↦
            let (store, done) = Refresh.revoke state.refresh_store found.0 in
            (record state { refresh_store = store }, logged_out)
      ]
