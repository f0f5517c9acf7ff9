-- ===== src/Api/Session/Login.antt =====
-- src/api/auth.rs: what it takes to begin a session.
use moxui.Prelude.{
  ◌≡◌, refl, Str, str_eq_refl, true, false, none, some, if◌then◌else◌, arith, inl, inr, Bool-cases,
  Option-cases,
}
use moxui.Prelude.Int.{ℤ, ltb_ℤ, add_i64}
use moxui.Prelude.Map
use moxui.Prelude.Map.{get-insert}
use moxui.Auth.Crypto.{Crypto}
use moxui.Auth.Jwt.{JwtService}
use moxui.Auth.Refresh
use moxui.Auth.Refresh.{default_refresh_ttl_secs, generate_token}
use moxui.Auth.Refresh.Admission.{issue-verify}
use moxui.Auth.Refresh.Valid.{IsFresh}
use moxui.Auth.Totp.PreAuth
use moxui.Auth.User.{User, authenticate}
use moxui.Api.Session.{
  SessionState, Draws, LoginResponse, two_factor_required, logged_in, view_of, claims_of, grant,
  login,
}

module _ (c : Crypto) (jwt : JwtService) (state : SessionState) (d : Draws) where
  pub grant-logged_in :
      (user : User) (r : LoginResponse)
      → (grant c jwt state d user).1 ≡ logged_in r
      → (jwt.encode (claims_of user d.claims_now state.jwt_lifetime_secs) ≡ some r.token)
        × (r.user ≡ view_of user)
        × (r.refresh_token ≡ generate_token c d.refresh_buf)
        × ((grant c jwt state d user).0 ≡ record state {
          refresh_store =
              (Refresh.issue c state.refresh_store user.id default_refresh_ttl_secs d.refresh_id
                d.refresh_buf d.refresh_now).0;
        })
  unfolding grant Refresh.issue
  grant-logged_in user r h =
      elim (Option-cases (jwt.encode (claims_of user d.claims_now state.jwt_lifetime_secs))) [
        | inl e ↦ let g = rw (grant, e) at h in ground (arith, g)
        | inr (t, e) ↦ let g = rw (grant, e) at h in rw (grant, e) (ground (arith, g))
      ]

  -- A password alone logs in only a user whom `authenticate` accepts and who has not enabled the
  -- second factor. The response shows this user and carries a token that was encoded from the
  -- user's claims, and the refresh token is admitted for the user from then up to its expiry,
  -- provided that its id and its hash are new to the store.
  pub login-logged_in :
      (username password : Str) (r : LoginResponse)
      → IsFresh c state.refresh_store d.refresh_id d.refresh_buf
      → (login c jwt state d username password).1 ≡ logged_in r
      → (u : User) × (authenticate c state.users username password ≡ some u)
        × (u.totp_enabled ≡ false)
        × (r.user ≡ view_of u)
        × (jwt.encode (claims_of u d.claims_now state.jwt_lifetime_secs) ≡ some r.token)
        × ((t : ℤ)
            → Refresh.verify c
                (login c jwt state d username password).0.refresh_store
                r.refresh_token
                t
              ≡ (if ltb_ℤ (add_i64 d.refresh_now default_refresh_ttl_secs) t
                  then none
                  else some (d.refresh_id, u.id)))
  unfolding login generate_token Refresh.issue
  login-logged_in username password r fresh h =
      elim (Option-cases (authenticate c state.users username password)) [
        | inl e ↦ let g = rw (login, e) at h in ground (arith, g)
        | inr (u, e) ↦ elim (Bool-cases u.totp_enabled) [
          | inl y ↦ let g = rw (login, e, y) at h in ground (arith, g)
          | inr y ↦
              let g = rw (login, e, y) at h in
              let (encoded, shown, refresh, store) = grant-logged_in u r g in
              (
                u,
                e,
                y,
                shown,
                encoded,
                λ t.
                    rw
                      (
                        login,
                        e,
                        y,
                        store,
                        refresh,
                        issue-verify c state.refresh_store u.id default_refresh_ttl_secs
                            d.refresh_id d.refresh_buf d.refresh_now
                            (generate_token c d.refresh_buf) t fresh,
                        str_eq_refl,
                      )
                      refl,
              )
        ]
      ]

  -- A user whom `authenticate` accepts and who enabled the second factor gets no session from the
  -- password: the answer is a pre-auth token, the refresh store stays, and under the token stands an
  -- unconsumed session of this user that expires after the lifetime of pre-auth sessions.
  pub login_two_factor :
      (username password : Str) (u : User)
      → authenticate c state.users username password ≡ some u
      → u.totp_enabled ≡ true
      → (token : Str) × ((login c jwt state d username password).1 ≡ two_factor_required token)
        × ((login c jwt state d username password).0.refresh_store ≡ state.refresh_store)
        × (Map.get token (login c jwt state d username password).0.preauth.sessions
            ≡ some (record {
              user_id = u.id;
              username = u.username;
              expires_at = add_i64 d.preauth_now PreAuth.preauth_ttl_secs;
              consumed = false;
            }))
  unfolding login PreAuth.issue
  login_two_factor username password u e y = (
    c.hex_encode d.preauth_buf,
    rw (login, e, y) refl,
    rw (login, e, y) refl,
    rw (login, e, y, get-insert, str_eq_refl) refl,
  )
