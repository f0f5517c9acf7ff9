-- ===== src/Api/Session/SecondFactor.antt =====
-- src/api/auth.rs: what it takes to complete a login with a second factor.
use moxui.Prelude.{
  ◌≡◌, ◌≢◌, ◌↔◌, ◌⊎◌, refl, Str, str_eq_refl, true, none, some, arith, inl, inr, Bool-cases,
  Option-cases, any,
}
use moxui.Prelude.Map
use moxui.Auth.Crypto.{Crypto}
use moxui.Auth.Jwt.{JwtService}
use moxui.Auth.Totp.Backup.{accepts, verify_backup_code-any}
use moxui.Auth.Totp.Code.{verify_totp}
use moxui.Auth.Totp.PreAuth
use moxui.Auth.Totp.PreAuth.{PreAuthSession, PreAuthStore}
use moxui.Auth.Totp.PreAuth.SingleUse.{handed_out, consume-handed_out, get-consume}
use moxui.Auth.User.{User, get_by_id}
use moxui.Api.Session.{
  SessionState, Draws, LoginResponse, unauthorized, logged_in, view_of, claims_of, grant,
  second_factor, two_factor_complete,
}
use moxui.Api.Session.Login.{grant-logged_in}

-- The second factor is answered exactly by a code of the user's TOTP secret at the time, or, where
-- the check of the TOTP code does not panic, by one that a stored backup code accepts.
pub second_factor_iff :
    (c : Crypto) (jwt : JwtService) (user : User) (d : Draws) (code : Str)
    → (second_factor c jwt user d code ≡ some true) ↔ (
        ((secret : Str) × (user.totp_secret ≡ some secret)
          × (verify_totp c secret code d.totp_now ≡ some true))
        ⊎ ((any (accepts c code) user.backup_codes ≡ true)
            × ((secret : Str)
                → user.totp_secret ≡ some secret
                → verify_totp c secret code d.totp_now ≢ none)))
unfolding second_factor
second_factor_iff c jwt user d code = elim (Option-cases user.totp_secret) [
  | inl e ↦
      rw (second_factor, e, verify_backup_code-any)
        (
          λ h. inr (ground (arith, h), λ s f. ground arith),
          λ h. elim h [ inl (s, f, g) ↦ ground arith | inr (a, n) ↦ rw a refl ],
        )
  | inr (secret, e) ↦ elim (Option-cases (verify_totp c secret code d.totp_now)) [
    | inl v ↦
        rw (second_factor, e, v)
          (
            λ h. ground arith,
            λ h. elim h [
              | inl (s, f, g) ↦ ground (arith, v)
              | inr (a, n) ↦ ground (arith, n secret refl v)
            ],
          )
    | inr (valid, v) ↦
        rw (second_factor, e, v, verify_backup_code-any)
          (elim (Bool-cases valid) [
            | inl y ↦ rw y (λ h. inl (secret, refl, rw (v, y) refl), λ h. refl)
            | inr y ↦ rw y (
              λ h. inr (ground (arith, h), λ s f g. ground (arith, f, g, v)),
              λ h. elim h [ inl (s, f, g) ↦ ground (arith, f, g, v, y) | inr (a, n) ↦ rw a refl ],
            )
          ])
  ]
]

module _ (c : Crypto) (jwt : JwtService) (state : SessionState) (d : Draws) where
  grant-preauth : (user : User) → (grant c jwt state d user).0.preauth ≡ state.preauth
  unfolding grant
  grant-preauth user =
      elim (Option-cases (jwt.encode (claims_of user d.claims_now state.jwt_lifetime_secs))) [
        | inl e ↦ rw (grant, e) refl
        | inr (t, e) ↦ rw (grant, e) refl
      ]

module _ (c : Crypto) (jwt : JwtService) (state : SessionState) (d : Draws) (token code : Str) where
  complete-refused :
      (PreAuth.consume state.preauth token d.preauth_now).1 ≡ none
      → (two_factor_complete c jwt state d token code).1 ≡ unauthorized
  unfolding two_factor_complete
  complete-refused e = rw (two_factor_complete, e) refl

  complete-preauth :
      (two_factor_complete c jwt state d token code).0.preauth
      ≡ (PreAuth.consume state.preauth token d.preauth_now).0
  unfolding two_factor_complete
  complete-preauth = elim (Option-cases (PreAuth.consume state.preauth token d.preauth_now).1) [
    | inl e ↦ rw (two_factor_complete, e) refl
    | inr (session, e) ↦ elim (Option-cases (get_by_id state.users session.user_id)) [
      | inl f ↦ rw (two_factor_complete, e, f) refl
      | inr (user, f) ↦ elim (Option-cases (second_factor c jwt user d code)) [
        | inl g ↦ rw (two_factor_complete, e, f, g) refl
        | inr (valid, g) ↦ elim (Bool-cases valid) [
          | inl y ↦ rw (two_factor_complete, e, f, g, y) (grant-preauth c jwt _ d user)
          | inr y ↦ rw (two_factor_complete, e, f, g, y) refl
        ]
      ]
    ]
  ]

module _ (c : Crypto) (jwt : JwtService) (state : SessionState) (d : Draws) (token code : Str) where
  -- Completing a login consumes the pre-auth token whatever the answer: the same token completes
  -- no other login, at any time and with any code.
  pub two_factor_complete_once :
      (d' : Draws) (code' : Str)
      → (two_factor_complete c jwt
          (two_factor_complete c jwt state d token code).0
          d'
          token
          code').1
        ≡ unauthorized
  two_factor_complete_once d' code' =
      complete-refused c jwt (two_factor_complete c jwt state d token code).0 d' token code'
        (rw (complete-preauth, consume-handed_out, get-consume, str_eq_refl) refl)

  -- A login is completed only for a pre-auth session that is stored under the token, has not
  -- expired and is not consumed, whose user exists and answers the second factor. The response
  -- shows this user and carries a token that was encoded from the user's claims.
  pub two_factor_complete-logged_in :
      (r : LoginResponse)
      → (two_factor_complete c jwt state d token code).1 ≡ logged_in r
      → (session : PreAuthSession) × (user : User) × (handed_out d.preauth_now
            (Map.get token state.preauth.sessions)
          ≡ some session)
        × (get_by_id state.users session.user_id ≡ some user)
        × (second_factor c jwt user d code ≡ some true)
        × (r.user ≡ view_of user)
        × (jwt.encode (claims_of user d.claims_now state.jwt_lifetime_secs) ≡ some r.token)
  unfolding two_factor_complete
  two_factor_complete-logged_in r h =
      elim (Option-cases (PreAuth.consume state.preauth token d.preauth_now).1) [
        | inl e ↦ let n = rw (two_factor_complete, e) at h in ground (arith, n)
        | inr (session, e) ↦ elim (Option-cases (get_by_id state.users session.user_id)) [
          | inl f ↦ let n = rw (two_factor_complete, e, f) at h in ground (arith, n)
          | inr (user, f) ↦ elim (Option-cases (second_factor c jwt user d code)) [
            | inl g ↦ let n = rw (two_factor_complete, e, f, g) at h in ground (arith, n)
            | inr (valid, g) ↦ elim (Bool-cases valid) [
              | inl y ↦
                  let n = rw (two_factor_complete, e, f, g, y) at h in
                  let (encoded, shown, refresh, store) = grant-logged_in c jwt _ d user r n in
                  let handed = rw (consume-handed_out) at e in
                  (session, user, handed, f, rw (g, y) refl, shown, encoded)
              | inr y ↦ let n = rw (two_factor_complete, e, f, g, y) at h in ground (arith, n)
            ]
          ]
        ]
      ]
