-- ===== src/Api/TwoFactor.antt =====
-- src/api/auth.rs: the handlers that set up the second factor. None of them changes the store of the
-- users.
pub mod Setup
use moxui.Prelude.{ℕ, List, [], Str, Bool, true, false, Option, none, some, unwrap_or}
use moxui.Prelude.Options.{◌>>=◌}
use moxui.Auth.Crypto.{Crypto}
use moxui.Auth.Jwt.{Claims}
use moxui.Auth.User.{authenticate}
use moxui.Auth.Totp.Code.{generate_totp_secret, verify_totp}
use moxui.Auth.Totp.Url.{totp_url}
use moxui.Auth.Totp.Backup.{generate_from}
use moxui.Api.Session.{SessionState}

pub record SetupAnswer : Type 0 where
  pub secret : Str
  pub url : Str
  pub backup_codes : List Str

-- The answers of the other two handlers; `panicked` is a panic of a callee.
pub data TwoFactorAnswer : Type 0 where
  invalid_code invalid_password enabled disabled panicked : TwoFactorAnswer

module _ (c : Crypto) where
  -- `buf` and `draws` are the random bytes of the secret and of the backup codes. The hashes of the
  -- codes are dropped; `none` is a panic.
  unfoldable pub two_factor_setup :
      Str → SessionState → Claims → List ℕ → List (ℕ × List ℕ) → SessionState × Option SetupAnswer
  two_factor_setup jwt_issuer state claims buf draws =
      let secret = generate_totp_secret buf in
      (
        state,
        generate_from c draws >>= λ (plain_codes, hashed_codes). some record {
          secret = secret;
          url = totp_url jwt_issuer claims.username secret;
          backup_codes = plain_codes;
        },
      )

  unfoldable pub two_factor_verify :
      SessionState → Str → Str → ℕ → List (ℕ × List ℕ) → SessionState × TwoFactorAnswer
  two_factor_verify state secret code now draws = (
    state,
    elim (verify_totp c secret code now) [
      | none ↦ panicked
      | some false ↦ invalid_code
      | some true ↦ elim (generate_from c draws) [ none ↦ panicked | some codes ↦ enabled ]
    ],
  )

  -- `password` is the text under the key of this name, if there is one.
  unfoldable pub two_factor_disable :
      SessionState → Claims → Option Str → SessionState × TwoFactorAnswer
  two_factor_disable state claims password = (
    state,
    elim (authenticate c state.users claims.username (unwrap_or password [])) [
      | none ↦ invalid_password
      | some user ↦ disabled
    ],
  )
