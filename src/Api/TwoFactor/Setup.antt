-- ===== src/Api/TwoFactor/Setup.antt =====
-- src/api/auth.rs: the secret that the setup gives out is one that the verification takes.
use moxui.Prelude.{ℕ, ◌+◌, ◌/◌, ◌^◌, ◌≤◌, ◌<◌, List, Str, true, some, ok, ◌≡◌, refl, ap, ◌∙◌, arith}
use moxui.Prelude.Options.{>>=-eq-some}
use moxui.Auth.Crypto.{Crypto}
use moxui.Auth.Jwt.{Claims}
use moxui.Auth.Totp.Base32.{base32_encode, base32_decode}
use moxui.Auth.Totp.Base32.RoundTrip.{base32_decode-encode}
use moxui.Prelude.Text.{AreBytes}
use moxui.Auth.Totp.Code.{generate_totp_secret, compute_totp, verify_totp}
use moxui.Auth.Totp.Code.Window.{HasDigests, verify_totp_iff}
use moxui.Auth.Totp.Backup.{generate_from}
use moxui.Api.Session.{SessionState}
use moxui.Api.TwoFactor.{SetupAnswer, two_factor_setup, two_factor_verify, enabled}

setup-secret :
    (c : Crypto) (jwt_issuer : Str) (state : SessionState) (claims : Claims) (buf : List ℕ)
    (draws : List (ℕ × List ℕ)) (answer : SetupAnswer)
    → (two_factor_setup c jwt_issuer state claims buf draws).1 ≡ some answer
    → (answer.secret ≡ base32_encode buf)
      × (codes : List Str × List Str) × (generate_from c draws ≡ some codes)
unfolding two_factor_setup generate_totp_secret
setup-secret c jwt_issuer state claims buf draws answer h =
    let (codes, made, same) = >>=-eq-some (generate_from c draws) _ h in
    (ground (arith, same), codes, made)

-- A code of the secret that the setup answered, from the current window of 30 seconds or from one of
-- its neighbours, is taken by the verification, if hashing the backup codes does not panic. The
-- secret's random numbers are bytes, the HMACs have twenty bytes, and the clock fits 64 bits.
pub two_factor_verify-setup :
    (c : Crypto) (digests : HasDigests c) (jwt_issuer : Str) (state state' : SessionState)
    (claims : Claims) (buf : List ℕ) (draws draws' : List (ℕ × List ℕ)) (answer : SetupAnswer)
    (now k : ℕ) (code : Str) (codes : List Str × List Str)
    → AreBytes buf
    → (two_factor_setup c jwt_issuer state claims buf draws).1 ≡ some answer
    → now < 2 ^ 64
    → now / 30 ≤ k + 1
    → k ≤ now / 30 + 1
    → compute_totp c buf k ≡ some code
    → generate_from c draws' ≡ some codes
    → (two_factor_verify c state' answer.secret code now draws').1 ≡ enabled
unfolding two_factor_verify
two_factor_verify-setup c digests jwt_issuer state state' claims buf draws draws' answer now k code
      codes bytes h bound low high computed made =
    let (secret, _, _) = setup-secret c jwt_issuer state claims buf draws answer h in
    let decoded : base32_decode answer.secret ≡ ok buf =
      ap base32_decode secret ∙ base32_decode-encode buf bytes in
    let (_, (_, from)) = verify_totp_iff c digests answer.secret code now buf decoded bound in
    let accepted : verify_totp c answer.secret code now ≡ some true =
      from (k, low, high, computed) in
    rw (two_factor_verify, accepted, made) refl
