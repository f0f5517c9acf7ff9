-- ===== src/Tests/Totp.antt =====
-- src/auth/totp.rs on small secrets, codes and sessions.
use moxui.Prelude.{
  ℕ, ◌+◌, ◌/◌, ◌≤◌, List, [], ◌∷◌, Str, codes, Bool, true, false, some, ◌≡◌, ◌↔◌, refl, length,
  arith, ok,
}
use moxui.Prelude.Int.{pos}
use moxui.Prelude.Text.{AreBytes}
use moxui.Auth.Password.{hash_password}
use moxui.Auth.Totp.Backup.{generate_from, accepted_each, generate_from-accepted}
use moxui.Auth.Totp.Base32.{base32_encode, base32_decode}
use moxui.Auth.Totp.Base32.RoundTrip.{base32_decode-encode}
use moxui.Auth.Totp.Code.{
  pad_digits, compute_totp, verify_totp, generate_totp_secret, truncate, to_be_bytes,
}
use moxui.Auth.Totp.Url.{totp_url}
use moxui.Api.Session.{SessionState}
use moxui.Api.TwoFactor.{SetupAnswer, two_factor_setup, two_factor_verify, enabled}
use moxui.Api.TwoFactor.Setup.{two_factor_verify-setup}
use moxui.Auth.Totp.Code.Window.{IsCode, compute_totp-IsCode, verify_totp_iff}
use moxui.Auth.Totp.PreAuth.{PreAuthSession, PreAuthStore}
use moxui.Tests.Toy.{toy, toy-HasDigests, toy-HashesVerify, toy_claims, accounts}

abbrev key : List ℕ
key = 200 ∷ 7 ∷ 255 ∷ []

key-AreBytes : AreBytes key
key-AreBytes = (omega arith, (omega arith, (omega arith, tt)))

base32_decode-encode_example : base32_decode (base32_encode key) ≡ ok key
base32_decode-encode_example = base32_decode-encode key key-AreBytes

compute_totp-IsCode_example : (code : Str) × (compute_totp toy key 5 ≡ some code) × IsCode 6 code
compute_totp-IsCode_example = compute_totp-IsCode toy toy-HasDigests key 5

verify_totp_iff_example :
    ((b : Bool) × (verify_totp toy (base32_encode key) (codes "123456") 95 ≡ some b))
    × ((verify_totp toy (base32_encode key) (codes "123456") 95 ≡ some true) ↔ (
        (k : ℕ) × (95 / 30 ≤ k + 1)
        × (k ≤ 95 / 30 + 1)
        × (compute_totp toy key k ≡ some (codes "123456"))))
verify_totp_iff_example =
    verify_totp_iff toy toy-HasDigests (base32_encode key) (codes "123456") 95 key
      (base32_decode-encode key key-AreBytes) (omega arith)

abbrev one_draw : List (ℕ × List ℕ)
one_draw = (42, []) ∷ []

generated : generate_from toy one_draw ≡ some (codes "00000042" ∷ [], codes "00000042" ∷ [])
unfolding generate_from hash_password pad_digits
generated = refl

generate_from-accepted_example :
    (length (codes "00000042" ∷ []) ≡ length one_draw)
    × (accepted_each toy (codes "00000042" ∷ []) (codes "00000042" ∷ []) ≡ true)
generate_from-accepted_example =
    generate_from-accepted toy one_draw (codes "00000042" ∷ []) (codes "00000042" ∷ [])
      toy-HashesVerify generated

abbrev pending : PreAuthSession
pending = record {
  user_id = codes "2";
  username = codes "bob";
  expires_at = pos 300;
  consumed = false;
}

abbrev sessions : PreAuthStore
sessions = record { sessions = (codes "t", pending) ∷ (codes "r", pending) ∷ [] }

abbrev session : SessionState
session = record {
  users = accounts;
  refresh_store = record { tokens = [] };
  preauth = record { sessions = [] };
  jwt_lifetime_secs = pos 60;
}

abbrev setup : SetupAnswer
setup = record {
  secret = generate_totp_secret key;
  url = totp_url (codes "moxui") (codes "ann") (generate_totp_secret key);
  backup_codes = codes "00000042" ∷ [];
}

set_up : (two_factor_setup toy (codes "moxui") session toy_claims key one_draw).1 ≡ some setup
unfolding two_factor_setup generate_from hash_password pad_digits
set_up = refl

window_code : compute_totp toy key 3 ≡ some (codes "281096")
unfolding compute_totp truncate pad_digits to_be_bytes
window_code = refl

two_factor_verify-setup_example :
    (two_factor_verify toy session setup.secret (codes "281096") 95 one_draw).1 ≡ enabled
two_factor_verify-setup_example =
    two_factor_verify-setup toy toy-HasDigests (codes "moxui") session session toy_claims key
      one_draw one_draw setup 95 3 (codes "281096") (codes "00000042" ∷ [], codes "00000042" ∷ [])
      key-AreBytes set_up (omega arith) (omega arith) (omega arith) window_code generated
