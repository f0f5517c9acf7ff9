-- ===== src/Auth/Totp/Code.antt =====
-- src/auth/totp.rs: `compute_totp` and `verify_totp`. `none` is an index out of bounds, a panic;
-- `|` of the shifted bytes is written as a sum, since they share no bits.
pub mod Window
use moxui.Prelude.{
  ℕ, zero, suc, ◌+◌, ◌-◌, ◌*◌, ◌/◌, ◌%◌, ◌^◌, List, [], ◌∷◌, Str, str_eq, Bool, true, false, Option,
  none, some, if◌then◌else◌, ltb, get_elem?, Result, ok, err,
}
use Prim.Native.Nat.{min}
use moxui.Prelude.Options.{◌>>=◌}
use moxui.Auth.Crypto.{Crypto}
use moxui.Auth.Totp.Base32.{Base32Error, base32_decode, base32_encode}

-- `u64::to_be_bytes` is the case of eight bytes.
unfoldable pub to_be_bytes : ℕ → ℕ → List ℕ
to_be_bytes zero x = []
to_be_bytes (suc n) x = (x / 2 ^ (8 * n) % 256) ∷ to_be_bytes n x

-- `format!("{:0n}")` of a number with at most `n` digits.
unfoldable pub pad_digits : ℕ → ℕ → Str
pad_digits zero x = []
pad_digits (suc n) x = (48 + x / 10 ^ n % 10) ∷ pad_digits n x

-- The truncation of RFC 4226, section 5.3: four bytes at the offset that the last byte names.
unfoldable pub truncate : List ℕ → Option ℕ
truncate result = do
  last ← get_elem? result 19
  let offset = last % 16
  b0 ← get_elem? result offset
  b1 ← get_elem? result (offset + 1)
  b2 ← get_elem? result (offset + 2)
  b3 ← get_elem? result (offset + 3)
  some (b0 % 128 * 2 ^ 24 + b1 * 2 ^ 16 + b2 * 2 ^ 8 + b3)

-- `secret` is 20 random bytes.
unfoldable pub generate_totp_secret : List ℕ → Str
generate_totp_secret buf = base32_encode buf

module _ (c : Crypto) where
  unfoldable pub compute_totp : List ℕ → ℕ → Option Str
  unfolding to_be_bytes truncate pad_digits
  compute_totp secret counter = do
    code ← truncate (c.hmac_sha1 secret (to_be_bytes 8 counter))
    some (pad_digits 6 (code % 1000000))

  -- `(lo..lo + n).any(|c| compute_totp(secret, c) == code)`.
  unfoldable pub any_totp : List ℕ → Str → ℕ → ℕ → Option Bool
  any_totp secret code lo zero = some false
  any_totp secret code lo (suc n) =
      let rest = any_totp secret code (lo + 1) n in
      compute_totp secret lo >>= λ t. if str_eq t code then some true else rest

  -- `now` is in seconds; a clock before the epoch reads 0.
  unfoldable pub verify_totp : Str → Str → ℕ → Option Bool
  unfolding any_totp compute_totp
  verify_totp secret_b32 code now = elim (base32_decode secret_b32) [
    | err e ↦ some false
    | ok secret ↦
        let counter = now / 30 in
        let lo = counter - 1 in
        let hi = min (counter + 1) (2 ^ 64 - 1) in any_totp secret code lo (hi + 1 - lo)
  ]
