-- ===== src/Auth/Totp/Code/Window.antt =====
-- src/auth/totp.rs: which codes `verify_totp` accepts.
use moxui.Prelude.{
  ℕ, zero, suc, ◌+◌, ◌-◌, ◌*◌, ◌/◌, ◌%◌, ◌^◌, ◌<◌, ◌≤◌, ◌≡◌, ◌≢◌, ◌↔◌, refl, List, [], ◌∷◌, Str,
  str_eq, str_eq_iff, Bool, true, false, ◌&&◌, some, if◌then◌else◌, leb, get_elem?, arith, ok,
  length, all, inl, inr, Bool-cases,
}
use Prim.Native.Nat.{min}
use moxui.Auth.Crypto.{Crypto}
use moxui.Auth.Totp.Base32.{base32_decode}
use moxui.Auth.Totp.Code.{to_be_bytes, pad_digits, truncate, compute_totp, any_totp, verify_totp}

-- HMAC-SHA1 gives twenty bytes.
abbrev pub HasDigests : Crypto → Type 0
HasDigests c = (key message : List ℕ) → length (c.hmac_sha1 key message) ≡ 20

get_elem?-total {ℓ} :
    {A : Type ℓ} (xs : List A) (i : ℕ) → i < length xs → (a : A) × (get_elem? xs i ≡ some a)
get_elem?-total [] i h = absurd (omega arith)
get_elem?-total (x ∷ xs) zero h = (x, refl)
get_elem?-total (x ∷ xs) (suc i) h = get_elem?-total xs i (omega arith)

-- All five reads of the truncation lie within a digest of twenty bytes.
pub truncate_total :
    (result : List ℕ) → length result ≡ 20 → (code : ℕ) × (truncate result ≡ some code)
unfolding truncate
truncate_total result h =
    let (last, e) = get_elem?-total result 19 (omega arith) in
    let offset = last % 16 in
    let (b0, e0) = get_elem?-total result offset (omega arith) in
    let (b1, e1) = get_elem?-total result (offset + 1) (omega arith) in
    let (b2, e2) = get_elem?-total result (offset + 2) (omega arith) in
    let (b3, e3) = get_elem?-total result (offset + 3) (omega arith) in
    (b0 % 128 * 2 ^ 24 + b1 * 2 ^ 16 + b2 * 2 ^ 8 + b3, rw (e, e0, e1, e2, e3))

is_digit : ℕ → Bool
is_digit c = leb b'0' c && leb c b'9'

-- Six decimal digits, whatever the number.
pub IsCode : ℕ → Str → Type 0
IsCode n s = (length s ≡ n) × (all is_digit s ≡ true)

pad_digits-IsCode : (n x : ℕ) → IsCode n (pad_digits n x)
unfolding IsCode pad_digits is_digit
pad_digits-IsCode zero x = (refl, refl)
pad_digits-IsCode (suc n) x = ground (arith, pad_digits-IsCode n x)

module _ (c : Crypto) (digests : HasDigests c) where
  -- `compute_totp` never reads out of bounds, and its code consists of six decimal digits.
  pub compute_totp-IsCode :
      (secret : List ℕ) (counter : ℕ)
      → (code : Str) × (compute_totp c secret counter ≡ some code) × IsCode 6 code
  unfolding compute_totp
  compute_totp-IsCode secret counter =
      let (code, e) = truncate_total _ (digests secret (to_be_bytes 8 counter)) in
      (pad_digits 6 (code % 1000000), rw e, pad_digits-IsCode 6 _)

  -- The loop over the counters finds a code exactly when one of them has it.
  any_totp_iff :
      (secret : List ℕ) (code : Str) (lo n : ℕ)
      → (any_totp c secret code lo n ≡ some true)
        ↔ ((k : ℕ) × (lo ≤ k) × (k < lo + n) × (compute_totp c secret k ≡ some code))
  unfolding any_totp
  any_totp_iff secret code lo zero = (λ e. ground arith, λ (k, a, b, e). absurd (omega arith))
  any_totp_iff secret code lo (suc n) =
      let (t, e, _) = compute_totp-IsCode secret lo in
      let (to, from) = any_totp_iff secret code (lo + 1) n in
      elim (Bool-cases (str_eq t code)) [
        | inl h ↦
            (λ _. (lo, omega arith, omega arith, ground (arith, str_eq_iff t code)), λ _. rw (e, h))
        | inr h ↦ (
          λ x. let (k, a, b, d) = to (rw (e, h) at x) in (k, omega arith, omega arith, d),
          λ (k, a, b, d).
              let ne : k ≢ lo = λ q. ground (arith, str_eq_iff t code) in
              rw (e, h) (from (k, omega arith, omega arith, d)),
        )
      ]

  any_totp_total :
      (secret : List ℕ) (code : Str) (lo n : ℕ)
      → (b : Bool) × (any_totp c secret code lo n ≡ some b)
  unfolding any_totp
  any_totp_total secret code lo zero = (false, refl)
  any_totp_total secret code lo (suc n) =
      let (t, e, _) = compute_totp-IsCode secret lo in
      let (b, f) = any_totp_total secret code (lo + 1) n in
      (if str_eq t code then true else b, rw e (ground arith))

  -- For HMACs of twenty bytes, a secret that decodes and a 64-bit clock, `verify_totp` does not
  -- panic, and it accepts exactly the codes of the current window of 30 seconds, of the window
  -- before it and of the one after it.
  pub verify_totp_iff :
      (secret_b32 code : Str) (now : ℕ) (secret : List ℕ)
      → base32_decode secret_b32 ≡ ok secret
      → now < 2 ^ 64
      → ((b : Bool) × (verify_totp c secret_b32 code now ≡ some b))
        × ((verify_totp c secret_b32 code now ≡ some true) ↔ (
            (k : ℕ) × (now / 30 ≤ k + 1)
            × (k ≤ now / 30 + 1)
            × (compute_totp c secret k ≡ some code)))
  unfolding verify_totp
  verify_totp_iff secret_b32 code now secret e bound =
      let lo = now / 30 - 1 in
      let n = min (now / 30 + 1) (2 ^ 64 - 1) + 1 - lo in
      let window : verify_totp c secret_b32 code now ≡ any_totp c secret code lo n =
        rw (e, verify_totp) in
      let (to, from) = any_totp_iff secret code lo n in
      rw window (
        any_totp_total secret code lo n,
        (
          λ x. let (k, a, b, d) = to x in (k, omega arith, omega arith, d),
          λ (k, a, b, d). from (k, omega arith, omega arith, d),
        ),
      )
