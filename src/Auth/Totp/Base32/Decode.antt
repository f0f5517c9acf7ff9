-- ===== src/Auth/Totp/Base32/Decode.antt =====
-- src/auth/totp.rs: the lengths of both directions, and what `base32_decode` accepts.
use moxui.Prelude.{
  ℕ, zero, suc, ◌+◌, ◌-◌, ◌*◌, ◌/◌, ◌%◌, ◌^◌, ◌<◌, ◌≤◌, ◌≡◌, refl, ap, List, [], ◌∷◌, Str, true,
  false, ◌&&◌, some, if◌then◌else◌, leb, arith, Result, ok, err, length, length-append, map, inl,
  inr, Bool-cases, Option-cases,
}
use moxui.Prelude.Results.{◌>>=◌}
use moxui.Prelude.Tables.{passes_under, passes_under_lem, is_index, is_index_lem}
use moxui.Auth.Totp.Base32.{
  Base32Error, flush, encode_from, base32_encode, letter_index, position, decode_from,
  base32_decode, is_ascii_lowercase,
}

-- Enough fuel empties the register down to four bits at most.
flush_lem :
    (fuel buffer bits : ℕ)
    → bits ≤ fuel
    → (length (flush fuel buffer bits).0 ≡ bits / 5) × ((flush fuel buffer bits).1 ≡ bits % 5)
unfolding flush
flush_lem zero buffer bits h = (omega arith, omega arith)
flush_lem (suc fuel) buffer bits h = elim (Bool-cases (leb 5 bits)) [
  | inl x ↦ rw x (ground (arith, flush_lem fuel buffer (bits - 5)))
  | inr x ↦ rw x (ground arith)
]

length-encode_from :
    (bs : List ℕ) (buffer bits : ℕ)
    → bits < 5
    → length (encode_from bs buffer bits) ≡ (length bs * 8 + bits + 4) / 5
unfolding encode_from
length-encode_from [] buffer bits h = ground arith
length-encode_from (b ∷ bs) buffer bits h =
    let buffer' = (buffer * 256 + b) % 2 ^ 64 in
    let r = flush (bits + 8) buffer' (bits + 8) in
    let (out, rest) = flush_lem (bits + 8) buffer' (bits + 8) (omega arith) in
    omega (
      arith,
      length-append r.0 (encode_from bs buffer' r.1),
      out,
      rest,
      length-encode_from bs buffer' r.1 (omega arith),
    )

-- The encoding has one letter for every five bits begun.
pub length-base32_encode :
    (bytes : List ℕ) → length (base32_encode bytes) ≡ (length bytes * 8 + 4) / 5
unfolding base32_encode
length-base32_encode bytes = omega (arith, length-encode_from bytes 0 0 (omega arith))

-- The number of bytes, where there is a result.
abbrev HasLength : ℕ → Result (List ℕ) Base32Error → Type 0
HasLength n (ok out) = length out ≡ n
HasLength n (err e) = Unit {0}

HasLength-cons :
    (n : ℕ) (x : ℕ) (r : Result (List ℕ) Base32Error)
    → HasLength n r
    → HasLength (suc n) (r >>= λ out. ok (x ∷ out))
HasLength-cons n x (ok out) h = ap suc h
HasLength-cons n x (err e) h = tt

decode_from-HasLength :
    (s : Str) (buffer bits : ℕ)
    → bits < 8
    → HasLength ((length s * 5 + bits) / 8) (decode_from s buffer bits)
unfolding decode_from
decode_from-HasLength [] buffer bits h = omega arith
decode_from-HasLength (ch ∷ s) buffer bits h = elim (Option-cases (letter_index ch)) [
  | inl e ↦ rw e tt
  | inr (idx, e) ↦ elim (Bool-cases (leb 8 (bits + 5))) [
    | inl x ↦
        let rest =
          decode_from-HasLength s ((buffer * 32 + idx) % 2 ^ 64) (bits + 5 - 8) (ground arith) in
        let n : (suc (length s) * 5 + bits) / 8 ≡ suc ((length s * 5 + (bits + 5 - 8)) / 8) =
          ground arith in
        rw (e, x, n) (HasLength-cons _ _ _ rest)
    | inr x ↦
        let rest =
          decode_from-HasLength s ((buffer * 32 + idx) % 2 ^ 64) (bits + 5) (ground arith) in
        let n : (suc (length s) * 5 + bits) / 8 ≡ (length s * 5 + (bits + 5)) / 8 = ground arith in
        rw (e, x, n) rest
  ]
]

-- A text that decodes gives one byte for every eight bits completed.
pub length-base32_decode :
    (s : Str) {out : List ℕ} → base32_decode s ≡ ok out → length out ≡ length s * 5 / 8
unfolding base32_decode
length-base32_decode s e =
    let h = decode_from-HasLength s 0 0 (omega arith) in omega (arith, (rw e at h))

-- `to_ascii_lowercase`.
abbrev pub to_lower : ℕ → ℕ
to_lower c = if leb b'A' c && leb c b'Z' then c + 32 else c

letter_index-lower : (c : ℕ) → 65 ≤ c → c ≤ 90 → letter_index (c + 32) ≡ letter_index c
unfolding letter_index
letter_index-lower c a b =
    let e : c + 32 - 32 ≡ c = omega arith in
    let low : is_ascii_lowercase (c + 32) ≡ true = ground arith in
    let up : is_ascii_lowercase c ≡ false = ground arith in rw (low, up, e)

letter_table : passes_under (λ x. is_index x (letter_index (x + 65))) 26 ≡ true
unfolding passes_under is_index letter_index position
letter_table = refl

-- Every capital letter stands in the alphabet, at its place.
letter_index_capital : (c : ℕ) → 65 ≤ c → c ≤ 90 → letter_index c ≡ some (c - 65)
letter_index_capital c a b =
    let e : c - 65 + 65 ≡ c = omega arith in
    is_index_lem (c - 65) (letter_index c) (
      rw e at (
        passes_under_lem (λ x. is_index x (letter_index (x + 65))) 26 letter_table (c - 65)
          (omega arith)))

decode_from-lower :
    (s : Str) (buffer bits : ℕ)
    → decode_from (map to_lower s) buffer bits ≡ decode_from s buffer bits
unfolding decode_from
decode_from-lower [] buffer bits = refl
decode_from-lower (c ∷ s) buffer bits = elim (Bool-cases (leb b'A' c && leb c b'Z')) [
  | inl h ↦
      let a : 65 ≤ c = ground arith in
      let b : c ≤ 90 = ground arith in
      rw (
        h,
        letter_index-lower c a b,
        letter_index_capital c a b,
        decode_from-lower s ((buffer * 32 + (c - 65)) % 2 ^ 64)
            (if leb 8 (bits + 5) then bits + 5 - 8 else bits + 5),
      )
  | inr h ↦ elim (Option-cases (letter_index c)) [
    | inl e ↦ rw (h, e)
    | inr (idx, e) ↦ rw (
      h,
      e,
      decode_from-lower s ((buffer * 32 + idx) % 2 ^ 64)
          (if leb 8 (bits + 5) then bits + 5 - 8 else bits + 5),
    )
  ]
]

-- `base32_decode` does not tell small letters from capitals.
pub base32_decode-lower : (s : Str) → base32_decode (map to_lower s) ≡ base32_decode s
unfolding base32_decode
base32_decode-lower s = decode_from-lower s 0 0
