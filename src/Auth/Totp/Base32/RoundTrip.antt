-- ===== src/Auth/Totp/Base32/RoundTrip.antt =====
-- src/auth/totp.rs: decoding what `base32_encode` wrote gives the bytes back.
use moxui.Prelude.{
  ℕ, ◌+◌, ◌-◌, ◌*◌, ◌/◌, ◌%◌, ◌^◌, ◌<◌, ◌≡◌, refl, List, [], ◌∷◌, ◌++◌, Str, true, some,
  if◌then◌else◌, leb, arith, ok,
}
use moxui.Prelude.Text.{AreBytes}
use moxui.Prelude.Results.{◌>>=◌}
use moxui.Prelude.Tables.{passes_under, passes_under_lem, is_index, is_index_lem}
use moxui.Auth.Totp.Base32.{
  letter, flush, encode_from, base32_encode, letter_index, position, decode_from, base32_decode,
}

letter_table : passes_under (λ x. is_index x (letter_index (letter x))) 32 ≡ true
unfolding passes_under is_index letter_index position letter
letter_table = refl

-- The decoder finds each letter of the alphabet at its place.
pub letter_index-letter : (x : ℕ) → x < 32 → letter_index (letter x) ≡ some x
letter_index-letter x h =
    is_index_lem x _
      (passes_under_lem (λ y. is_index y (letter_index (letter y))) 32 letter_table x h)

-- The encoder is between two bytes in one of five phases, named for the bits it still holds.
data Phase : Type 0 where
  holds0 holds3 holds1 holds4 holds2 : Phase

-- The bits that the encoder holds, and those that the decoder holds then.
abbrev held : Phase → ℕ
held holds0 = 0
held holds3 = 3
held holds1 = 1
held holds4 = 4
held holds2 = 2

abbrev pending : Phase → ℕ
pending holds0 = 0
pending holds3 = 5
pending holds1 = 7
pending holds4 = 4
pending holds2 = 6

-- The byte that stands half in the decoder's register and half in the encoder's.
abbrev owed : Phase → ℕ → ℕ → List ℕ
owed holds0 e d = []
owed holds3 e d = (d % 32 * 8 + e % 8) ∷ []
owed holds1 e d = (d % 128 * 2 + e % 2) ∷ []
owed holds4 e d = (d % 16 * 16 + e % 16) ∷ []
owed holds2 e d = (d % 64 * 4 + e % 4) ∷ []

-- One letter of the encoder, read by the decoder.
decode_letter :
    (x : ℕ) (s : Str) (d m : ℕ)
    → x < 32
    → decode_from (letter x ∷ s) d m ≡ (
        let rest =
          decode_from s ((d * 32 + x) % 2 ^ 64) (if leb 8 (m + 5) then m + 5 - 8 else m + 5) in
        if leb 8 (m + 5)
        then (rest >>= λ out. ok (((d * 32 + x) % 2 ^ 64 / 2 ^ (m + 5 - 8) % 256) ∷ out))
        else rest)
unfolding decode_from
decode_letter x s d m h = rw (letter_index-letter x h)

decode_nil : (d m : ℕ) → decode_from [] d m ≡ ok []
unfolding decode_from
decode_nil d m = refl

-- From any phase the decoder completes the byte that is owed and then reads the rest.
decode-encode :
    (bs : List ℕ) (p : Phase) (e d : ℕ)
    → AreBytes bs
    → decode_from (encode_from bs e (held p)) d (pending p) ≡ ok (owed p e d ++ bs)
unfolding encode_from flush
decode-encode [] holds0 e d h = decode_nil d 0
decode-encode [] holds3 e d h =
    rw (decode_letter (e * 4 % 2 ^ 64 % 32) [] d 5 (omega arith), decode_nil) (ground arith)
decode-encode [] holds1 e d h =
    rw (decode_letter (e * 16 % 2 ^ 64 % 32) [] d 7 (omega arith), decode_nil) (ground arith)
decode-encode [] holds4 e d h =
    rw (decode_letter (e * 2 % 2 ^ 64 % 32) [] d 4 (omega arith), decode_nil) (ground arith)
decode-encode [] holds2 e d h =
    rw (decode_letter (e * 8 % 2 ^ 64 % 32) [] d 6 (omega arith), decode_nil) (ground arith)
decode-encode (b ∷ bs) holds0 e d h =
    let e' = (e * 256 + b) % 2 ^ 64 in
    let d' = (d * 32 + e' / 8 % 32) % 2 ^ 64 in
    rw
      (
        decode_letter (e' / 8 % 32) (encode_from bs e' 3) d 0 (omega arith),
        decode-encode bs holds3 e' d' h.1,
      )
      (ground arith)
decode-encode (b ∷ bs) holds3 e d h =
    let e' = (e * 256 + b) % 2 ^ 64 in
    let d' = (d * 32 + e' / 64 % 32) % 2 ^ 64 in
    let d'' = (d' * 32 + e' / 2 % 32) % 2 ^ 64 in
    rw
      (
        decode_letter (e' / 64 % 32) (letter (e' / 2 % 32) ∷ encode_from bs e' 1) d 5 (omega arith),
        decode_letter (e' / 2 % 32) (encode_from bs e' 1) d' 2 (omega arith),
        decode-encode bs holds1 e' d'' h.1,
      )
      (ground arith)
decode-encode (b ∷ bs) holds1 e d h =
    let e' = (e * 256 + b) % 2 ^ 64 in
    let d' = (d * 32 + e' / 16 % 32) % 2 ^ 64 in
    rw
      (
        decode_letter (e' / 16 % 32) (encode_from bs e' 4) d 7 (omega arith),
        decode-encode bs holds4 e' d' h.1,
      )
      (ground arith)
decode-encode (b ∷ bs) holds4 e d h =
    let e' = (e * 256 + b) % 2 ^ 64 in
    let d' = (d * 32 + e' / 128 % 32) % 2 ^ 64 in
    let d'' = (d' * 32 + e' / 4 % 32) % 2 ^ 64 in
    rw
      (
        decode_letter (e' / 128 % 32) (letter (e' / 4 % 32) ∷ encode_from bs e' 2) d 4
            (omega arith),
        decode_letter (e' / 4 % 32) (encode_from bs e' 2) d' 1 (omega arith),
        decode-encode bs holds2 e' d'' h.1,
      )
      (ground arith)
decode-encode (b ∷ bs) holds2 e d h =
    let e' = (e * 256 + b) % 2 ^ 64 in
    let d' = (d * 32 + e' / 32 % 32) % 2 ^ 64 in
    let d'' = (d' * 32 + e' / 1 % 32) % 2 ^ 64 in
    rw
      (
        decode_letter (e' / 32 % 32) (letter (e' / 1 % 32) ∷ encode_from bs e' 0) d 6 (omega arith),
        decode_letter (e' / 1 % 32) (encode_from bs e' 0) d' 3 (omega arith),
        decode-encode bs holds0 e' d'' h.1,
      )
      (ground arith)

-- Decoding the encoding of any bytes gives the bytes back.
pub base32_decode-encode :
    (bytes : List ℕ) → AreBytes bytes → base32_decode (base32_encode bytes) ≡ ok bytes
unfolding base32_decode base32_encode
base32_decode-encode bytes h = decode-encode bytes holds0 0 0 h
