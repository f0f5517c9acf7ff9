-- ===== src/Auth/Totp/Base32.antt =====
-- src/auth/totp.rs: `base32_encode` and `base32_decode`. The 64-bit shift register keeps its
-- wrap-around; `buffer << k | v` is written as a sum, since the k low bits of the shift are zero
-- and `v` is below 2 ^ k.
pub mod RoundTrip
pub mod Decode
use moxui.Prelude.{
  ℕ, zero, suc, ◌+◌, ◌-◌, ◌*◌, ◌/◌, ◌%◌, ◌^◌, List, [], ◌∷◌, ◌++◌, Str, codes, Bool, ◌&&◌, Option,
  none, some, if◌then◌else◌, ◌==◌, ltb, leb, unwrap_or, get_elem?, Result, ok, err,
}
use moxui.Prelude.Results.{◌>>=◌, ok_or}

abbrev pub alphabet : Str
alphabet = codes "ABCDEFGHIJKLMNOPQRSTUVWXYZ234567"

-- `ALPHABET[idx]`; every index is masked to five bits.
unfoldable pub letter : ℕ → ℕ
letter idx = unwrap_or (get_elem? alphabet idx) 0

-- `while bits >= 5`. Each round takes five bits, so `bits` rounds of fuel are enough.
unfoldable pub flush : ℕ → ℕ → ℕ → Str × ℕ
unfolding letter
flush zero buffer bits = ([], bits)
flush (suc fuel) buffer bits =
    let rest = flush fuel buffer (bits - 5) in
    if leb 5 bits then (letter (buffer / 2 ^ (bits - 5) % 32) ∷ rest.0, rest.1) else ([], bits)

-- The loop over the bytes, and what follows it.
unfoldable pub encode_from : List ℕ → ℕ → ℕ → Str
unfolding flush letter
encode_from [] buffer bits =
    if ltb 0 bits then letter (buffer * 2 ^ (5 - bits) % 2 ^ 64 % 32) ∷ [] else []
encode_from (byte ∷ bytes) buffer bits =
    let buffer' = (buffer * 256 + byte) % 2 ^ 64 in
    let (out, bits') = flush (bits + 8) buffer' (bits + 8) in out ++ encode_from bytes buffer' bits'

unfoldable pub base32_encode : List ℕ → Str
unfolding encode_from
base32_encode bytes = encode_from bytes 0 0

abbrev pub is_ascii_lowercase : ℕ → Bool
is_ascii_lowercase c = leb b'a' c && leb c b'z'

-- `iter().position(|&a| a == c)`.
unfoldable pub position : ℕ → ℕ → Str → Option ℕ
position i c [] = none
position i c (a ∷ s) = if a == c then some i else position (i + 1) c s

unfoldable pub letter_index : ℕ → Option ℕ
letter_index ch =
    if is_ascii_lowercase ch then position 0 (ch - 32) alphabet else position 0 ch alphabet

-- "invalid base32 char", with the byte.
pub data Base32Error : Type 0 where
  invalid_char : ℕ → Base32Error

unfoldable pub decode_from : Str → ℕ → ℕ → Result (List ℕ) Base32Error
unfolding letter_index
decode_from [] buffer bits = ok []
decode_from (ch ∷ s) buffer bits = ok_or (letter_index ch) (invalid_char ch) >>= λ idx.
    let buffer' = (buffer * 32 + idx) % 2 ^ 64 in
    let bits' = bits + 5 in
    let rest = decode_from s buffer' (if leb 8 bits' then bits' - 8 else bits') in
    if leb 8 bits' then (rest >>= λ out. ok ((buffer' / 2 ^ (bits' - 8) % 256) ∷ out)) else rest

unfoldable pub base32_decode : Str → Result (List ℕ) Base32Error
unfolding decode_from
base32_decode s = decode_from s 0 0
