-- ===== src/Auth/Totp/Url.antt =====
-- src/auth/totp.rs: `url_encode` and `totp_url`.
pub mod Laws
use moxui.Prelude.{
  ℕ, ◌+◌, ◌-◌, ◌*◌, ◌/◌, ◌%◌, ◌<◌, ◌≡◌, refl, List, [], ◌∷◌, ◌++◌, Str, codes, Bool, true, false,
  ◌&&◌, ◌||◌, Option, none, some, if◌then◌else◌, ◌==◌, ltb, leb, arith, inl, inr, Bool-cases,
}

-- The bytes that stand for themselves.
unfoldable pub is_plain : ℕ → Bool
is_plain b =
    (leb b'A' b && leb b b'Z')
    || (leb b'a' b && leb b b'z')
    || (leb b'0' b && leb b b'9')
    || b == b'-'
    || b == b'.'
    || b == b'_'
    || b == b'~'
    || b == b':'

-- A digit of `{:02X}`.
unfoldable pub hex_digit : ℕ → ℕ
hex_digit d = if ltb d 10 then 48 + d else 55 + d

unfoldable pub url_encode : Str → Str
url_encode [] = []
url_encode (b ∷ s) =
    if is_plain b
    then b ∷ url_encode s
    else if b == b' '
    then codes "%20" ++ url_encode s
    else b'%' ∷ hex_digit (b / 16) ∷ hex_digit (b % 16) ∷ url_encode s

unfoldable pub totp_url : Str → Str → Str → Str
unfolding url_encode is_plain hex_digit
totp_url issuer username secret =
    let label = issuer ++ codes ":" ++ username in
    codes "otpauth://totp/"
    ++ url_encode label
    ++ codes "?secret="
    ++ url_encode secret
    ++ codes "&issuer="
    ++ url_encode issuer
    ++ codes "&algorithm=SHA1&digits=6&period=30"
