-- ===== src/Auth/Totp/Url/Laws.antt =====
-- src/auth/totp.rs: what `url_encode` may write, and that nothing is lost.
use moxui.Prelude.{
  ℕ, ◌+◌, ◌-◌, ◌*◌, ◌/◌, ◌%◌, ◌<◌, ◌≡◌, ◌≢◌, refl, ap, sym, ◌∙◌, ==_iff, [], ◌∷◌, Str, true, false,
  ◌||◌, if◌then◌else◌, ◌==◌, ltb, arith, inl, inr, Bool-cases, all,
}
use moxui.Prelude.Text.{AreBytes}
use moxui.Prelude.Tables.{passes_under, passes_under_lem}
use moxui.Auth.Totp.Url.{is_plain, hex_digit, url_encode}

-- Percent-decoding as a reader of the URI does it.
pub hex_value : ℕ → ℕ
hex_value d = if ltb d 58 then d - 48 else d - 55

pub percent_decode : Str → Str
percent_decode [] = []
percent_decode (b ∷ []) = b ∷ []
percent_decode (b ∷ h ∷ []) = b ∷ h ∷ []
percent_decode (b ∷ h ∷ l ∷ s) = elim (b == b'%') [
  | true ↦ (hex_value h * 16 + hex_value l) ∷ percent_decode s
  | false ↦ b ∷ percent_decode (h ∷ l ∷ s)
]

percent_decode_nil : percent_decode [] ≡ []
unfolding percent_decode
percent_decode_nil = refl

percent_decode-plain : (b : ℕ) (s : Str) → b ≢ 37 → percent_decode (b ∷ s) ≡ b ∷ percent_decode s
unfolding percent_decode
percent_decode-plain b [] ne = refl
percent_decode-plain b (h ∷ []) ne = refl
percent_decode-plain b (h ∷ l ∷ s) ne = ground arith

is_plain_ne : (b : ℕ) → is_plain b ≡ true → b ≢ 37
unfolding is_plain
is_plain_ne b p = ground arith

percent_decode-pair :
    (h l : ℕ) (s : Str)
    → percent_decode (37 ∷ h ∷ l ∷ s) ≡ (hex_value h * 16 + hex_value l) ∷ percent_decode s
unfolding percent_decode
percent_decode-pair h l s = refl

hex_value-digit : (d : ℕ) → d < 16 → hex_value (hex_digit d) ≡ d
unfolding hex_value hex_digit
hex_value-digit d h = ground arith

blank_value : hex_value 50 * 16 + hex_value 48 ≡ 32
unfolding hex_value
blank_value = refl

-- Percent-decoding the encoding of a text of bytes gives the text back, so no two such texts are
-- encoded alike.
pub percent_decode-url_encode : (s : Str) → AreBytes s → percent_decode (url_encode s) ≡ s
unfolding url_encode
percent_decode-url_encode [] h = percent_decode_nil
percent_decode-url_encode (b ∷ s) h = elim (Bool-cases (is_plain b)) [
  | inl p ↦
      let ne : b ≢ 37 = is_plain_ne b p in
      rw (p, percent_decode-plain b (url_encode s) ne, percent_decode-url_encode s h.1)
  | inr p ↦ elim (Bool-cases (b == b' ')) [
    | inl q ↦
        rw (p, q, percent_decode-pair 50 48 (url_encode s), percent_decode-url_encode s h.1)
          (ap (λ d. d ∷ s) (blank_value ∙ sym ((==_iff b 32).0 q)))
    | inr q ↦
        rw
          (
            p,
            q,
            percent_decode-pair (hex_digit (b / 16)) (hex_digit (b % 16)) (url_encode s),
            percent_decode-url_encode s h.1,
            hex_value-digit (b / 16) (omega arith),
            hex_value-digit (b % 16) (omega arith),
          )
          (ap (λ d. d ∷ s) (omega arith))
  ]
]

digit_table : passes_under (λ d. is_plain (hex_digit d)) 16 ≡ true
unfolding passes_under is_plain hex_digit
digit_table = refl

hex_digit_plain : (d : ℕ) → d < 16 → is_plain (hex_digit d) ≡ true
hex_digit_plain d h = passes_under_lem (λ x. is_plain (hex_digit x)) 16 digit_table d h

blank_plain : (is_plain b'2' ≡ true) × (is_plain b'0' ≡ true)
unfolding is_plain
blank_plain = (refl, refl)

-- An encoded text holds no byte but the plain ones and '%': none that separates the parts of a URI.
pub url_encode_safe :
    (s : Str) → AreBytes s → all (λ b. is_plain b || b == b'%') (url_encode s) ≡ true
unfolding url_encode
url_encode_safe [] h = refl
url_encode_safe (b ∷ s) h =
    ground (
      arith,
      url_encode_safe s h.1,
      blank_plain,
      hex_digit_plain (b / 16),
      hex_digit_plain (b % 16),
    )
