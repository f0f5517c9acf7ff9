-- ===== src/Auth/Middleware/Guards.antt =====
-- src/auth/middleware.rs: when a guarded handler runs.
use moxui.Prelude.{
  ◌≡◌, ◌≢◌, ◌↔◌, refl, [], ◌∷◌, ◌++◌, Str, str_eq, str_eq_iff, true, Option, none, some,
  if◌then◌else◌, arith, inl, inr, Bool-cases, Option-cases, ok, err,
}
use moxui.Prelude.Results.{◌>>=◌, ok_or}
use moxui.Auth.Jwt.{Claims}
use moxui.Auth.User.{Role, can, parse_role}
use moxui.Auth.Middleware.{
  bearer_prefix, strip_prefix, extract_bearer, require_role, not_bearer, empty_token,
}

strip_prefix_iff : (p s t : Str) → (strip_prefix p s ≡ some t) ↔ (s ≡ p ++ t)
unfolding strip_prefix
strip_prefix_iff [] s t = (λ e. ground arith, λ e. ground arith)
strip_prefix_iff (b ∷ p) [] t = (λ e. ground arith, λ e. ground arith)
strip_prefix_iff (b ∷ p) (c ∷ s) t =
    (λ e. ground (arith, strip_prefix_iff p s t), λ e. ground (arith, strip_prefix_iff p s t))

take_token :
    (value text token : Str)
    → ((ok_or (strip_prefix bearer_prefix text) not_bearer >>= λ t.
          if str_eq t [] then err empty_token else ok t)
        ≡ ok token)
      ↔ ((text ≡ bearer_prefix ++ token) × (token ≢ []))
take_token value text token = elim (Option-cases (strip_prefix bearer_prefix text)) [
  | inl e ↦
      rw e (λ h. ground arith, λ (a, n). ground (arith, strip_prefix_iff bearer_prefix text token))
  | inr (t, e) ↦ rw e (
    λ h. ground (arith, strip_prefix_iff bearer_prefix text token, str_eq_iff t []),
    λ (a, n). ground (arith, strip_prefix_iff bearer_prefix text token, str_eq_iff t []),
  )
]

-- A bearer token is found exactly if the header is there, is text, and consists of "Bearer "
-- followed by the token, which is not empty.
pub extract_bearer_iff :
    (to_str : Str → Option Str) (header : Option Str) (token : Str)
    → (extract_bearer to_str header ≡ ok token) ↔ (
        (value : Str) × (text : Str) × (header ≡ some value)
        × (to_str value ≡ some text)
        × (text ≡ bearer_prefix ++ token)
        × (token ≢ []))
unfolding extract_bearer
extract_bearer_iff to_str none token = (λ e. ground arith, λ (v, t, e, r, a, n). ground arith)
extract_bearer_iff to_str (some value) token = elim (Option-cases (to_str value)) [
  | inl e ↦ rw e (λ h. ground arith, λ (v, t, a, b, c, n). ground arith)
  | inr (text, e) ↦ rw e (
    λ h. let (a, n) = (take_token value text token).0 h in (value, text, refl, e, a, n),
    λ (v, t, a, b, c, n).
        let same : text ≡ bearer_prefix ++ token = ground arith in
        (take_token value text token).1 (same, n),
  )
]

-- The role check passes exactly for a known role that may do what the required one may.
pub require_role_iff :
    (claims : Claims) (required : Role)
    → (require_role claims required ≡ ok tt)
      ↔ ((role : Role) × (parse_role claims.role ≡ some role) × (can role required ≡ true))
unfolding require_role
require_role_iff claims required = elim (Option-cases (parse_role claims.role)) [
  | inl e ↦ rw e (λ h. ground arith, λ (r, a, b). ground arith)
  | inr (role, e) ↦ elim (Bool-cases (can role required)) [
    | inl y ↦ rw (e, require_role, y) (λ h. (role, refl, y), λ (r, a, b). refl)
    | inr y ↦ rw (e, require_role, y) (λ h. ground arith, λ (r, a, b). ground arith)
  ]
]
