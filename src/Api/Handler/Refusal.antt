-- ===== src/Api/Handler/Refusal.antt =====
-- src/api/*.rs: what follows from a refusal of the role check.
use moxui.Prelude.{
  ℕ, codes, List, Str, some, Result, err, ◌≡◌, refl, arith, inl, inr, Option-cases, Bool-cases,
}
use moxui.Error.{AppError, forbidden}
use moxui.Auth.Jwt.{Claims}
use moxui.Auth.User
use moxui.Auth.User.{parse_role, can}
use moxui.Auth.Middleware.{Refusal, require_role, status}
use moxui.Proxmox.Call.{ProxmoxClient}
use moxui.Api.Handler.{Handler, ◌>>=◌, require_operator, lift}

abbrev pub operator_required : AppError
operator_required = forbidden (codes "operator role required")

-- Every refusal of the role check is a 403, so that the other branch is never taken.
pub require_operator_lem :
    (status_text : ℕ → Str) (claims : Claims) (refusal : Refusal)
    → require_role claims User.operator ≡ err refusal
    → require_operator status_text claims ≡ err operator_required
unfolding require_operator require_role status
require_operator_lem status_text claims refusal h = elim (Option-cases (parse_role claims.role)) [
  | inl e ↦ rw (require_operator, require_role, e) refl
  | inr (role, e) ↦ elim (Bool-cases (can role User.operator)) [
    | inl y ↦ let g = rw (require_role, e, y) at h in ground (arith, g)
    | inr y ↦ rw (require_operator, require_role, e, y) refl
  ]
]

module _ {W : Type 0} where
  -- A handler that ended with an error before it did anything.
  abbrev pub Refused : {A : Type 0} → Handler W A → AppError → Type 0
  Refused h e = (w : W) (cs : List ProxmoxClient) → h w cs ≡ (w, cs, some (err e))

  pub Refused-lift :
      {A : Type 0} (r : Result (Unit {0}) AppError) (f : Unit {0} → Handler W A) (e : AppError)
      → r ≡ err e
      → Refused (lift r >>= f) e
  unfolding ◌>>=◌ lift
  Refused-lift r f e h w cs = rw h refl
