-- ===== src/Auth/Middleware.antt =====
-- src/auth/middleware.rs: the checks in front of the protected handlers. A request is given by its
-- `Authorization` header and its path; `next` stands for the rest of the stack.
pub mod Guards
pub mod Paths
pub mod Stack
use moxui.Prelude.{
  ℕ, List, [], ◌∷◌, ◌++◌, Str, codes, str_eq, Bool, true, false, not, ◌&&◌, Option, none, some,
  if◌then◌else◌, ◌==◌, keep_if, Result, ok, err,
}
use moxui.Prelude.Int.{ℤ}
use moxui.Prelude.Results.{◌>>=◌, ok_or}
use moxui.Auth.Jwt.{Claims, JwtService}
use moxui.Auth.User.{Role, can, parse_role, UserStore, user_can_access_cluster}

-- The answers of the checks that refuse, by status and text.
pub data Refusal : Type 0 where
  missing_header malformed_header not_bearer empty_token invalid_token : Refusal
  no_auth_context no_cluster : Refusal
  cluster_denied : Str → Refusal
  insufficient_role unknown_role : Refusal

unfoldable pub status : Refusal → ℕ
status no_cluster = 400
status (cluster_denied cluster) = 403
status insufficient_role = 403
status unknown_role = 403
status other = 401

-- `str::strip_prefix`.
unfoldable pub strip_prefix : Str → Str → Option Str
strip_prefix [] s = some s
strip_prefix (p ∷ ps) [] = none
strip_prefix (p ∷ ps) (c ∷ s) = if p == c then strip_prefix ps s else none

abbrev pub bearer_prefix : Str
bearer_prefix = codes "Bearer "

-- `to_str` of the `http` crate fails on bytes that are no visible ASCII.
unfoldable pub extract_bearer : (Str → Option Str) → Option Str → Result Str Refusal
unfolding strip_prefix
extract_bearer to_str header = ok_or header missing_header >>= λ value.
    ok_or (to_str value) malformed_header >>= λ text.
    ok_or (strip_prefix bearer_prefix text) not_bearer >>= λ token.
    if str_eq token [] then err empty_token else ok token

-- The rest of the stack runs with the claims in the request.
unfoldable pub require_auth {ℓ} :
    {Response : Type ℓ}
    → JwtService
    → ℤ
    → (Str → Option Str)
    → Option Str
    → (Refusal → Response)
    → (Claims → Response)
    → Response
unfolding extract_bearer
require_auth jwt now to_str header refuse next = elim (extract_bearer to_str header) [
  | err r ↦ refuse r
  | ok token ↦ elim (jwt.decode now token) [
    | none ↦ refuse invalid_token
    | some claims ↦ next claims
  ]
]

-- `path.split('/')`.
unfoldable pub split_slash : Str → List Str
split_slash [] = [] ∷ []
split_slash (c ∷ s) =
    let rest = split_slash s in
    if c == b'/'
    then [] ∷ rest
    else elim rest [ [] ↦ (c ∷ []) ∷ [] | seg ∷ segs ↦ (c ∷ seg) ∷ segs ]

abbrev pub is_empty : Str → Bool
is_empty [] = true
is_empty (c ∷ s) = false

abbrev pub fourth : List Str → Option Str
fourth (a ∷ b ∷ resource ∷ cluster ∷ rest) =
    if str_eq a (codes "api") && str_eq b (codes "v1") then some cluster else none
fourth segments = none

unfoldable pub extract_cluster_from_path : Str → Option Str
unfolding split_slash
extract_cluster_from_path path = fourth (keep_if (λ s. not (is_empty s)) (split_slash path))

unfoldable pub require_cluster_access {ℓ} :
    {Response : Type ℓ}
    → UserStore
    → Option Claims
    → Str
    → (Refusal → Response)
    → Response
    → Response
unfolding extract_cluster_from_path
require_cluster_access users claims path refuse next = elim claims [
  | none ↦ refuse no_auth_context
  | some c ↦ elim (extract_cluster_from_path path) [
    | none ↦ refuse no_cluster
    | some cluster ↦
        if user_can_access_cluster users c.username cluster
        then next
        else refuse (cluster_denied cluster)
  ]
]

unfoldable pub require_role : Claims → Role → Result (Unit {0}) Refusal
require_role claims required = elim (parse_role claims.role) [
  | none ↦ err unknown_role
  | some role ↦ if can role required then ok tt else err insufficient_role
]
