-- ===== src/Auth/User/Roles.antt =====
-- src/auth/user.rs: the order of the roles, and their names.
use moxui.Prelude.{◌≡◌, ◌↔◌, Str, codes, str_eq_iff, Bool, true, some, map, arith, ◌⊎◌}
use moxui.Auth.User.{Role, admin, operator, viewer, can, as_str, to_ascii_lowercase, parse_role}

-- "At least as privileged as" orders the roles linearly, with `admin` above and `viewer` below all.
pub record IsRoleOrder (le : Role → Role → Bool) : Type 0 where
  pub reflexive : (r : Role) → le r r ≡ true
  pub transitive : (q r s : Role) → le q r ≡ true → le r s ≡ true → le q s ≡ true
  pub antisymmetric : (q r : Role) → le q r ≡ true → le r q ≡ true → q ≡ r
  pub total : (q r : Role) → (le q r ≡ true) ⊎ (le r q ≡ true)
  pub top : (r : Role) → le admin r ≡ true
  pub bottom : (r : Role) → le r viewer ≡ true

-- `can` is such an order.
pub can-IsRoleOrder : IsRoleOrder can
unfolding can
can-IsRoleOrder = record {
  reflexive = λ r. ground arith;
  transitive = λ q r s h k. ground arith;
  antisymmetric = λ q r h k. ground arith;
  total = λ q r. ground arith;
  top = λ r. ground arith;
  bottom = λ r. ground arith;
}

-- A text parses to a role exactly if it is that role's name in some mixture of small and capital
-- letters.
pub parse_role_iff :
    (s : Str) (r : Role) → (parse_role s ≡ some r) ↔ (map to_ascii_lowercase s ≡ as_str r)
unfolding parse_role as_str
parse_role_iff s admin = ground (
  arith,
  str_eq_iff (map to_ascii_lowercase s) (codes "admin"),
  str_eq_iff (map to_ascii_lowercase s) (codes "operator"),
  str_eq_iff (map to_ascii_lowercase s) (codes "viewer"),
)
parse_role_iff s operator = ground (
  arith,
  str_eq_iff (map to_ascii_lowercase s) (codes "admin"),
  str_eq_iff (map to_ascii_lowercase s) (codes "operator"),
  str_eq_iff (map to_ascii_lowercase s) (codes "viewer"),
)
parse_role_iff s viewer = ground (
  arith,
  str_eq_iff (map to_ascii_lowercase s) (codes "admin"),
  str_eq_iff (map to_ascii_lowercase s) (codes "operator"),
  str_eq_iff (map to_ascii_lowercase s) (codes "viewer"),
)
