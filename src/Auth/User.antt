-- ===== src/Auth/User.antt =====
-- src/auth/user.rs: accounts, roles and the user store, with the two records of src/config.rs that
-- it reads and `UserStore::get_by_id` of src/api/auth.rs. Salts are arguments.
pub mod Roles
pub mod Accounts
use moxui.Prelude.{
  ℕ, ◌≤◌, List, [], ◌∷◌, Str, codes, str_eq, Bool, true, false, Option, none, some, if◌then◌else◌,
  leb, ◌&&◌, ◌+◌, map, any, length, is_some, unwrap_or, Result, ok, err,
}
use moxui.Prelude.Results.{◌>>=◌, ok_or}
use moxui.Prelude.Map
use moxui.Prelude.Map.{Map}
use moxui.Auth.Crypto.{Crypto}
use moxui.Auth.Password.{hash_password, verify_password}

pub data Role : Type 0 where
  admin operator viewer : Role

unfoldable pub rank : Role → ℕ
rank admin = 0
rank operator = 1
rank viewer = 2

-- `Role::can`.
unfoldable pub can : Role → Role → Bool
unfolding rank
can role required = leb (rank role) (rank required)

unfoldable pub as_str : Role → Str
as_str admin = codes "admin"
as_str operator = codes "operator"
as_str viewer = codes "viewer"

abbrev pub to_ascii_lowercase : ℕ → ℕ
to_ascii_lowercase c = if leb b'A' c && leb c b'Z' then c + 32 else c

unfoldable pub parse_role : Str → Option Role
parse_role s =
    let lower = map to_ascii_lowercase s in
    if str_eq lower (codes "admin")
    then some admin
    else if str_eq lower (codes "operator")
    then some operator
    else if str_eq lower (codes "viewer")
    then some viewer
    else none

pub record User : Type 0 where
  pub id : Str
  pub username : Str
  pub display_name : Str
  pub email : Option Str
  pub password_hash : Str
  pub role : Role
  pub enabled : Bool
  pub totp_secret : Option Str
  pub totp_enabled : Bool
  pub backup_codes : List Str

-- `UserConfig` of src/config.rs.
pub record UserConfig : Type 0 where
  pub id : Str
  pub username : Str
  pub display_name : Str
  pub email : Option Str
  pub role : Str
  pub password_hash : Option Str
  pub password : Option Str
  pub enabled : Bool
  pub allowed_clusters : List Str

-- The error texts, by what they say.
pub data UserError : Type 0 where
  unknown_role : Str → Str → UserError
  bcrypt_failed : UserError
  no_password : Str → UserError
  already_exists : Str → UserError
  not_found : Str → UserError
  bad_role : Str → UserError

abbrev pub password_of : Crypto → List ℕ → UserConfig → Result Str UserError
password_of c salt cfg = elim cfg.password_hash [
  | some h ↦ ok h
  | none ↦ elim cfg.password [
    | some p ↦ ok_or (hash_password c salt p) bcrypt_failed
    | none ↦ err (no_password cfg.username)
  ]
]

unfoldable pub from_config : Crypto → List ℕ → UserConfig → Result User UserError
from_config c salt cfg =
    ok_or (parse_role cfg.role) (unknown_role cfg.username cfg.role) >>= λ role.
    password_of c salt cfg >>= λ hash. ok (record {
      id = cfg.id;
      username = cfg.username;
      display_name = if str_eq cfg.display_name [] then cfg.username else cfg.display_name;
      email = cfg.email;
      password_hash = hash;
      role = role;
      enabled = cfg.enabled;
      totp_secret = none;
      totp_enabled = false;
      backup_codes = [];
    })

pub record UserStore : Type 0 where
  pub users : Map User
  pub allowed_clusters : Map (List Str)

unfoldable pub new : UserStore
new = record { users = []; allowed_clusters = [] }

-- `collect` into a map keyed by the username: a later entry takes the place of an earlier one.
unfoldable pub collect_users : Map User → List User → Map User
collect_users m [] = m
collect_users m (u ∷ us) = collect_users (Map.insert u.username u m) us

unfoldable pub with_users : List User → UserStore
unfolding collect_users new
with_users us = record new { users = collect_users new.users us }

unfoldable pub get : UserStore → Str → Option User
get s username = Map.get username s.users

unfoldable pub len : UserStore → ℕ
len s = length s.users

unfoldable pub find_id : Str → Map User → Option User
find_id id [] = none
find_id id ((_, u) ∷ rest) = if str_eq u.id id then some u else find_id id rest

unfoldable pub get_by_id : UserStore → Str → Option User
unfolding find_id
get_by_id s id = find_id id s.users

-- Each configured user with the salt that hashing its password would draw.
unfoldable pub from_each : Crypto → List (List ℕ × UserConfig) → Result (List User) UserError
from_each c [] = ok []
from_each c ((salt, cfg) ∷ rest) =
    from_config c salt cfg >>= λ u. from_each c rest >>= λ us. ok (u ∷ us)

unfoldable pub collect_clusters : Map (List Str) → List (List ℕ × UserConfig) → Map (List Str)
collect_clusters m [] = m
collect_clusters m ((_, cfg) ∷ rest) =
    collect_clusters (Map.insert cfg.username cfg.allowed_clusters m) rest

unfoldable pub from_configs : Crypto → List (List ℕ × UserConfig) → Result UserStore UserError
from_configs c configs = from_each c configs >>= λ us.
    ok (record { users = collect_users [] us; allowed_clusters = collect_clusters [] configs })

unfoldable pub authenticate : Crypto → UserStore → Str → Str → Option User
authenticate c s username password = elim (Map.get username s.users) [
  | none ↦ none
  | some user ↦
      if user.enabled
      then (if unwrap_or (verify_password c password user.password_hash) false
          then some user
          else none)
      else none
]

unfoldable pub user_can_access_cluster : UserStore → Str → Str → Bool
user_can_access_cluster s username cluster = elim (Map.get username s.allowed_clusters) [
  | none ↦ true
  | some [] ↦ true
  | some (r ∷ rs) ↦ any (λ a. str_eq a cluster) (r ∷ rs)
]

-- `user_allowed_clusters` and `user_allowed_clusters_owned`.
unfoldable pub user_allowed_clusters : UserStore → Str → Option (List Str)
user_allowed_clusters s username = Map.get username s.allowed_clusters

unfoldable pub add_user : UserStore → User → UserStore × Result (Unit {0}) UserError
add_user s user =
    if Map.contains_key user.username s.users
    then (s, err (already_exists user.username))
    else (record s { users = Map.insert user.username user s.users }, ok tt)

-- The assignments of `update_user`, in their order. `none` stands for a role that does not parse:
-- the function returns there, with the fields set so far.
pub record UserUpdate : Type 0 where
  pub display_name : Option Str
  pub email : Option Str
  pub role : Option Str
  pub password_hash : Option Str
  pub enabled : Option Bool

abbrev pub set_profile : UserUpdate → User → User
set_profile up u = record u {
  display_name = unwrap_or up.display_name u.display_name;
  email = elim up.email [ none ↦ u.email | some e ↦ some e ];
}

abbrev pub set_rest : UserUpdate → User → User
set_rest up u = record u {
  password_hash = unwrap_or up.password_hash u.password_hash;
  enabled = unwrap_or up.enabled u.enabled;
}

unfoldable pub apply_update : UserUpdate → User → User × Result (Unit {0}) UserError
apply_update up u =
    let u' = set_profile up u in
    elim up.role [
      | none ↦ (set_rest up u', ok tt)
      | some r ↦ elim (parse_role r) [
        | none ↦ (u', err (bad_role r))
        | some role ↦ (set_rest up (record u' { role = role }), ok tt)
      ]
    ]

unfoldable pub update_user : UserStore → Str → UserUpdate → UserStore × Result (Unit {0}) UserError
unfolding apply_update
update_user s username up = elim (Map.get username s.users) [
  | none ↦ (s, err (not_found username))
  | some u ↦
      let (u', result) = apply_update up u in
      (record s { users = Map.update username (λ _. u') s.users }, result)
]

unfoldable pub delete_user : UserStore → Str → UserStore × Result (Unit {0}) UserError
delete_user s username =
    if Map.contains_key username s.users
    then (
      record s {
        users = Map.remove username s.users;
        allowed_clusters = Map.remove username s.allowed_clusters;
      },
      ok tt,
    )
    else (s, err (not_found username))
