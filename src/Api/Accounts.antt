-- ===== src/Api/Accounts.antt =====
-- src/api/auth.rs: the handlers of the user administration. The salt of a new password hash is an
-- argument.
pub mod Admin
use moxui.Prelude.{
  ℕ, List, [], Str, Bool, false, Option, none, some, unwrap_or, map, Result, ok, err,
}
use moxui.Prelude.Map
use moxui.Auth.Crypto.{Crypto}
use moxui.Auth.Jwt.{Claims}
use moxui.Auth.Middleware.{Refusal, require_role}
use moxui.Auth.Password.{hash_password}
use moxui.Auth.User
use moxui.Auth.User.{UserStore, UserError, admin, parse_role}
use moxui.Api.Session.{UserView, view_of}

pub record CreateUserRequest : Type 0 where
  pub id : Str
  pub username : Str
  pub display_name : Option Str
  pub email : Option Str
  pub role : Str
  pub password : Str
  pub enabled : Bool

pub record UpdateUserRequest : Type 0 where
  pub display_name : Option Str
  pub email : Option Str
  pub role : Option Str
  pub password : Option Str
  pub enabled : Option Bool

-- The responses: the refusal of the role check, and those of the handlers with their status.
pub data Reply : Type 0 where
  refused : Refusal → Reply
  hash_failed bad_request : Reply
  conflict not_found : UserError → Reply
  listed : List UserView → Reply
  created updated deleted : Str → Reply

unfoldable pub list_users : UserStore → Claims → UserStore × Reply
list_users users claims = elim (require_role claims admin) [
  | err r ↦ (users, refused r)
  | ok u ↦ (users, listed (map view_of (Map.values users.users)))
]

-- The user that `create_user` builds of a request.
unfoldable pub user_of : CreateUserRequest → Str → User.Role → User.User
user_of req hash role = record {
  id = req.id;
  username = req.username;
  display_name = unwrap_or req.display_name [];
  email = req.email;
  password_hash = hash;
  role = role;
  enabled = req.enabled;
  totp_secret = none;
  totp_enabled = false;
  backup_codes = [];
}

module _ (c : Crypto) where
  unfoldable pub create_user : UserStore → Claims → List ℕ → CreateUserRequest → UserStore × Reply
  unfolding user_of
  create_user users claims salt req = elim (require_role claims admin) [
    | err r ↦ (users, refused r)
    | ok u ↦ elim (hash_password c salt req.password) [
      | none ↦ (users, hash_failed)
      | some hash ↦ elim (parse_role req.role) [
        | none ↦ (users, bad_request)
        | some role ↦
            let (users', result) = User.add_user users (user_of req hash role) in
            elim result [ ok v ↦ (users', created req.username) | err e ↦ (users', conflict e) ]
      ]
    ]
  ]

  -- `none` where hashing the new password fails.
  unfoldable pub new_hash : List ℕ → Option Str → Option (Option Str)
  new_hash salt none = some none
  new_hash salt (some pw) = elim (hash_password c salt pw) [ none ↦ none | some h ↦ some (some h) ]

  unfoldable pub update_user :
      UserStore → Claims → List ℕ → Str → UpdateUserRequest → UserStore × Reply
  unfolding new_hash
  update_user users claims salt username req = elim (require_role claims admin) [
    | err r ↦ (users, refused r)
    | ok u ↦ elim (new_hash salt req.password) [
      | none ↦ (users, hash_failed)
      | some password_hash ↦
          let up : User.UserUpdate = record {
            display_name = req.display_name;
            email = req.email;
            role = req.role;
            password_hash = password_hash;
            enabled = req.enabled;
          } in
          let (users', result) = User.update_user users username up in
          elim result [ ok v ↦ (users', updated username) | err e ↦ (users', not_found e) ]
    ]
  ]

unfoldable pub delete_user : UserStore → Claims → Str → UserStore × Reply
delete_user users claims username = elim (require_role claims admin) [
  | err r ↦ (users, refused r)
  | ok u ↦
      let (users', result) = User.delete_user users username in
      elim result [ ok v ↦ (users', deleted username) | err e ↦ (users', not_found e) ]
]
