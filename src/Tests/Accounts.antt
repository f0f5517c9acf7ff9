-- ===== src/Tests/Accounts.antt =====
-- src/api/auth.rs: administering two accounts.
use moxui.Prelude.{[], codes, str_eq, true, none, some, ◌≡◌, refl}
use moxui.Prelude.Map
use moxui.Auth.Jwt.{Claims}
use moxui.Auth.Middleware.{require_role}
use moxui.Auth.Password.{hash_password}
use moxui.Auth.User
use moxui.Auth.User.{admin, rank, can, parse_role, authenticate}
use moxui.Api.Accounts.{CreateUserRequest, created, create_user}
use moxui.Api.Accounts.Admin.{create_user-authenticate}
use moxui.Tests.Toy.{toy, toy-HashesVerify, toy_claims, accounts}

abbrev root_claims : Claims
root_claims = record toy_claims { role = codes "admin" }

abbrev new_account : CreateUserRequest
new_account = record {
  id = codes "3";
  username = codes "eve";
  display_name = none;
  email = none;
  role = codes "Operator";
  password = codes "pw";
  enabled = true;
}

eve_created : (create_user toy accounts root_claims [] new_account).1 ≡ created (codes "eve")
unfolding create_user require_role parse_role can rank str_eq hash_password User.add_user
    Map.contains_key Map.get
eve_created = refl

create_user-authenticate_example :
    (user : User.User) × (authenticate toy
        (create_user toy accounts root_claims [] new_account).0
        (codes "eve")
        (codes "pw")
      ≡ some user)
    × (parse_role (codes "Operator") ≡ some user.role)
    × (user.id ≡ codes "3")
create_user-authenticate_example =
    create_user-authenticate toy accounts root_claims [] new_account (codes "eve") toy-HashesVerify
      eve_created refl
