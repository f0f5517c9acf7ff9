-- ===== src/Api/Accounts/Admin.antt =====
-- src/api/auth.rs: who may administer the users, and what the handlers do to a login.
use moxui.Prelude.{
  ℕ, ◌≡◌, refl, ◌∙◌, List, Str, str_eq_refl, true, none, some, arith, inl, inr, Option-cases, ok,
  err,
}
use moxui.Prelude.Results.{Result-cases}
use moxui.Auth.Crypto.{Crypto}
use moxui.Auth.Jwt.{Claims}
use moxui.Auth.Middleware.{Refusal, require_role}
use moxui.Auth.Password.{hash_password, verify_password}
use moxui.Auth.Totp.Backup.{HashesVerify}
use moxui.Auth.User
use moxui.Auth.User.{UserStore, admin, parse_role, authenticate}
use moxui.Auth.User.Accounts.{add_user_lem, delete_user_lem, authenticate_sound}
use moxui.Api.Accounts.{
  CreateUserRequest, UpdateUserRequest, refused, created, deleted, list_users, user_of, create_user,
  update_user, delete_user,
}

-- A request that the role check refuses is answered with the refusal by each of the four handlers,
-- and changes no account.
pub only_admins :
    (c : Crypto) (users : UserStore) (claims : Claims) (salt : List ℕ) (r : Refusal)
    (username : Str) (create : CreateUserRequest) (update : UpdateUserRequest)
    → require_role claims admin ≡ err r
    → (list_users users claims ≡ (users, refused r))
      × (create_user c users claims salt create ≡ (users, refused r))
      × (update_user c users claims salt username update ≡ (users, refused r))
      × (delete_user users claims username ≡ (users, refused r))
unfolding list_users create_user update_user delete_user
only_admins c users claims salt r username create update h = (
  rw (list_users, h) refl,
  rw (create_user, h) refl,
  rw (update_user, h) refl,
  rw (delete_user, h) refl,
)

-- A user that was added is found and accepted.
added :
    (c : Crypto) (users : UserStore) (req : CreateUserRequest) (hash : Str) (role : User.Role)
    → req.enabled ≡ true
    → (User.add_user users (user_of req hash role)).1 ≡ ok tt
    → verify_password c req.password hash ≡ some true
    → authenticate c (User.add_user users (user_of req hash role)).0 req.username req.password
      ≡ some (user_of req hash role)
unfolding user_of
added c users req hash role on k v =
    let (free, found) = add_user_lem users (user_of req hash role) req.username in
    (authenticate_sound c (User.add_user users (user_of req hash role)).0 req.username req.password
        (user_of req hash role)).1
      (found ∙ ground (arith, free.0 k, str_eq_refl req.username), on, rw v refl)

-- A user that was created enabled logs in with the password of the request, if bcrypt accepts what
-- it hashed.
pub create_user-authenticate :
    (c : Crypto) (users : UserStore) (claims : Claims) (salt : List ℕ) (req : CreateUserRequest)
    (username : Str)
    → HashesVerify c
    → (create_user c users claims salt req).1 ≡ created username
    → req.enabled ≡ true
    → (user : User.User) × (authenticate c
          (create_user c users claims salt req).0
          req.username
          req.password
        ≡ some user)
      × (parse_role req.role ≡ some user.role)
      × (user.id ≡ req.id)
unfolding create_user user_of
create_user-authenticate c users claims salt req username v h on =
    elim (Result-cases (require_role claims admin)) [
      | inr (r, e) ↦ let n = rw (create_user, e) at h in ground (arith, n)
      | inl (u, e) ↦ elim (Option-cases (hash_password c salt req.password)) [
        | inl f ↦ let n = rw (create_user, e, f) at h in ground (arith, n)
        | inr (hash, f) ↦ elim (Option-cases (parse_role req.role)) [
          | inl g ↦ let n = rw (create_user, e, f, g) at h in ground (arith, n)
          | inr (role, g) ↦ elim (Result-cases (User.add_user users (user_of req hash role)).1) [
            | inr (r, k) ↦ let n = rw (create_user, e, f, g, k) at h in ground (arith, n)
            | inl (w, k) ↦ (
              user_of req hash role,
              rw (create_user, e, f, g, k)
                  (added c users req hash role on k (v salt req.password hash f)),
              g,
              refl,
            )
          ]
        ]
      ]
    ]

gone :
    (c : Crypto) (users : UserStore) (username password : Str)
    → authenticate c (User.delete_user users username).0 username password ≡ none
gone c users username password =
    elim (Option-cases (authenticate c (User.delete_user users username).0 username password)) [
      | inl e ↦ e
      | inr (u, e) ↦ ground (
        arith,
        (authenticate_sound c (User.delete_user users username).0 username password u).0 e,
        (delete_user_lem users username username).1,
        str_eq_refl username,
      )
    ]

-- After a deletion that was answered as done nobody logs in under the name, whatever the password.
pub delete_user-authenticate :
    (c : Crypto) (users : UserStore) (claims : Claims) (username name password : Str)
    → (delete_user users claims username).1 ≡ deleted name
    → authenticate c (delete_user users claims username).0 username password ≡ none
unfolding delete_user
delete_user-authenticate c users claims username name password h =
    elim (Result-cases (require_role claims admin)) [
      | inr (r, e) ↦ let n = rw (delete_user, e) at h in ground (arith, n)
      | inl (u, e) ↦ elim (Result-cases (User.delete_user users username).1) [
        | inr (r, f) ↦ let n = rw (delete_user, e, f) at h in ground (arith, n)
        | inl (v, f) ↦ rw (delete_user, e, f) (gone c users username password)
      ]
    ]
