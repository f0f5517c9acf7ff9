-- ===== src/Auth/User/Accounts.antt =====
-- src/auth/user.rs: the store's operations on each branch, and what they keep.
use moxui.Prelude.{
  ◌≡◌, ◌≢◌, ◌↔◌, refl, sym, ap, Bool-cases, inl, inr, ◌∙◌, ◌&&◌, List, [], ◌∷◌, Str, str_eq,
  str_eq_iff, true, false, Option, none, some, if◌then◌else◌, arith, inl, inr, Option-cases,
  is_some, unwrap_or, ok, err,
}
use moxui.Prelude.Map
use moxui.Prelude.Map.{Map, get-insert, get-remove, get-update}
use moxui.Auth.Crypto.{Crypto}
use moxui.Auth.Password.{verify_password}
use moxui.Auth.User.{
  User, UserStore, UserUpdate, bad_role, set_profile, apply_update, collect_users, with_users, get,
  add_user, update_user, delete_user, authenticate, parse_role,
}

-- The last of the users with a name, if `first` stands before them.
unfoldable pub last_named : Str → Option User → List User → Option User
last_named k first [] = first
last_named k first (u ∷ us) = last_named k (if str_eq u.username k then some u else first) us

get-collect_users :
    (k : Str) (m : Map User) (us : List User)
    → Map.get k (collect_users m us) ≡ last_named k (Map.get k m) us
unfolding collect_users last_named
get-collect_users k m [] = refl
get-collect_users k m (u ∷ us) =
    rw (get-collect_users k (Map.insert u.username u m) us, get-insert) refl

-- Of several users with one name `with_users` keeps the last.
pub get-with_users : (k : Str) (us : List User) → get (with_users us) k ≡ last_named k none us
unfolding get with_users Map.get
get-with_users k us = get-collect_users k [] us

-- Adding a user succeeds exactly if the name is free. Then that user is found under the name and
-- all others are found as before; otherwise every name is looked up as before.
pub add_user_lem :
    (s : UserStore) (user : User) (k : Str)
    → (((add_user s user).1 ≡ ok tt) ↔ (get s user.username ≡ none))
      × (get (add_user s user).0 k ≡ (
          if is_some (get s user.username)
          then get s k
          else if str_eq user.username k
          then some user
          else get s k))
unfolding add_user get Map.contains_key
add_user_lem s user k = ground (arith, get-insert user.username k user s.users)

-- What an update makes of a lookup: the named user is updated as far as `apply_update` gets, and
-- every other user stays.
pub get-update_user :
    (s : UserStore) (username : Str) (up : UserUpdate) (k : Str)
    → get (update_user s username up).0 k ≡ (
        if str_eq username k
        then elim (get s k) [ none ↦ none | some u ↦ some (apply_update up u).0 ]
        else get s k)
unfolding get update_user
get-update_user s username up k = elim (Option-cases (Map.get username s.users)) [
  | inl e ↦ rw (e, update_user) (ground (arith, e, str_eq_iff username k))
  | inr (u, e) ↦
      rw (e, update_user)
        (ground (
          arith,
          e,
          str_eq_iff username k,
          get-update username k (λ (w : User). (apply_update up u).0) s.users,
        ))
]

apply_update_bad_role :
    (up : UserUpdate) (u : User) (r : Str)
    → up.role ≡ some r
    → parse_role r ≡ none
    → apply_update up u ≡ (set_profile up u, err (bad_role r))
unfolding apply_update
apply_update_bad_role up u r f g = ground (arith, f, g)

update_user_result :
    (s : UserStore) (username : Str) (up : UserUpdate) (u : User)
    → get s username ≡ some u
    → (update_user s username up).1 ≡ (apply_update up u).1
unfolding get update_user
update_user_result s username up u e = rw (e, update_user)

-- An update of a stored user that names a role which does not parse reports the error, and yet it
-- has changed the display name and the e-mail of the user, in so far as it gives them; every other
-- user is found as before.
pub update_user_bad_role :
    (s : UserStore) (username : Str) (up : UserUpdate) (u : User) (r : Str)
    → get s username ≡ some u
    → up.role ≡ some r
    → parse_role r ≡ none
    → ((update_user s username up).1 ≡ err (bad_role r))
      × ((k : Str)
          → get (update_user s username up).0 k
            ≡ (if str_eq username k then some (set_profile up u) else get s k))
update_user_bad_role s username up u r e f g = (
  update_user_result s username up u e ∙ ap (λ p. p.1) (apply_update_bad_role up u r f g),
  λ k. elim (Bool-cases (str_eq username k)) [
    | inl y ↦
        rw (get-update_user, y)
          (rw (sym ((str_eq_iff username k).0 y), e)
            (ap (λ p. some p.0) (apply_update_bad_role up u r f g)))
    | inr n ↦ rw (get-update_user, n) refl
  ],
)

-- `authenticate` answers with a user exactly if that user is stored under the name, is enabled, and
-- bcrypt accepts the password for the stored hash.
pub authenticate_sound :
    (c : Crypto) (s : UserStore) (username password : Str) (u : User)
    → (authenticate c s username password ≡ some u) ↔ (
        (get s username ≡ some u)
        × (u.enabled ≡ true)
        × (unwrap_or (verify_password c password u.password_hash) false ≡ true))
unfolding authenticate get
authenticate_sound c s username password u = elim (Option-cases (Map.get username s.users)) [
  | inl e ↦ ground (arith, e)
  | inr (w, e) ↦ rw (e, authenticate) (ground arith)
]

-- Deleting a user succeeds exactly if the name is taken. Then neither the user nor a restriction to
-- clusters is found under the name, and those of all other names are found as before; otherwise
-- users and restrictions are found as before under every name.
pub delete_user_lem :
    (s : UserStore) (username k : Str)
    → (((delete_user s username).1 ≡ ok tt) ↔ (get s username ≢ none))
      × (get (delete_user s username).0 k ≡ (if str_eq username k then none else get s k))
      × (Map.get k (delete_user s username).0.allowed_clusters ≡ (
          if is_some (get s username) && str_eq username k
          then none
          else Map.get k s.allowed_clusters))
unfolding delete_user get Map.contains_key
delete_user_lem s username k = ground (
  arith,
  str_eq_iff username k,
  get-remove username k s.users,
  get-remove username k s.allowed_clusters,
)
