-- ===== src/Api/SingleSignOn.antt =====
-- src/api/auth.rs: the logins through a provider and through the directory. A login ends as the one
-- with a password does.
pub mod DirectoryLogin
use moxui.Prelude.{
  ℕ, List, [], ◌∷◌, ◌++◌, Str, codes, str_eq, Bool, true, false, not, ◌||◌, Option, none, some,
  is_some, if◌then◌else◌, unwrap_or, Result, ok, err,
}
use moxui.Prelude.Int.{ℤ}
use moxui.Prelude.Map
use moxui.Prelude.Map.{Map}
use moxui.Auth.Crypto.{Crypto}
use moxui.Auth.Jwt.{JwtService}
use moxui.Auth.User
use moxui.Auth.User.{Role, User, viewer, add_user}
use moxui.Auth.Oidc
use moxui.Auth.Oidc.{OidcService, OidcUserInfo, PendingOidcState, CallbackError, Drawn}
use moxui.Auth.Ldap
use moxui.Auth.Ldap.{LdapConfig, LdapUserInfo, Directory}
use moxui.Api.Session
use moxui.Api.Session.{SessionState, Draws, Answer, grant}

-- The answers of a single sign-on.
pub data SsoAnswer : Type 0 where
  not_configured disabled : SsoAnswer
  start_failed : Str → SsoAnswer
  started : Str → Str → SsoAnswer
  callback_failed : CallbackError → SsoAnswer
  session : Answer → SsoAnswer

unfoldable pub oidc_login :
    (Oidc.ProviderClient → Drawn → Result Str Str)
    → Option OidcService
    → Drawn
    → Str
    → Option OidcService × SsoAnswer
unfolding Oidc.start_login
oidc_login authorize oidc d provider = elim oidc [
  | none ↦ (none, not_configured)
  | some service ↦
      let (service', started_login) = Oidc.start_login authorize service d provider in
      (
        some service',
        elim started_login [
          | ok (auth_url, state_key) ↦ started auth_url state_key
          | err e ↦ start_failed e
        ],
      )
]

-- The user that the first login creates. `password` is a random text in the place of a hash.
unfoldable pub oidc_user : Str → Str → OidcUserInfo → User
oidc_user key password info = record {
  id = key;
  username = info.username;
  display_name = info.display_name;
  email = info.email;
  password_hash = password;
  role = viewer;
  enabled = true;
  totp_secret = none;
  totp_enabled = false;
  backup_codes = [];
}

unfoldable pub oidc_key : OidcUserInfo → Str
oidc_key info = info.provider ++ codes ":" ++ info.sub

-- The user of the provider's account, created at its first login.
unfoldable pub oidc_account : Map User → Str → OidcUserInfo → Map User × Option User
unfolding oidc_user oidc_key Map.get Map.insert
oidc_account users password info = elim (Map.get (oidc_key info) users) [
  | some existing ↦ (users, if existing.enabled then some existing else none)
  | none ↦
      let user = oidc_user (oidc_key info) password info in
      (Map.insert (oidc_key info) user users, some user)
]

unfoldable pub ldap_role : LdapConfig → Role
unfolding User.parse_role
ldap_role config = unwrap_or (User.parse_role config.default_role) viewer

unfoldable pub ldap_user : LdapConfig → Str → LdapUserInfo → User
unfolding ldap_role Ldap.ldap_user_id
ldap_user config password info = record {
  id = Ldap.ldap_user_id info.username;
  username = info.username;
  display_name = info.display_name;
  email = if str_eq info.email [] then none else some info.email;
  password_hash = password;
  role = ldap_role config;
  enabled = true;
  totp_secret = none;
  totp_enabled = false;
  backup_codes = [];
}

module _ (c : Crypto) (jwt : JwtService) where
  -- `oidc_users` are kept apart from the store of the users.
  unfoldable pub oidc_callback :
      (PendingOidcState → Str → Result OidcUserInfo Str)
      → Option OidcService
      → Map User
      → SessionState
      → Draws
      → ℕ
      → Str
      → Str
      → Str
      → Str
      → Option OidcService × Map User × SessionState × SsoAnswer
  unfolding Oidc.handle_callback oidc_account grant
  oidc_callback exchange oidc oidc_users state d now password state_key code csrf = elim oidc [
    | none ↦ (none, oidc_users, state, not_configured)
    | some service ↦
        let (service', result) = Oidc.handle_callback exchange service now state_key code csrf in
        elim result [
          | err e ↦ (some service', oidc_users, state, callback_failed e)
          | ok info ↦
              let (oidc_users', user) = oidc_account oidc_users password info in
              elim user [
                | none ↦ (some service', oidc_users', state, disabled)
                | some user ↦
                    let (state', answer) = grant c jwt state d user in
                    (some service', oidc_users', state', session answer)
              ]
        ]
  ]

  -- The directory and its configuration; the store's error at the creation is dropped.
  unfoldable pub ldap_login :
      Directory → LdapConfig → SessionState → Draws → Str → Str → Str → SessionState × Answer
  ldap_login dir config state d password_hash username password =
      if not config.enabled || not (is_some config.url)
      then (state, Session.unauthorized)
      else elim (Ldap.verify_ldap_credentials dir config username password) [
        | none ↦ (state, Session.unauthorized)
        | some info ↦ elim (User.get state.users info.username) [
          | some existing ↦
              if existing.enabled
              then grant c jwt state d existing
              else (state, Session.unauthorized)
          | none ↦
              if config.auto_create
              then (let user = ldap_user config password_hash info in
                  grant c jwt record state { users = (add_user state.users user).0 } d user)
              else (state, Session.unauthorized)
        ]
      ]
