-- ===== src/Tests/SignOn.antt =====
-- src/auth/oidc.rs and src/auth/ldap.rs: a login through a provider, and one through a directory.
use moxui.Prelude.{
  ◌+◌, ◌<◌, [], ◌∷◌, Str, codes, str_eq, true, false, none, some, Result, ok, err, if◌then◌else◌,
  ◌≡◌, refl,
}
use moxui.Prelude.Map.{get}
use moxui.Auth.User
use moxui.Auth.User.{User}
use moxui.Auth.Refresh.{issue, generate_token}
use moxui.Auth.Oidc.{
  PendingOidcState, OidcUserInfo, OidcService, csrf_value, is_expired, check_callback,
  handle_callback, invalid_key,
}
use moxui.Auth.Oidc.Pending.{handle_callback_once, handle_callback-ok}
use moxui.Auth.Ldap.{
  LdapConfig, LdapUserInfo, SearchEntry, Directory, first_value, info_of, is_ok,
  verify_ldap_credentials,
}
use moxui.Auth.Ldap.Bound.{AnswersBinds, verify_ldap_credentials_any_password}
use moxui.Api.Session.{LoginResponse, logged_in, view_of, claims_of, grant}
use moxui.Api.SingleSignOn.{ldap_login}
use moxui.Api.SingleSignOn.DirectoryLogin.{IsAccount, ldap_login-logged_in}
use moxui.Tests.Toy.{toy, toy_jwt, bob}
use moxui.Tests.Session.{state, draws}

abbrev pending_login : PendingOidcState
pending_login = record {
  provider_name = codes "google";
  pkce_verifier_secret = codes "v";
  nonce_secret = none;
  csrf_token_secret = codes "c";
  created_at = 1_000;
}

abbrev service : OidcService
service = record { providers = []; state_store = (codes "k", pending_login) ∷ [] }

abbrev carol : OidcUserInfo
carol = record {
  provider = codes "google";
  sub = codes "7";
  username = codes "carol";
  email = none;
  display_name = codes "Carol";
}

abbrev exchange : PendingOidcState → Str → Result OidcUserInfo Str
exchange pending code = ok carol

handle_callback_once_example :
    let service' =
      (handle_callback exchange service 2_000 (codes "k") (codes "code") (codes "c.x")).0 in
    (get (codes "k") service'.state_store
      ≡ (if str_eq (codes "k") (codes "k") then none else get (codes "k") service.state_store))
    × (handle_callback exchange service' 3_000 (codes "k") (codes "code") (codes "c.x")
        ≡ (service', err invalid_key))
handle_callback_once_example =
    handle_callback_once exchange service 2_000 3_000 (codes "k") (codes "code") (codes "c.x")
      (codes "code") (codes "c.x") (codes "k")

accepted :
    (handle_callback exchange service 2_000 (codes "k") (codes "code") (codes "c.x")).1 ≡ ok carol
unfolding handle_callback check_callback csrf_value is_expired get str_eq
accepted = refl

handle_callback-ok_example :
    (pending : PendingOidcState) × (get (codes "k") service.state_store ≡ some pending)
    × (2_000 < pending.created_at + 360_000)
    × (csrf_value (codes "c.x") ≡ pending.csrf_token_secret)
    × (exchange pending (codes "code") ≡ ok carol)
handle_callback-ok_example =
    handle_callback-ok exchange service 2_000 (codes "k") (codes "code") (codes "c.x") carol
      accepted

-- A directory with the entry of bob, whose password there is "tree".
abbrev bob_entry : SearchEntry
bob_entry = record {
  dn = codes "uid=bob";
  attrs = (codes "uid", codes "bob" ∷ []) ∷ (codes "cn", codes "Bob" ∷ []) ∷ [];
}

abbrev directory : Directory
directory = record {
  connect = λ url unchecked. true;
  simple_bind = λ dn password. ok (
      if str_eq dn (codes "uid=bob")
      then (if str_eq password (codes "tree") then 0 else 49)
      else 0);
  search = λ base filter attrs. some (bob_entry ∷ []);
}

abbrev config : LdapConfig
config = record {
  enabled = true;
  url = some (codes "ldaps://dir");
  base_dn = some (codes "dc=lab");
  bind_dn = some (codes "cn=app");
  bind_password = some (codes "app");
  user_filter = codes "(uid={username})";
  username_attr = codes "uid";
  displayname_attr = codes "cn";
  email_attr = codes "mail";
  default_role = codes "viewer";
  auto_create = false;
}

abbrev bob_info : LdapUserInfo
bob_info = record {
  dn = codes "uid=bob";
  username = codes "bob";
  display_name = codes "Bob";
  email = [];
}

bob_accepted : verify_ldap_credentials directory config (codes "bob") (codes "tree") ≡ some bob_info
unfolding verify_ldap_credentials str_eq info_of first_value get
bob_accepted = refl

bob_stored : User.get state.users (codes "bob") ≡ some bob
unfolding User.get get str_eq
bob_stored = refl

abbrev directory_session : LoginResponse
directory_session = record {
  token = codes "2";
  expires_in = state.jwt_lifetime_secs;
  user = view_of bob;
  refresh_token = codes "new";
}

bob_logged_in :
    (ldap_login toy toy_jwt directory config state draws [] (codes "bob") (codes "tree")).1
    ≡ logged_in directory_session
unfolding ldap_login verify_ldap_credentials str_eq info_of first_value get User.get grant issue
    generate_token
bob_logged_in = refl

ldap_login-logged_in_example :
    (config.enabled ≡ true)
    × (info : LdapUserInfo) × (verify_ldap_credentials directory config (codes "bob") (codes "tree")
        ≡ some info)
    × (u : User) × IsAccount toy toy_jwt directory config state draws [] info u
    × (directory_session.user ≡ view_of u)
    × (toy_jwt.encode (claims_of u draws.claims_now state.jwt_lifetime_secs)
        ≡ some directory_session.token)
ldap_login-logged_in_example =
    ldap_login-logged_in toy toy_jwt directory config state draws [] (codes "bob") (codes "tree")
      directory_session bob_logged_in

directory-AnswersBinds : AnswersBinds directory
unfolding is_ok
directory-AnswersBinds = λ dn password. refl

verify_ldap_credentials_any_password_example :
    verify_ldap_credentials directory config (codes "bob") (codes "wrong")
    ≡ verify_ldap_credentials directory config (codes "bob") (codes "tree")
verify_ldap_credentials_any_password_example =
    verify_ldap_credentials_any_password directory config (codes "bob") (codes "wrong")
      (codes "tree") directory-AnswersBinds
