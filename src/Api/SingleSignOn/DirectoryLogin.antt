-- ===== src/Api/SingleSignOn/DirectoryLogin.antt =====
-- src/api/auth.rs: whom the login through the directory lets in, and with what.
use moxui.Prelude.{
  Str, Bool, Bool-cases, true, false, not, ◌||◌, Option-cases, none, some, is_some, if◌then◌else◌,
  ◌≡◌, ◌⊎◌, inl, inr, refl, sym, ap, ◌∙◌, arith,
}
use moxui.Auth.Crypto.{Crypto}
use moxui.Auth.Jwt.{JwtService}
use moxui.Auth.Refresh
use moxui.Auth.Refresh.{default_refresh_ttl_secs}
use moxui.Auth.User
use moxui.Auth.User.{User, add_user}
use moxui.Auth.Ldap.{LdapConfig, LdapUserInfo, Directory, verify_ldap_credentials}
use moxui.Auth.Ldap.Bound.{verify_ldap_credentials-url}
use moxui.Api.Session.{
  SessionState, Draws, Answer, LoginResponse, unauthorized, logged_in, view_of, claims_of, grant,
}
use moxui.Api.Session.Login.{grant-logged_in}
use moxui.Api.SingleSignOn.{ldap_user, ldap_login}

module _ (c : Crypto) (jwt : JwtService) (dir : Directory) (config : LdapConfig)
    (state : SessionState) (d : Draws) (hash : Str) where
  -- The account of a user whom the check of the credentials accepted: a stored one that is enabled, or a new one
  -- where the configuration has them created.
  abbrev pub IsAccount : LdapUserInfo → User → Type 0
  IsAccount info u =
      ((User.get state.users info.username ≡ some u) × (u.enabled ≡ true))
      ⊎ ((User.get state.users info.username ≡ none)
          × (config.auto_create ≡ true)
          × (u ≡ ldap_user config hash info))

  -- The end of a login whose credentials were accepted.
  abbrev account_login : LdapUserInfo → SessionState × Answer
  account_login info = elim (User.get state.users info.username) [
    | some existing ↦
        if existing.enabled then grant c jwt state d existing else (state, unauthorized)
    | none ↦
        if config.auto_create
        then (let u = ldap_user config hash info in
            grant c jwt record state { users = (add_user state.users u).0 } d u)
        else (state, unauthorized)
  ]

  stored_login :
      (info : LdapUserInfo) (u : User)
      → User.get state.users info.username ≡ some u
      → account_login info ≡ (if u.enabled then grant c jwt state d u else (state, unauthorized))
  stored_login info u stored = rw (account_login, stored) refl

  new_login :
      (info : LdapUserInfo)
      → User.get state.users info.username ≡ none
      → account_login info ≡ (
          if config.auto_create
          then grant c jwt
              record state { users = (add_user state.users (ldap_user config hash info)).0 }
              d
              (ldap_user config hash info)
          else (state, unauthorized))
  new_login info new = rw (account_login, new) refl

  gate_true : {A : Type 0} (b : Bool) (x y : A) → b ≡ true → (if b then x else y) ≡ x
  gate_true b x y e = rw e refl

  gate_false : {A : Type 0} (b : Bool) (x y : A) → b ≡ false → (if b then x else y) ≡ y
  gate_false b x y e = rw e refl

  no_session :
      (answer : SessionState × Answer) (r : LoginResponse)
      → answer ≡ (state, unauthorized)
      → answer.1 ≡ logged_in r
      → ⊥
  no_session answer r e h = let same : answer.1 ≡ unauthorized = ap (λ p. p.1) e in cc

  account_login-IsAccount :
      (info : LdapUserInfo) (r : LoginResponse)
      → (account_login info).1 ≡ logged_in r
      → (u : User) × IsAccount info u
        × (r.user ≡ view_of u)
        × (jwt.encode (claims_of u d.claims_now state.jwt_lifetime_secs) ≡ some r.token)
  account_login-IsAccount info r h = elim (Option-cases (User.get state.users info.username)) [
    | inl new ↦ elim (Bool-cases config.auto_create) [
      | inr off ↦ absurd (
          no_session (account_login info) r
            (new_login info new ∙ gate_false config.auto_create _ _ off) h)
      | inl created ↦
          let u = ldap_user config hash info in
          let opened = new_login info new ∙ gate_true config.auto_create _ _ created in
          let (encoded, shown, _, _) =
            grant-logged_in c jwt record state { users = (add_user state.users u).0 } d u r
              (sym (ap (λ p. p.1) opened) ∙ h) in
          (u, inr (new, created, refl), shown, encoded)
    ]
    | inr (u, stored) ↦ elim (Bool-cases u.enabled) [
      | inr off ↦ absurd (
          no_session (account_login info) r
            (stored_login info u stored ∙ gate_false u.enabled _ _ off) h)
      | inl on ↦
          let opened = stored_login info u stored ∙ gate_true u.enabled _ _ on in
          let (encoded, shown, _, _) =
            grant-logged_in c jwt state d u r (sym (ap (λ p. p.1) opened) ∙ h) in
          (u, inl (stored, on), shown, encoded)
    ]
  ]

  accepted_login :
      (username password : Str) (info : LdapUserInfo)
      → config.enabled ≡ true
      → verify_ldap_credentials dir config username password ≡ some info
      → ldap_login c jwt dir config state d hash username password ≡ account_login info
  unfolding ldap_login
  accepted_login username password info on accepted =
      let known = verify_ldap_credentials-url dir config username password info accepted in
      gate_false (not config.enabled || not (is_some config.url)) _ _ (ground (arith, on, known))
      ∙ rw accepted refl

  disabled_login :
      (username password : Str)
      → config.enabled ≡ false
      → ldap_login c jwt dir config state d hash username password ≡ (state, unauthorized)
  unfolding ldap_login
  disabled_login username password off =
      gate_true (not config.enabled || not (is_some config.url)) _ _ (ground (arith, off))

  refused_login :
      (username password : Str)
      → verify_ldap_credentials dir config username password ≡ none
      → ldap_login c jwt dir config state d hash username password ≡ (state, unauthorized)
  unfolding ldap_login
  refused_login username password refused =
      elim (Bool-cases (not config.enabled || not (is_some config.url))) [
        | inr open_gate ↦
            gate_false (not config.enabled || not (is_some config.url)) _ _ open_gate
            ∙ rw refused refl
        | inl closed ↦ gate_true (not config.enabled || not (is_some config.url)) _ _ closed
      ]

  -- A login through the directory logs in only where it is enabled and the check of the credentials
  -- accepted them, and then the account of the name that the check gave: a stored one that is
  -- enabled, or a new one where the configuration has them created. The answer shows this account
  -- and carries its encoded claims.
  pub ldap_login-logged_in :
      (username password : Str) (r : LoginResponse)
      → (ldap_login c jwt dir config state d hash username password).1 ≡ logged_in r
      → (config.enabled ≡ true)
        × (info : LdapUserInfo) × (verify_ldap_credentials dir config username password ≡ some info)
        × (u : User) × IsAccount info u
        × (r.user ≡ view_of u)
        × (jwt.encode (claims_of u d.claims_now state.jwt_lifetime_secs) ≡ some r.token)
  ldap_login-logged_in username password r h =
      let answer = ldap_login c jwt dir config state d hash username password in
      elim (Bool-cases config.enabled) [
        | inr off ↦ absurd (no_session answer r (disabled_login username password off) h)
        | inl on ↦ elim (Option-cases (verify_ldap_credentials dir config username password)) [
          | inl refused ↦ absurd (no_session answer r (refused_login username password refused) h)
          | inr (info, accepted) ↦
              let opened = accepted_login username password info on accepted in
              let (u, account, shown, encoded) =
                account_login-IsAccount info r (sym (ap (λ p. p.1) opened) ∙ h) in
              (on, info, accepted, u, account, shown, encoded)
        ]
      ]

  granted_session :
      (u : User) (token : Str)
      → jwt.encode (claims_of u d.claims_now state.jwt_lifetime_secs) ≡ some token
      → (r : LoginResponse) × ((grant c jwt state d u).1 ≡ logged_in r)
        × (r.user ≡ view_of u)
        × (r.token ≡ token)
  unfolding grant
  granted_session u token encoded = (
    record {
      token = token;
      expires_in = state.jwt_lifetime_secs;
      user = view_of u;
      refresh_token =
          (Refresh.issue c state.refresh_store u.id default_refresh_ttl_secs d.refresh_id
            d.refresh_buf d.refresh_now).1.token;
    },
    rw (grant, encoded) refl,
    refl,
    refl,
  )

  -- The second factor plays no part: a stored, enabled user whose credentials are accepted is logged
  -- in with the password alone, whether or not the account has enabled one, if the login through
  -- the directory is enabled and the claims can be encoded.
  pub ldap_login_no_second_factor :
      (username password token : Str) (info : LdapUserInfo) (u : User)
      → config.enabled ≡ true
      → verify_ldap_credentials dir config username password ≡ some info
      → User.get state.users info.username ≡ some u
      → u.enabled ≡ true
      → jwt.encode (claims_of u d.claims_now state.jwt_lifetime_secs) ≡ some token
      → (r : LoginResponse) × ((ldap_login c jwt dir config state d hash username password).1
          ≡ logged_in r)
        × (r.user ≡ view_of u)
        × (r.token ≡ token)
  ldap_login_no_second_factor username password token info u on accepted stored enabled encoded =
      let (r, granted, shown, carried) = granted_session u token encoded in
      let opened =
        accepted_login username password info on accepted
        ∙ stored_login info u stored
        ∙ gate_true u.enabled _ _ enabled in
      (r, ap (λ p. p.1) opened ∙ granted, shown, carried)
