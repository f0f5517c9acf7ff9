-- ===== src/Auth/Ldap/Bound.antt =====
-- src/auth/ldap.rs: whose password the directory has accepted.
use moxui.Prelude.{
  ℕ, List, [], ◌∷◌, Str, codes, Bool, true, false, not, Option, some, is_some, Result, ok, err, ◌≡◌,
  refl, sym, ap, ◌∙◌, arith,
}
use moxui.Prelude.Options.{◌>>=◌, >>=-eq-some}
use moxui.Prelude.Text.{starts_with}
use mathlib.Core.Path.{fun_ext}
use moxui.Auth.Ldap.{
  LdapConfig, LdapUserInfo, SearchEntry, Directory, filter_for, head, info_of, guard, is_ok,
  verify_ldap_credentials,
}

guarded :
    {B : Type 0} (b : Bool) (f : Unit {0} → Option B) {x : B}
    → (guard b >>= f) ≡ some x
    → (b ≡ true) × (f tt ≡ some x)
guarded true f h = (refl, h)
guarded false f h = cc

answered : {A E : Type 0} (r : Result A E) → is_ok r ≡ true → (a : A) × (r ≡ ok a)
unfolding is_ok
answered (ok a) h = (a, refl)
answered (err e) h = cc

-- Credentials are accepted only if the directory answered the bind of the password to the entry that
-- its search gave first, and the user is that entry's.
pub verify_ldap_credentials-Bound :
    (dir : Directory) (config : LdapConfig) (username password : Str) (info : LdapUserInfo)
    → verify_ldap_credentials dir config username password ≡ some info
    → (entry : SearchEntry) × (base_dn : Str) × (entries : List SearchEntry) × (config.base_dn
        ≡ some base_dn)
      × (dir.search base_dn
            (filter_for config username)
            (config.username_attr ∷ config.displayname_attr ∷ config.email_attr ∷ [])
          ≡ some entries)
      × (head entries ≡ some entry)
      × (code : ℕ) × (dir.simple_bind entry.dn password ≡ ok code)
      × (info ≡ info_of config username entry)
unfolding verify_ldap_credentials
verify_ldap_credentials-Bound dir config username password info h =
    let (url, _, h1) = >>=-eq-some config.url _ h in
    let (base, based, h2) = >>=-eq-some config.base_dn _ h1 in
    let (bind_dn, _, h3) = >>=-eq-some config.bind_dn _ h2 in
    let (bind_password, _, h4) = >>=-eq-some config.bind_password _ h3 in
    let (_, h5) = guarded (dir.connect url (not (starts_with (codes "ldaps://") url))) _ h4 in
    let (_, h6) = guarded (is_ok (dir.simple_bind bind_dn bind_password)) _ h5 in
    let (entries, searched, h7) =
      >>=-eq-some
        (dir.search base (filter_for config username)
          (config.username_attr ∷ config.displayname_attr ∷ config.email_attr ∷ []))
        _ h6 in
    let (entry, first, h8) = >>=-eq-some (head entries) _ h7 in
    let (bound, same) = guarded (is_ok (dir.simple_bind entry.dn password)) _ h8 in
    let (code, done) = answered (dir.simple_bind entry.dn password) bound in
    (entry, base, entries, based, searched, first, code, done, ground (arith, same))

-- Without an address nobody is accepted.
pub verify_ldap_credentials-url :
    (dir : Directory) (config : LdapConfig) (username password : Str) (info : LdapUserInfo)
    → verify_ldap_credentials dir config username password ≡ some info
    → is_some config.url ≡ true
unfolding verify_ldap_credentials
verify_ldap_credentials-url dir config username password info h =
    let (url, there, _) = >>=-eq-some config.url _ h in ap is_some there

-- The directory answers every bind, if only by refusing the credentials.
abbrev pub AnswersBinds : Directory → Type 0
AnswersBinds dir = (dn password : Str) → is_ok (dir.simple_bind dn password) ≡ true

-- Where the directory answers every bind, if only by refusing the credentials, the password plays no
-- part: all passwords of a user are answered alike.
pub verify_ldap_credentials_any_password :
    (dir : Directory) (config : LdapConfig) (username password password' : Str)
    → AnswersBinds dir
    → verify_ldap_credentials dir config username password
      ≡ verify_ldap_credentials dir config username password'
unfolding verify_ldap_credentials
verify_ldap_credentials_any_password dir config username password password' answers =
    ap
      (λ bind. config.url >>= λ url. config.base_dn >>= λ base_dn. config.bind_dn >>= λ bind_dn.
        config.bind_password >>= λ bind_password.
        guard (dir.connect url (not (starts_with (codes "ldaps://") url))) >>= λ _.
        guard (is_ok (dir.simple_bind bind_dn bind_password)) >>= λ _.
        dir.search base_dn (filter_for config username)
          (config.username_attr ∷ config.displayname_attr ∷ config.email_attr ∷ [])
        >>= λ entries. head entries >>= λ entry.
            guard (bind entry.dn) >>= λ _. some (info_of config username entry))
      (fun_ext (λ dn. answers dn password ∙ sym (answers dn password')))
