-- ===== src/Auth/Ldap.antt =====
-- src/auth/ldap.rs: the check of a password by the directory. The connection of `ldap3` is a
-- parameter.
pub mod Bound
use moxui.Prelude.{
  ℕ, zero, suc, ◌-◌, List, [], ◌∷◌, ◌++◌, Str, codes, Bool, true, false, not, length, Option, none,
  some, if◌then◌else◌, unwrap_or, Result, ok, err,
}
use moxui.Prelude.Map
use moxui.Prelude.Map.{Map}
use moxui.Prelude.Options.{◌>>=◌}
use moxui.Prelude.Text.{starts_with}

pub record LdapConfig : Type 0 where
  pub enabled : Bool
  pub url : Option Str
  pub base_dn : Option Str
  pub bind_dn : Option Str
  pub bind_password : Option Str
  pub user_filter : Str
  pub username_attr : Str
  pub displayname_attr : Str
  pub email_attr : Str
  pub default_role : Str
  pub auto_create : Bool

pub record LdapUserInfo : Type 0 where
  pub dn : Str
  pub username : Str
  pub display_name : Str
  pub email : Str

-- An entry of the directory with its attributes.
pub record SearchEntry : Type 0 where
  pub dn : Str
  pub attrs : Map (List Str)

-- The directory behind an address: whether it can be reached (with or without the check of its
-- certificate), a bind, and a subtree search of a base by a filter. As `ldap3` documents it, a bind
-- that the directory answers is a result with the answer's code (0 for success, 49 for credentials
-- that it refuses), and only a failed exchange is an error. A directory answers the same during one
-- login.
pub record Directory : Type 0 where
  pub connect : Str → Bool → Bool
  pub simple_bind : Str → Str → Result ℕ Str
  pub search : Str → Str → List Str → Option (List SearchEntry)

-- `str::replace`: each occurrence of `pattern`, from left to right; `skip` bytes are still part of
-- the last one.
unfoldable pub replace_from : ℕ → Str → Str → Str → Str
replace_from skip pattern by [] = []
replace_from (suc skip) pattern by (c ∷ s) = replace_from skip pattern by s
replace_from zero pattern by (c ∷ s) = elim (starts_with pattern (c ∷ s)) [
  | true ↦ by ++ replace_from (length pattern - 1) pattern by s
  | false ↦ c ∷ replace_from zero pattern by s
]

unfoldable pub filter_for : LdapConfig → Str → Str
unfolding replace_from starts_with
filter_for config username = replace_from 0 (codes "{username}") username config.user_filter

-- The first value of an attribute.
unfoldable pub first_value : Map (List Str) → Str → Option Str
unfolding Map.get
first_value attrs name =
    Map.get name attrs >>= λ values. elim values [ [] ↦ none | v ∷ vs ↦ some v ]

unfoldable pub head : {A : Type 0} → List A → Option A
head [] = none
head (x ∷ xs) = some x

unfoldable pub info_of : LdapConfig → Str → SearchEntry → LdapUserInfo
unfolding first_value
info_of config username entry =
    let name = unwrap_or (first_value entry.attrs config.username_attr) username in
    record {
      dn = entry.dn;
      username = name;
      display_name = unwrap_or (first_value entry.attrs config.displayname_attr) name;
      email = unwrap_or (first_value entry.attrs config.email_attr) [];
    }

unfoldable pub is_ok : {A E : Type 0} → Result A E → Bool
is_ok (ok a) = true
is_ok (err e) = false

abbrev pub guard : Bool → Option (Unit {0})
guard true = some tt
guard false = none

-- The code in the answer to a bind is not looked at.
unfoldable pub verify_ldap_credentials : Directory → LdapConfig → Str → Str → Option LdapUserInfo
unfolding filter_for head info_of starts_with is_ok
verify_ldap_credentials dir config username password = config.url >>= λ url.
    config.base_dn >>= λ base_dn. config.bind_dn >>= λ bind_dn.
    config.bind_password >>= λ bind_password.
    guard (dir.connect url (not (starts_with (codes "ldaps://") url))) >>= λ _.
    guard (is_ok (dir.simple_bind bind_dn bind_password)) >>= λ _.
    dir.search base_dn (filter_for config username)
      (config.username_attr ∷ config.displayname_attr ∷ config.email_attr ∷ [])
    >>= λ entries. head entries >>= λ entry.
        guard (is_ok (dir.simple_bind entry.dn password)) >>= λ _.
        some (info_of config username entry)

unfoldable pub ldap_user_id : Str → Str
ldap_user_id username = codes "ldap-" ++ username
