-- ===== src/Security/ApiKey.antt =====
-- src/security/api_key.rs: the layer that marks a request with a valid API key.
use moxui.Prelude.{Str, codes, str_eq, Bool, true, false, Option, none, some, if◌then◌else◌, ◌&&◌}
use moxui.Prelude.Map
use moxui.Prelude.Map.{Map}

pub record ApiKeyConfig : Type 0 where
  pub enabled : Bool
  pub key : Option Str

-- A request's headers, and whether it carries the mark.
pub record Marked : Type 0 where
  pub headers : Map Str
  pub api_key_authenticated : Bool

abbrev pub api_key_header : Str
api_key_header = codes "x-api-key"

unfoldable pub key_matches : ApiKeyConfig → Map Str → Bool
unfolding Map.get
key_matches config headers = elim config.key [
  | none ↦ false
  | some key ↦ elim (Map.get api_key_header headers) [ none ↦ false | some v ↦ str_eq v key ]
]

-- The layer hands the request on in any case.
unfoldable pub call : {R : Type 0} → ApiKeyConfig → (Marked → R) → Marked → R
unfolding key_matches
call config inner req = inner (
    if config.enabled && key_matches config req.headers
    then record req { api_key_authenticated = true }
    else req)
