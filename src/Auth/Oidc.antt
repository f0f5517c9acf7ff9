-- ===== src/Auth/Oidc.antt =====
-- src/auth/oidc.rs: the pending logins of single sign-on, and the checks of the callback. What the
-- providers answer (the exchange of the code, the tokens and the user's data) is a parameter.
pub mod Pending
use moxui.Prelude.{
  ℕ, ◌-◌, ◌/◌, map, List, [], ◌∷◌, ◌++◌, Str, codes, str_eq, Bool, ◌||◌, ◌&&◌, Option, none, some,
  if◌then◌else◌, ◌==◌, ltb, leb, Result, ok, err,
}
use moxui.Prelude.Map
use moxui.Prelude.Map.{Map}

abbrev pub pending_state_ttl_minutes : ℕ
pending_state_ttl_minutes = 5

-- `created_at` in milliseconds.
pub record PendingOidcState : Type 0 where
  pub provider_name : Str
  pub pkce_verifier_secret : Str
  pub nonce_secret : Option Str
  pub csrf_token_secret : Str
  pub created_at : ℕ

pub record OidcUserInfo : Type 0 where
  pub provider : Str
  pub sub : Str
  pub username : Str
  pub email : Option Str
  pub display_name : Str

pub data ProviderClient : Type 0 where
  google : Str → Str → Str → Str → ProviderClient
  github : Str → Str → Str → ProviderClient

pub record OidcService : Type 0 where
  pub providers : Map ProviderClient
  pub state_store : Map PendingOidcState

-- What a login draws: the state's key, the secrets, and the clock.
pub record Drawn : Type 0 where
  pub state_key : Str
  pub pkce_verifier : Str
  pub nonce : Str
  pub csrf_token : Str
  pub now : ℕ

-- The dash of the text in UTF-8.
abbrev pub dash : Str
dash = 226 ∷ 128 ∷ 148 ∷ []

abbrev pub unknown_provider : Str → Str
unknown_provider name =
    codes "unknown OIDC provider '"
    ++ name
    ++ codes "' "
    ++ dash
    ++ codes " expected 'google' or 'github'"

-- `authorize` makes the provider's URL of its client and the secrets, or fails.
unfoldable pub start_login :
    (ProviderClient → Drawn → Result Str Str)
    → OidcService
    → Drawn
    → Str
    → OidcService × Result (Str × Str) Str
start_login authorize service d provider_name = elim (Map.get provider_name service.providers) [
  | none ↦ (service, err (unknown_provider provider_name))
  | some client ↦ elim (authorize client d) [
    | err e ↦ (service, err e)
    | ok auth_url ↦ (
      record service {
        state_store =
            Map.insert d.state_key
              record {
                provider_name = elim client [
                  | google a b c e ↦ codes "google"
                  | github a b c ↦ codes "github"
                ];
                pkce_verifier_secret = d.pkce_verifier;
                nonce_secret = elim client [ google a b c e ↦ some d.nonce | github a b c ↦ none ];
                csrf_token_secret = d.csrf_token;
                created_at = d.now;
              }
              service.state_store;
      },
      ok (auth_url, d.state_key),
    )
  ]
]

-- The part of the provider's `state` in front of the first dot.
unfoldable pub csrf_value : Str → Str
csrf_value [] = []
csrf_value (c ∷ s) = let rest = csrf_value s in if c == 46 then [] else c ∷ rest

-- `num_minutes` cuts the time that has passed to whole minutes.
unfoldable pub is_expired : ℕ → PendingOidcState → Bool
is_expired now pending = ltb pending_state_ttl_minutes ((now - pending.created_at) / 60_000)

-- The texts of the refusals.
pub data CallbackError : Type 0 where
  invalid_key expired csrf_mismatch : CallbackError
  unknown_in_state : Str → CallbackError
  provider_failed : Str → CallbackError

-- `exchange` completes the login with the provider of the pending state.
unfoldable pub check_callback :
    (PendingOidcState → Str → Result OidcUserInfo Str)
    → PendingOidcState
    → ℕ
    → Str
    → Str
    → Result OidcUserInfo CallbackError
unfolding csrf_value is_expired
check_callback exchange pending now code state =
    if is_expired now pending
    then err expired
    else if str_eq (csrf_value state) pending.csrf_token_secret
    then (if str_eq pending.provider_name (codes "google")
          || str_eq pending.provider_name (codes "github")
        then elim (exchange pending code) [ ok info ↦ ok info | err e ↦ err (provider_failed e) ]
        else err (unknown_in_state pending.provider_name))
    else err csrf_mismatch

unfoldable pub handle_callback :
    (PendingOidcState → Str → Result OidcUserInfo Str)
    → OidcService
    → ℕ
    → Str
    → Str
    → Str
    → OidcService × Result OidcUserInfo CallbackError
unfolding check_callback
handle_callback exchange service now state_key code state =
    elim (Map.get state_key service.state_store) [
      | none ↦ (service, err invalid_key)
      | some pending ↦ (
        record service { state_store = Map.remove state_key service.state_store },
        check_callback exchange pending now code state,
      )
    ]
