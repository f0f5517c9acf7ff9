-- ===== src/State.antt =====
-- src/state.rs: the shared state's view of the clusters. Of a Proxmox client only its name and its
-- answer to a ping matter here.
pub mod Clients
pub mod Readiness
use moxui.Prelude.{
  ℕ, List, [], ◌∷◌, Str, str_eq, Bool, true, false, Option, none, some, if◌then◌else◌, any, all,
  ltb, leb, not, keep_if,
}
use moxui.Prelude.Map
use moxui.Prelude.Map.{Map}
use moxui.Auth.User.{UserStore, user_allowed_clusters}

module _ {ℓ} {Client : Type ℓ} (name : Client → Str) where
  -- `AppState::client`.
  unfoldable pub client : List Client → Str → Option Client
  client [] n = none
  client (c ∷ cs) n = if str_eq (name c) n then some c else client cs n

  unfoldable pub clients_for_user : List Client → UserStore → Str → List Client
  clients_for_user clients users username = elim (user_allowed_clusters users username) [
    | none ↦ clients
    | some clusters ↦ keep_if (λ c. any (λ a. str_eq a (name c)) clusters) clients
  ]
