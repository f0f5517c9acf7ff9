-- ===== src/Api/Handler.antt =====
-- src/api/*.rs: what the handlers about clusters share. A handler reads and changes the outside
-- world and the clients of the configured clusters; it gives `none` only if a call outside any
-- `timeout` were given up, which does not happen (Proxmox/Client/Steady.antt).
pub mod Refusal
use moxui.Prelude.{
  ℕ, List, [], ◌∷◌, ◌++◌, Str, codes, str_eq, Bool, true, false, Option, none, some, if◌then◌else◌,
  ◌==◌, Result, ok, err,
}
use mathlib.Core.Option
use moxui.Error.{AppError, not_found, forbidden, internal}
use moxui.Auth.Jwt.{Claims}
use moxui.Auth.User
use moxui.Auth.Middleware.{require_role, status}
use moxui.State.{client}
use moxui.Proxmox.Call.{ProxmoxClient, Call}

-- The values of the JSON objects that the handlers answer.
pub data Value : Type 0 where
  number : ℕ → Value
  string : Str → Value

abbrev pub Answer : Type 0
Answer = List (Str × Value)

abbrev pub Handler : Type 0 → Type 0 → Type 0
Handler W A = W → List ProxmoxClient → W × List ProxmoxClient × Option (Result A AppError)

module _ {W : Type 0} where
  abbrev pub answer : {A : Type 0} → A → Handler W A
  answer a w cs = (w, cs, some (ok a))

  abbrev pub refuse : {A : Type 0} → AppError → Handler W A
  refuse e w cs = (w, cs, some (err e))

  infixl 5 ◌>>=◌ ◌>>◌
  unfoldable pub ◌>>=◌ : {A B : Type 0} → Handler W A → (A → Handler W B) → Handler W B
  ◌>>=◌ m f w cs =
      let (w', cs', r) = m w cs in
      elim r [
        | none ↦ (w', cs', none)
        | some (ok a) ↦ f a w' cs'
        | some (err e) ↦ (w', cs', some (err e))
      ]

  abbrev pub ◌>>◌ : {A B : Type 0} → Handler W A → Handler W B → Handler W B
  m >> k = m >>= λ _. k

abbrev pub name_of : ProxmoxClient → Str
name_of c = c.config.name

-- The client that `AppState::client` finds, after a call on it.
unfoldable pub replace : Str → ProxmoxClient → List ProxmoxClient → List ProxmoxClient
replace cluster c [] = []
replace cluster c (d ∷ cs) = if str_eq (name_of d) cluster then c ∷ cs else d ∷ replace cluster c cs

unfoldable pub not_configured : Str → Str
not_configured cluster = codes "cluster '" ++ cluster ++ codes "' not configured"

-- `require_role(&auth, Role::Operator)`, with the error that the handlers make of its refusal.
unfoldable pub require_operator : (ℕ → Str) → Claims → Result (Unit {0}) AppError
unfolding require_role status
require_operator status_text claims = elim (require_role claims User.operator) [
  | ok u ↦ ok u
  | err refusal ↦
      if status refusal == 403
      then err (forbidden (codes "operator role required"))
      else err (internal (codes "auth middleware returned " ++ status_text (status refusal)))
]

module _ {W : Type 0} where
  unfoldable pub lift : {A : Type 0} → Result A AppError → Handler W A
  lift r w cs = (w, cs, some r)

  -- `state.client(cluster).ok_or_else(…)?`, then a call on that client.
  unfoldable pub on_cluster : {A : Type 0} → Str → Call W A → Handler W A
  unfolding client replace not_configured
  on_cluster cluster m w cs = elim (client name_of cs cluster) [
    | none ↦ (w, cs, some (err (not_found (not_configured cluster))))
    | some c ↦ let (w', c', r) = m none w c in (w', replace cluster c' cs, r)
  ]

  -- `join_all` of a call on every client. The calls run one after the other here.
  unfoldable pub on_each :
      {A : Type 0}
      → Call W A
      → W
      → List ProxmoxClient
      → W × List ProxmoxClient × Option (List (Str × Result A AppError))
  on_each m w [] = (w, [], some [])
  on_each m w (c ∷ cs) =
      let (w', c', r) = m none w c in
      let (w'', cs', rs) = on_each m w' cs in
      (w'', c' ∷ cs', elim r [ none ↦ none | some a ↦ Option.map (◌∷◌ (name_of c, a)) rs ])
