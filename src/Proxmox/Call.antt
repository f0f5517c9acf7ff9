-- ===== src/Proxmox/Call.antt =====
-- src/proxmox/client.rs: the state of a cluster's client, and what its calls are made of. A call reads and changes the outside world and
-- the client (its ticket and its circuit breaker); it runs under the deadline of the `timeout`
-- around it, if there is one, and gives `none` if that deadline passes.
pub mod Steady
pub mod Sends
pub mod Yields
use moxui.Prelude.{
  ℕ, ◌+◌, ◌*◌, ◌^◌, List, [], ◌∷◌, ◌++◌, Str, codes, append_str, str_eq, Bool, true, false, not,
  ◌&&◌, Option, none, some, if◌then◌else◌, ◌==◌, leb, Result, ok, err,
}
use moxui.Prelude.Int.{ℤ, pos, ltb_ℤ, sub_i64}
use moxui.Prelude.Decimal.{decimal}
use moxui.Error.{AppError, proxmox, internal}
use moxui.Proxmox.CircuitBreaker
use moxui.Proxmox.CircuitBreaker.{CircuitBreaker}
use moxui.Proxmox.Http.{
  Method, Body, HttpRequest, HttpResponse, Ticket, Net, empty, credentials, json,
}

pub record ClusterConfig : Type 0 where
  pub name : Str
  pub url : Str
  pub username : Str
  pub password : Str
  pub realm : Str

-- The connection pool is part of the world, and no code reads the retry policy.
pub record ProxmoxClient : Type 0 where
  pub config : ClusterConfig
  pub ticket : Option Ticket
  pub circuit_breaker : CircuitBreaker

-- `ProxmoxClient::new`, where the configured certificate is accepted.
unfoldable pub new : ClusterConfig → ProxmoxClient
new config = record {
  config = config;
  ticket = none;
  circuit_breaker = CircuitBreaker.default_breaker;
}

abbrev pub Call : Type 0 → Type 0 → Type 0
Call W A = Option ℕ → W → ProxmoxClient → W × ProxmoxClient × Option (Result A AppError)

module _ {W : Type 0} where
  abbrev pub done : {A : Type 0} → A → Call W A
  done a d w c = (w, c, some (ok a))

  abbrev pub fail : {A : Type 0} → AppError → Call W A
  fail e d w c = (w, c, some (err e))

  -- A call whose error the caller looks at.
  unfoldable pub attempt : {A : Type 0} → Call W A → Call W (Result A AppError)
  attempt m d w c =
      let (w', c', r) = m d w c in (w', c', elim r [ none ↦ none | some a ↦ some (ok a) ])

  infixl 5 ◌>>=◌ ◌>>◌
  unfoldable pub ◌>>=◌ : {A B : Type 0} → Call W A → (A → Call W B) → Call W B
  ◌>>=◌ m f d w c =
      let (w', c', r) = m d w c in
      elim r [
        | none ↦ (w', c', none)
        | some (ok a) ↦ f a d w' c'
        | some (err e) ↦ (w', c', some (err e))
      ]

  abbrev pub ◌>>◌ : {A B : Type 0} → Call W A → Call W B → Call W B
  m >> k = m >>= λ _. k

module _ {W : Type 0} where
  unfoldable pub record_success : Call W (Unit {0})
  unfolding CircuitBreaker.record_success
  record_success d w c = (
    w,
    record c { circuit_breaker = CircuitBreaker.record_success c.circuit_breaker },
    some (ok tt),
  )

  unfoldable pub set_ticket : Ticket → Call W (Unit {0})
  set_ticket t d w c = (w, record c { ticket = some t }, some (ok tt))

-- The error of a call that `timeout` gave up.
unfoldable pub timed_out : Str → ℕ → AppError
timed_out what secs = proxmox (what ++ codes " timed out after " ++ decimal secs ++ codes "s")

-- A transport error ends the call (`?` with `From<reqwest::Error>`).
abbrev pub transport : {A : Type 0} → Result A Str → Result A AppError
transport (ok a) = ok a
transport (err reason) = err (proxmox reason)

module _ {W : Type 0} (net : Net W) where
  -- `request.send().await` and `resp.json().await`, with the transport's errors as values.
  unfoldable pub send : HttpRequest → Call W HttpResponse
  send req none w c = let (w', r) = net.send req w in (w', c, some (transport r))
  send req (some t) w c =
      let (w', r) = net.send_until t req w in
      (w', c, elim r [ none ↦ none | some a ↦ some (transport a) ])

  unfoldable pub receive : HttpResponse → Call W Str
  receive resp none w c = let (w', r) = net.receive resp.connection w in (w', c, some (transport r))
  receive resp (some t) w c =
      let (w', r) = net.receive_until t resp.connection w in
      (w', c, elim r [ none ↦ none | some a ↦ some (transport a) ])

  unfoldable pub decode : {T : Type 0} → (Str → Result T Str) → HttpResponse → Call W T
  unfolding receive
  decode parse resp = do text ← receive resp; λ d w c. (w, c, some (transport (parse text)))

  -- `tokio::time::timeout`, with the error that the callers make of an elapsed deadline.
  unfoldable pub timeout : {A : Type 0} → ℕ → Str → Call W A → Call W A
  unfolding timed_out
  timeout secs what m d w c =
      let (w', now) = net.instant w in
      let (w'', c'', r) = m (some (now + secs * 10 ^ 9)) w' c in
      (w'', c'', elim r [ none ↦ some (err (timed_out what secs)) | some a ↦ some a ])

  -- The clock is read at every failure; the code reads it only where the count reaches the threshold,
  -- and its time is used only there.
  unfoldable pub record_failure : Call W (Unit {0})
  unfolding CircuitBreaker.record_failure
  record_failure d w c =
      let (w', now) = net.system_now w in
      (
        w',
        record c { circuit_breaker = CircuitBreaker.record_failure c.circuit_breaker now },
        some (ok tt),
      )
