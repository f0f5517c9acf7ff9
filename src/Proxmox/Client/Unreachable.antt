-- ===== src/Proxmox/Client/Unreachable.antt =====
-- src/proxmox/client.rs: a cluster that cannot be reached, and its circuit breaker.
use moxui.Prelude.{
  ℕ, ◌+◌, ◌*◌, ◌^◌, List, Str, codes, Bool, true, false, Option, none, some, Result, err, ◌≡◌, refl,
  ap, ◌∙◌, if◌then◌else◌, ◌⊎◌, inl, inr,
}
use moxui.Prelude.Results.{reply-cases}
use moxui.Error.{AppError, proxmox}
use moxui.Proxmox.Http.{HttpRequest, HttpResponse, Ticket, Net}
use moxui.Proxmox.Call.{ProxmoxClient, Call, done, ◌>>=◌, send, timeout, transport}
use moxui.Proxmox.Call.Sends.{bind-ok, bind-none, bind-err}
use moxui.Proxmox.Types.{VmResource}
use moxui.Proxmox.Client.Vms.{list_vms}
use moxui.Proxmox.Client.Cluster.{ping}
use moxui.Proxmox.Client.{
  self, login, login_request, read_request, ensure_ticket, current_ticket, exposed, should_refresh,
  get, list_vms_timeout_secs, ping_timeout_secs,
}

-- No request gets a response: each ends with a transport error, such as a refused connection, or
-- with the deadline of the `timeout` around it.
abbrev pub Unreachable : {W : Type 0} → Net W → Type 0
Unreachable {W = W} net =
    (req : HttpRequest) (w : W)
    → ((reason : Str) × ((net.send req w).1 ≡ err reason))
      × ((t : ℕ)
          → ((net.send_until t req w).1 ≡ none)
            ⊎ ((reason : Str) × ((net.send_until t req w).1 ≡ some (err reason))))

-- An answer that a deadline may have cut off.
abbrev until : {A : Type 0} → Option (Result A Str) → Option (Result A AppError)
until r = elim r [ none ↦ none | some a ↦ some (transport a) ]

-- A call that leaves its client as it was, whatever the deadline.
pub record Still {W A : Type 0} (m : Call W A) : Type 0 where
  pub still : (d : Option ℕ) (w : W) (c : ProxmoxClient) → (m d w c).1 ≡ c

module _ {W : Type 0} where
  bind-Still :
      {A B : Type 0} (m : Call W A) (f : A → Call W B)
      → Still m
      → ((a : A) → Still (f a))
      → Still (m >>= f)
  bind-Still m f hm hf = record {
    still = λ d w c. elim (reply-cases (m d w c).2) [
      | inl e ↦ ap (λ x. x.1) (bind-none m f d w c e) ∙ hm.still d w c
      | inr (inl (a, e)) ↦
          ap (λ x. x.1) (bind-ok m f d w c a e)
          ∙ ((hf a).still d (m d w c).0 (m d w c).1 ∙ hm.still d w c)
      | inr (inr (x, e)) ↦ ap (λ y. y.1) (bind-err m f d w c x e) ∙ hm.still d w c
    ];
  }

  if-Still :
      {A : Type 0} (b : Bool) (m n : Call W A) → Still m → Still n → Still (if b then m else n)
  if-Still true m n hm hn = hm
  if-Still false m n hm hn = hn

  done-Still : {A : Type 0} (a : A) → Still {W = W} (done a)
  done-Still a = record { still = λ d w c. refl }

module _ {W : Type 0} (net : Net W) (down : Unreachable net) where
  -- What would follow a request does not run.
  send-Still :
      {A : Type 0} (req : HttpRequest) (f : HttpResponse → Call W A) → Still (send net req >>= f)
  unfolding send
  send-Still req f = record { still = λ d w c. answer d w c }
    where
      answer : (d : Option ℕ) (w : W) (c : ProxmoxClient) → ((send net req >>= f) d w c).1 ≡ c
      answer none w c =
          let (reason, e) = (down req w).0 in
          ap (λ y. y.1)
            (bind-err (send net req) f none w c (proxmox reason) (ap (λ r. some (transport r)) e))
      answer (some t) w c = elim ((down req w).1 t) [
        | inl e ↦ ap (λ y. y.1) (bind-none (send net req) f (some t) w c (ap until e))
        | inr (reason, e) ↦
            ap (λ y. y.1) (bind-err (send net req) f (some t) w c (proxmox reason) (ap until e))
      ]

  timeout-Still :
      {A : Type 0} (secs : ℕ) (what : Str) (m : Call W A)
      → Still m
      → Still (timeout net secs what m)
  unfolding timeout
  timeout-Still secs what m hm = record {
    still = λ d w c. hm.still (some ((net.instant w).1 + secs * 10 ^ 9)) (net.instant w).0 c;
  }

  self-Still : Still (self net)
  self-Still = record { still = λ d w c. refl }

  exposed-Still : (o : Option Ticket) → Still (exposed net o)
  unfolding exposed
  exposed-Still none = record { still = λ d w c. refl }
  exposed-Still (some t) = done-Still t

  current_ticket-Still : Still (current_ticket net)
  unfolding current_ticket ensure_ticket should_refresh login
  current_ticket-Still =
      bind-Still _ _
        (bind-Still _ _ (record { still = λ d w c. refl })
          λ due.
            if-Still due _ _ (bind-Still _ _ self-Still λ c. send-Still (login_request c) _)
              (done-Still tt))
        λ u. bind-Still _ _ self-Still λ c. exposed-Still c.ticket

  read-Still : {T : Type 0} (parse : Str → Result T Str) (path : Str) → Still (get net parse path)
  unfolding get
  read-Still parse path =
      bind-Still _ _ current_ticket-Still
        λ t. bind-Still _ _ self-Still λ c. send-Still (read_request c path t) _

  -- Where no request gets a response, neither in time nor late, a read leaves the client as it was,
  -- under every deadline and under none, and so do the list of the VMs and the ping, which set one of
  -- their own: the circuit breaker is told of no failure, however often the cluster is asked.
  pub get-Still :
      {T : Type 0} (parse : Str → Result T Str) (vms : Str → Result (List VmResource) Str)
      (path : Str) (d : Option ℕ) (w : W) (c : ProxmoxClient)
      → ((get net parse path d w c).1 ≡ c)
        × ((list_vms net vms d w c).1 ≡ c)
        × ((ping net parse d w c).1 ≡ c)
  unfolding list_vms ping
  get-Still parse vms path d w c = (
    (read-Still parse path).still d w c,
    (timeout-Still list_vms_timeout_secs (codes "list_vms") _ (read-Still vms _)).still d w c,
    (bind-Still _ _ (timeout-Still ping_timeout_secs (codes "ping") _ (read-Still parse _))
          λ a. done-Still tt).still
        d w c,
  )
