-- ===== src/Proxmox/Client/Tickets.antt =====
-- src/proxmox/client.rs: how a call comes by its ticket, and what is sent for it.
use moxui.Prelude.{
  ℕ, List, [], ◌∷◌, ◌++◌, Str, codes, Bool, true, false, Option, none, some, Result, ok, err, ◌≡◌,
  refl, ap, ◌∙◌, ◌⊎◌, if◌then◌else◌, inl, inr, Bool-cases,
}
use moxui.Prelude.Results.{reply-cases}
use moxui.Error.{AppError, proxmox}
use moxui.Proxmox.Http.{HttpRequest, HttpResponse, Ticket, Net}
use moxui.Proxmox.Call.{ProxmoxClient, Call, done, ◌>>=◌, send}
use moxui.Proxmox.Call.Sends.{
  Records, Same, Stores, Quiet, bind-ok, bind-none, bind-err, bind-Same, bind-Stores, fail-Stores,
  set_ticket-Stores, fail-Same, done-Same, record_success-Same, record_failure-Same, decode-Same,
  bind-Quiet, bind-Once, done-Quiet, fail-Quiet, record_success-Quiet, set_ticket-Quiet,
  record_failure-Quiet, send-Once, decode-Quiet,
}
use moxui.Proxmox.Client.Steady.{login-Steady}
use moxui.Proxmox.Client.{
  self, login, login_request, is_due, look_at, should_refresh, ensure_ticket, exposed,
  current_ticket, handle_response,
}

module _ {W : Type 0} (net : Net W) where
  pub self-Same : Same (self net)
  self-Same = record { same = λ d w c. refl }

  login-Stores : Stores (login net)
  unfolding login
  login-Stores = bind-Stores _ _ λ c. bind-Stores _ _ λ resp.
      elim (Bool-cases (net.is_success resp.status)) [
        | inl y ↦ rw y (bind-Stores _ _ λ t. set_ticket-Stores t)
        | inr y ↦ rw y (bind-Stores _ _ λ u. fail-Stores _)
      ]

  if-Same : {A : Type 0} (b : Bool) (m n : Call W A) → Same m → Same n → Same (if b then m else n)
  if-Same true m n hm hn = hm
  if-Same false m n hm hn = hn

  if-Quiet :
      {A : Type 0} (log : W → List HttpRequest) (b : Bool) (m n : Call W A)
      → Quiet log m
      → Quiet log n
      → Quiet log (if b then m else n)
  if-Quiet log true m n hm hn = hm
  if-Quiet log false m n hm hn = hn

  pub handle_response-Same :
      {T : Type 0} (parse : Str → Result T Str) (resp : HttpResponse)
      → Same (handle_response net parse resp)
  unfolding handle_response
  handle_response-Same parse resp =
      if-Same (net.is_success resp.status) _ _
        (bind-Same _ _ (decode-Same net parse resp)
          λ value. bind-Same _ _ record_success-Same λ u. done-Same value)
        (bind-Same _ _ (record_failure-Same net) λ u. fail-Same _)

  module _ (log : W → List HttpRequest) (rec : Records net log) where
    login-log :
        (d : Option ℕ) (w : W) (c : ProxmoxClient)
        → log (login net d w c).0 ≡ log w ++ (login_request c ∷ [])
    unfolding login ◌>>=◌
    login-log d w c =
        (bind-Once log (login_request c) (send net (login_request c)) _
            (send-Once net log rec (login_request c))
            λ resp.
              if-Quiet log (net.is_success resp.status) _ _
                (bind-Quiet log _ _ (decode-Quiet net log rec net.parse_ticket resp)
                  λ t. bind-Quiet log _ _ (set_ticket-Quiet log t) λ u. record_success-Quiet log)
                (bind-Quiet log _ _ (record_failure-Quiet net log rec) λ u. fail-Quiet log (
                  proxmox (codes "Login failed with status " ++ net.status_text resp.status)))).once
          d w c

    pub handle_response-Quiet :
        {T : Type 0} (parse : Str → Result T Str) (resp : HttpResponse)
        → Quiet log (handle_response net parse resp)
    unfolding handle_response
    handle_response-Quiet parse resp =
        if-Quiet log (net.is_success resp.status) _ _
          (bind-Quiet log _ _ (decode-Quiet net log rec parse resp)
            λ value. bind-Quiet log _ _ (record_success-Quiet log) λ u. done-Quiet log value)
          (bind-Quiet log _ _ (record_failure-Quiet net log rec) λ u. fail-Quiet log _)

    -- `ensure_ticket` after a look at the ticket `o`.
    ensured : Option Ticket → Call W (Unit {0})
    ensured o d w c = let (w', due) = look_at net o w in (if due then login net else done tt) d w' c

    -- Either a login is made, or the ticket at hand is good.
    ensured-cases :
        (o : Option Ticket) (d : Option ℕ) (w : W) (c : ProxmoxClient)
        → (w' : W) × (log w' ≡ log w)
          × ((ensured o d w c ≡ login net d w' c)
              ⊎ ((t : Ticket) × (o ≡ some t) × (ensured o d w c ≡ (w', c, some (ok tt)))))
    unfolding ensured look_at
    ensured-cases none d w c = (w, refl, inl refl)
    ensured-cases (some t) d w c =
        let now = net.utc_now w in
        elim (Bool-cases (is_due t now.1)) [
          | inl y ↦ (now.0, rec.utc_now_log w, inl (rw (ensured, look_at, y) refl))
          | inr y ↦ (now.0, rec.utc_now_log w, inr (t, refl, rw (ensured, look_at, y) refl))
        ]

    ensure_ticket-cases :
        (d : Option ℕ) (w : W) (c : ProxmoxClient)
        → (w' : W) × (log w' ≡ log w)
          × ((ensure_ticket net d w c ≡ login net d w' c)
              ⊎ ((t : Ticket) × (c.ticket ≡ some t)
                  × (ensure_ticket net d w c ≡ (w', c, some (ok tt)))))
    unfolding ensure_ticket should_refresh ensured ◌>>=◌
    ensure_ticket-cases d w c = ensured-cases c.ticket d w c

    -- The ticket of a call: the one at hand, the one of a login, or none as the login failed.
    pub data Ticketed (d : Option ℕ) (w : W) (c : ProxmoxClient) : Type 0 where
      stored :
          (t : Ticket) (w' : W)
          → log w' ≡ log w
          → c.ticket ≡ some t
          → current_ticket net d w c ≡ (w', c, some (ok t))
          → Ticketed d w c
      renewed :
          (t : Ticket) (w' : W) (c' : ProxmoxClient)
          → log w' ≡ log w ++ (login_request c ∷ [])
          → c'.ticket ≡ some t
          → c'.config ≡ c.config
          → current_ticket net d w c ≡ (w', c', some (ok t))
          → Ticketed d w c
      refused :
          (w' : W) (c' : ProxmoxClient)
          → log w' ≡ log w ++ (login_request c ∷ [])
          → ((current_ticket net d w c ≡ (w', c', none))
              ⊎ ((e : AppError) × (current_ticket net d w c ≡ (w', c', some (err e)))))
          → Ticketed d w c

    read_ticket : Call W Ticket
    read_ticket = self net >>= λ c. exposed net c.ticket

    read_ticket-some :
        (d : Option ℕ) (w : W) (c : ProxmoxClient) (t : Ticket)
        → c.ticket ≡ some t
        → read_ticket d w c ≡ (w, c, some (ok t))
    unfolding read_ticket exposed ◌>>=◌
    read_ticket-some d w c t e = ap (λ o. exposed net o d w c) e

    -- `current_ticket` once the result of `ensure_ticket` is known.
    current_ticket-ok :
        (d : Option ℕ) (w w' : W) (c c' : ProxmoxClient) (t : Ticket)
        → ensure_ticket net d w c ≡ (w', c', some (ok tt))
        → c'.ticket ≡ some t
        → current_ticket net d w c ≡ (w', c', some (ok t))
    unfolding current_ticket read_ticket
    current_ticket-ok d w w' c c' t q s =
        bind-ok (ensure_ticket net) (λ u. read_ticket) d w c tt (ap (λ x. x.2) q)
        ∙ (ap
              (λ (x : W × ProxmoxClient × Option (Result (Unit {0}) AppError)).
                read_ticket d x.0 x.1)
              q
            ∙ read_ticket-some d w' c' t s)

    current_ticket-none :
        (d : Option ℕ) (w w' : W) (c c' : ProxmoxClient)
        → ensure_ticket net d w c ≡ (w', c', none)
        → current_ticket net d w c ≡ (w', c', none)
    unfolding current_ticket
    current_ticket-none d w w' c c' q =
        bind-none (ensure_ticket net) _ d w c (ap (λ x. x.2) q)
        ∙ ap (λ (x : W × ProxmoxClient × Option (Result (Unit {0}) AppError)). (x.0, x.1, none)) q

    current_ticket-err :
        (d : Option ℕ) (w w' : W) (c c' : ProxmoxClient) (x : AppError)
        → ensure_ticket net d w c ≡ (w', c', some (err x))
        → current_ticket net d w c ≡ (w', c', some (err x))
    unfolding current_ticket
    current_ticket-err d w w' c c' x q =
        bind-err (ensure_ticket net) _ d w c x (ap (λ y. y.2) q)
        ∙ ap
            (λ (y : W × ProxmoxClient × Option (Result (Unit {0}) AppError)).
              (y.0, y.1, some (err x)))
            q

    after_login :
        (d : Option ℕ) (w w' : W) (c : ProxmoxClient)
        → log w' ≡ log w
        → ensure_ticket net d w c ≡ login net d w' c
        → Ticketed d w c
    after_login d w w' c l q =
        let w1 : W = (login net d w' c).0 in
        let c1 : ProxmoxClient = (login net d w' c).1 in
        let sent : log w1 ≡ log w ++ (login_request c ∷ []) =
          login-log d w' c ∙ ap (λ x. x ++ (login_request c ∷ [])) l in
        elim (reply-cases (login net d w' c).2) [
          | inl e ↦
              refused w1 c1 sent
                (inl (current_ticket-none d w w1 c c1 (q ∙ ap (λ r. (w1, c1, r)) e)))
          | inr (inl (u, e)) ↦
              let (t, s) = login-Stores.stores d w' c u e in
              renewed t w1 c1 sent s ((login-Steady net).follows d w' c).0
                (current_ticket-ok d w w1 c c1 t (q ∙ ap (λ r. (w1, c1, r)) e) s)
          | inr (inr (x, e)) ↦
              refused w1 c1 sent
                (inr (x, current_ticket-err d w w1 c c1 x (q ∙ ap (λ r. (w1, c1, r)) e)))
        ]

    pub ticketed : (d : Option ℕ) (w : W) (c : ProxmoxClient) → Ticketed d w c
    ticketed d w c =
        let (w', l, cases) = ensure_ticket-cases d w c in
        elim cases [
          | inl q ↦ after_login d w w' c l q
          | inr (t, e, q) ↦ stored t w' l e (current_ticket-ok d w w' c c t q e)
        ]
