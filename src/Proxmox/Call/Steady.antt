-- ===== src/Proxmox/Call/Steady.antt =====
-- src/proxmox/client.rs: what no call does to its client, whatever the cluster answers.
use moxui.Prelude.{
  ℕ, ◌+◌, ◌*◌, ◌^◌, Str, Option, none, some, Result, ok, err, ◌≡◌, refl, ◌∙◌, arith, inl, inr,
  Option-cases,
}
use moxui.Prelude.Results.{reply-cases}
use moxui.Error.{AppError}
use moxui.Proxmox.Http.{HttpRequest, HttpResponse, Ticket, Net}
use moxui.Proxmox.Call.{
  ProxmoxClient, Call, done, fail, ◌>>=◌, attempt, record_success, record_failure, set_ticket, send,
  receive, decode, timeout, timed_out, transport,
}

-- A client that has a ticket still has one, and is still configured in the same way.
abbrev pub Follows : ProxmoxClient → ProxmoxClient → Type 0
Follows c c' =
    (c'.config ≡ c.config)
    × ((t : Ticket) → c.ticket ≡ some t → (t' : Ticket) × (c'.ticket ≡ some t'))

Follows-refl : (c : ProxmoxClient) → Follows c c
Follows-refl c = (refl, λ t e. (t, e))

Follows-trans : (a b c : ProxmoxClient) → Follows a b → Follows b c → Follows a c
Follows-trans a b c f g = (g.0 ∙ f.0, λ t e. let (t', e') = f.1 t e in g.1 t' e')

-- A call leaves its client so, and outside a `timeout` it is never given up.
pub record Steady {W A : Type 0} (m : Call W A) : Type 0 where
  pub follows : (d : Option ℕ) (w : W) (c : ProxmoxClient) → Follows c (m d w c).1
  pub completes : (w : W) (c : ProxmoxClient) → (r : Result A AppError) × ((m none w c).2 ≡ some r)

module _ {W : Type 0} where
  pub done-Steady : {A : Type 0} (a : A) → Steady {W = W} (done a)
  done-Steady a = record { follows = λ d w c. Follows-refl c; completes = λ w c. (ok a, refl) }

  pub fail-Steady : {A : Type 0} (e : AppError) → Steady {W = W} (fail {A = A} e)
  fail-Steady e = record { follows = λ d w c. Follows-refl c; completes = λ w c. (err e, refl) }

  -- A call followed by steady ones is steady.
  pub bind-Steady :
      {A B : Type 0} (m : Call W A) (f : A → Call W B)
      → Steady m
      → ((a : A) → Steady (f a))
      → Steady (m >>= f)
  unfolding ◌>>=◌
  bind-Steady m f hm hf = record {
    follows = λ d w c. elim (reply-cases (m d w c).2) [
      | inl e ↦ rw (e, ◌>>=◌) (hm.follows d w c)
      | inr (inl (a, e)) ↦
          rw (e, ◌>>=◌)
            (Follows-trans c (m d w c).1 (f a d (m d w c).0 (m d w c).1).1 (hm.follows d w c)
              ((hf a).follows d (m d w c).0 (m d w c).1))
      | inr (inr (x, e)) ↦ rw (e, ◌>>=◌) (hm.follows d w c)
    ];
    completes = λ w c.
        let (r, e) = hm.completes w c in
        elim (reply-cases (m none w c).2) [
          | inl q ↦ ground (arith, q, e)
          | inr (inl (a, q)) ↦ rw (q, ◌>>=◌) ((hf a).completes (m none w c).0 (m none w c).1)
          | inr (inr (x, q)) ↦ rw (q, ◌>>=◌) (err x, refl)
        ];
  }

  pub attempt-Steady : {A : Type 0} (m : Call W A) → Steady m → Steady (attempt m)
  unfolding attempt
  attempt-Steady m h = record {
    follows = λ d w c. h.follows d w c;
    completes = λ w c. let (r, e) = h.completes w c in rw e (ok r, refl);
  }

  pub record_success-Steady : Steady {W = W} record_success
  unfolding record_success
  record_success-Steady = record {
    follows = λ d w c. (refl, λ t e. (t, e));
    completes = λ w c. (ok tt, refl);
  }

  pub set_ticket-Steady : (t : Ticket) → Steady {W = W} (set_ticket t)
  unfolding set_ticket
  set_ticket-Steady t = record {
    follows = λ d w c. (refl, λ t' e. (t, refl));
    completes = λ w c. (ok tt, refl);
  }

module _ {W : Type 0} (net : Net W) where
  pub record_failure-Steady : Steady (record_failure net)
  unfolding record_failure
  record_failure-Steady = record {
    follows = λ d w c. (refl, λ t e. (t, e));
    completes = λ w c. (ok tt, refl);
  }

  send-Follows :
      (req : HttpRequest) (d : Option ℕ) (w : W) (c : ProxmoxClient)
      → Follows c (send net req d w c).1
  unfolding send
  send-Follows req none w c = Follows-refl c
  send-Follows req (some t) w c = Follows-refl c

  pub send-Steady : (req : HttpRequest) → Steady (send net req)
  unfolding send
  send-Steady req = record {
    follows = send-Follows req;
    completes = λ w c. (transport (net.send req w).1, refl);
  }

  receive-Follows :
      (resp : HttpResponse) (d : Option ℕ) (w : W) (c : ProxmoxClient)
      → Follows c (receive net resp d w c).1
  unfolding receive
  receive-Follows resp none w c = Follows-refl c
  receive-Follows resp (some t) w c = Follows-refl c

  receive-Steady : (resp : HttpResponse) → Steady (receive net resp)
  unfolding receive
  receive-Steady resp = record {
    follows = receive-Follows resp;
    completes = λ w c. (transport (net.receive resp.connection w).1, refl);
  }

  pub decode-Steady :
      {T : Type 0} (parse : Str → Result T Str) (resp : HttpResponse)
      → Steady (decode net parse resp)
  unfolding decode
  decode-Steady parse resp = bind-Steady _ _ (receive-Steady resp) λ text. record {
    follows = λ d w c. Follows-refl c;
    completes = λ w c. (transport (parse text), refl);
  }

  -- Under a `timeout` of its own even a call that is given up ends with a result.
  pub timeout-Steady :
      {A : Type 0} (secs : ℕ) (what : Str) (m : Call W A)
      → Steady m
      → Steady (timeout net secs what m)
  unfolding timeout
  timeout-Steady secs what m h = record {
    follows = λ d w c. h.follows _ _ c;
    completes = λ w c.
        let now = net.instant w in
        elim (Option-cases (m (some (now.1 + secs * 10 ^ 9)) now.0 c).2) [
          | inl e ↦ rw e (err (timed_out what secs), refl)
          | inr (r, e) ↦ rw e (r, refl)
        ];
  }
