-- ===== src/Proxmox/Call/Sends.antt =====
-- src/proxmox/client.rs: what a call sends, as a world that records its requests sees it, and what
-- it does to the client's ticket.
use moxui.Prelude.{
  ℕ, List, [], ◌∷◌, ◌++◌, Str, Option, none, some, Result, ok, err, ◌≡◌, refl, ap, ◌∙◌, arith, inl,
  inr,
}
use moxui.Prelude.Results.{reply-cases}
use moxui.Error.{AppError}
use moxui.Proxmox.Http.{HttpRequest, HttpResponse, Ticket, Net}
use moxui.Proxmox.Call.{
  ProxmoxClient, Call, done, fail, ◌>>=◌, record_success, record_failure, set_ticket, send, receive,
  decode, timeout,
}

-- `log` holds the requests sent, the last at its end; nothing but `send` adds to it.
pub record Records {W : Type 0} (net : Net W) (log : W → List HttpRequest) : Type 0 where
  pub send_log : (req : HttpRequest) (w : W) → log (net.send req w).0 ≡ log w ++ (req ∷ [])
  pub send_until_log :
      (t : ℕ) (req : HttpRequest) (w : W) → log (net.send_until t req w).0 ≡ log w ++ (req ∷ [])
  pub receive_log : (n : ℕ) (w : W) → log (net.receive n w).0 ≡ log w
  pub receive_until_log : (t n : ℕ) (w : W) → log (net.receive_until t n w).0 ≡ log w
  pub instant_log : (w : W) → log (net.instant w).0 ≡ log w
  pub utc_now_log : (w : W) → log (net.utc_now w).0 ≡ log w
  pub system_now_log : (w : W) → log (net.system_now w).0 ≡ log w

-- A call that leaves the client's ticket alone.
pub record Same {W A : Type 0} (m : Call W A) : Type 0 where
  pub same : (d : Option ℕ) (w : W) (c : ProxmoxClient) → (m d w c).1.ticket ≡ c.ticket

-- A call that ends well only with a ticket stored.
pub record Stores {W A : Type 0} (m : Call W A) : Type 0 where
  pub stores :
      (d : Option ℕ) (w : W) (c : ProxmoxClient) (a : A)
      → (m d w c).2 ≡ some (ok a)
      → (t : Ticket) × ((m d w c).1.ticket ≡ some t)

module _ {W : Type 0} where
  -- What follows a call runs exactly if the call ends well.
  pub bind-ok :
      {A B : Type 0} (m : Call W A) (f : A → Call W B) (d : Option ℕ) (w : W) (c : ProxmoxClient)
      (a : A)
      → (m d w c).2 ≡ some (ok a)
      → (m >>= f) d w c ≡ f a d (m d w c).0 (m d w c).1
  unfolding ◌>>=◌
  bind-ok m f d w c a e = rw (◌>>=◌, e) refl

  pub bind-none :
      {A B : Type 0} (m : Call W A) (f : A → Call W B) (d : Option ℕ) (w : W) (c : ProxmoxClient)
      → (m d w c).2 ≡ none
      → (m >>= f) d w c ≡ ((m d w c).0, (m d w c).1, none)
  unfolding ◌>>=◌
  bind-none m f d w c e = rw (◌>>=◌, e) refl

  pub bind-err :
      {A B : Type 0} (m : Call W A) (f : A → Call W B) (d : Option ℕ) (w : W) (c : ProxmoxClient)
      (x : AppError)
      → (m d w c).2 ≡ some (err x)
      → (m >>= f) d w c ≡ ((m d w c).0, (m d w c).1, some (err x))
  unfolding ◌>>=◌
  bind-err m f d w c x e = rw (◌>>=◌, e) refl

  pub bind-Same :
      {A B : Type 0} (m : Call W A) (f : A → Call W B)
      → Same m
      → ((a : A) → Same (f a))
      → Same (m >>= f)
  unfolding ◌>>=◌
  bind-Same m f hm hf = record {
    same = λ d w c. elim (reply-cases (m d w c).2) [
      | inl e ↦ rw (e, ◌>>=◌) (hm.same d w c)
      | inr (inl (a, e)) ↦ rw (e, ◌>>=◌) ((hf a).same d (m d w c).0 (m d w c).1 ∙ hm.same d w c)
      | inr (inr (x, e)) ↦ rw (e, ◌>>=◌) (hm.same d w c)
    ];
  }

  pub bind-Stores :
      {A B : Type 0} (m : Call W A) (f : A → Call W B) → ((a : A) → Stores (f a)) → Stores (m >>= f)
  unfolding ◌>>=◌
  bind-Stores m f hf = record {
    stores = λ d w c b h. elim (reply-cases (m d w c).2) [
      | inl e ↦ let g = rw (◌>>=◌, e) at h in ground (arith, g)
      | inr (inl (a, e)) ↦
          let g = rw (◌>>=◌, e) at h in rw (e, ◌>>=◌) ((hf a).stores d (m d w c).0 (m d w c).1 b g)
      | inr (inr (x, e)) ↦ let g = rw (◌>>=◌, e) at h in ground (arith, g)
    ];
  }

  pub fail-Stores : {A : Type 0} (e : AppError) → Stores {W = W} (fail {A = A} e)
  fail-Stores e = record { stores = λ d w c a h. ground (arith, h) }

  pub set_ticket-Stores : (t : Ticket) → Stores {W = W} (set_ticket t >>= λ _. record_success)
  unfolding set_ticket record_success ◌>>=◌
  set_ticket-Stores t = record { stores = λ d w c a h. (t, refl) }

  pub done-Same : {A : Type 0} (a : A) → Same {W = W} (done a)
  done-Same a = record { same = λ d w c. refl }

  pub fail-Same : {A : Type 0} (e : AppError) → Same {W = W} (fail {A = A} e)
  fail-Same e = record { same = λ d w c. refl }

  pub record_success-Same : Same {W = W} record_success
  unfolding record_success
  record_success-Same = record { same = λ d w c. refl }

-- A call that sends nothing, and one that sends exactly this request.
pub record Quiet {W A : Type 0} (log : W → List HttpRequest) (m : Call W A) : Type 0 where
  pub quiet : (d : Option ℕ) (w : W) (c : ProxmoxClient) → log (m d w c).0 ≡ log w

pub record Once {W A : Type 0} (log : W → List HttpRequest) (req : HttpRequest) (m : Call W A)
    : Type 0 where
  pub once : (d : Option ℕ) (w : W) (c : ProxmoxClient) → log (m d w c).0 ≡ log w ++ (req ∷ [])

module _ {W : Type 0} (log : W → List HttpRequest) where
  pub bind-Quiet :
      {A B : Type 0} (m : Call W A) (f : A → Call W B)
      → Quiet log m
      → ((a : A) → Quiet log (f a))
      → Quiet log (m >>= f)
  unfolding ◌>>=◌
  bind-Quiet m f hm hf = record {
    quiet = λ d w c. elim (reply-cases (m d w c).2) [
      | inl e ↦ rw (e, ◌>>=◌) (hm.quiet d w c)
      | inr (inl (a, e)) ↦ rw (e, ◌>>=◌) ((hf a).quiet d (m d w c).0 (m d w c).1 ∙ hm.quiet d w c)
      | inr (inr (x, e)) ↦ rw (e, ◌>>=◌) (hm.quiet d w c)
    ];
  }

  pub bind-Once :
      {A B : Type 0} (req : HttpRequest) (m : Call W A) (f : A → Call W B)
      → Once log req m
      → ((a : A) → Quiet log (f a))
      → Once log req (m >>= f)
  unfolding ◌>>=◌
  bind-Once req m f hm hf = record {
    once = λ d w c. elim (reply-cases (m d w c).2) [
      | inl e ↦ rw (e, ◌>>=◌) (hm.once d w c)
      | inr (inl (a, e)) ↦ rw (e, ◌>>=◌) ((hf a).quiet d (m d w c).0 (m d w c).1 ∙ hm.once d w c)
      | inr (inr (x, e)) ↦ rw (e, ◌>>=◌) (hm.once d w c)
    ];
  }

  pub done-Quiet : {A : Type 0} (a : A) → Quiet log (done a)
  done-Quiet a = record { quiet = λ d w c. refl }

  pub fail-Quiet : {A : Type 0} (e : AppError) → Quiet log (fail {A = A} e)
  fail-Quiet e = record { quiet = λ d w c. refl }

  pub record_success-Quiet : Quiet log record_success
  unfolding record_success
  record_success-Quiet = record { quiet = λ d w c. refl }

  pub set_ticket-Quiet : (t : Ticket) → Quiet log (set_ticket t)
  unfolding set_ticket
  set_ticket-Quiet t = record { quiet = λ d w c. refl }

module _ {W : Type 0} (net : Net W) where
  pub record_failure-Same : Same (record_failure net)
  unfolding record_failure
  record_failure-Same = record { same = λ d w c. refl }

  send-ticket :
      (req : HttpRequest) (d : Option ℕ) (w : W) (c : ProxmoxClient)
      → (send net req d w c).1.ticket ≡ c.ticket
  unfolding send
  send-ticket req none w c = refl
  send-ticket req (some t) w c = refl

  pub send-Same : (req : HttpRequest) → Same (send net req)
  send-Same req = record { same = send-ticket req }

  receive-ticket :
      (resp : HttpResponse) (d : Option ℕ) (w : W) (c : ProxmoxClient)
      → (receive net resp d w c).1.ticket ≡ c.ticket
  unfolding receive
  receive-ticket resp none w c = refl
  receive-ticket resp (some t) w c = refl

  pub decode-Same :
      {T : Type 0} (parse : Str → Result T Str) (resp : HttpResponse) → Same (decode net parse resp)
  unfolding decode
  decode-Same parse resp =
      bind-Same _ _ (record { same = receive-ticket resp }) λ text. record { same = λ d w c. refl }

  pub timeout-Same :
      {A : Type 0} (secs : ℕ) (what : Str) (m : Call W A) → Same m → Same (timeout net secs what m)
  unfolding timeout
  timeout-Same secs what m h = record { same = λ d w c. h.same _ _ c }

module _ {W : Type 0} (net : Net W) (log : W → List HttpRequest) (rec : Records net log) where
  pub record_failure-Quiet : Quiet log (record_failure net)
  unfolding record_failure
  record_failure-Quiet = record { quiet = λ d w c. rec.system_now_log w }

  send-log :
      (req : HttpRequest) (d : Option ℕ) (w : W) (c : ProxmoxClient)
      → log (send net req d w c).0 ≡ log w ++ (req ∷ [])
  unfolding send
  send-log req none w c = rec.send_log req w
  send-log req (some t) w c = rec.send_until_log t req w

  pub send-Once : (req : HttpRequest) → Once log req (send net req)
  send-Once req = record { once = send-log req }

  receive-log :
      (resp : HttpResponse) (d : Option ℕ) (w : W) (c : ProxmoxClient)
      → log (receive net resp d w c).0 ≡ log w
  unfolding receive
  receive-log resp none w c = rec.receive_log resp.connection w
  receive-log resp (some t) w c = rec.receive_until_log t resp.connection w

  pub decode-Quiet :
      {T : Type 0} (parse : Str → Result T Str) (resp : HttpResponse)
      → Quiet log (decode net parse resp)
  unfolding decode
  decode-Quiet parse resp =
      bind-Quiet log _ _ (record { quiet = receive-log resp })
        λ text. record { quiet = λ d w c. refl }

  pub timeout-Once :
      {A : Type 0} (req : HttpRequest) (secs : ℕ) (what : Str) (m : Call W A)
      → Once log req m
      → Once log req (timeout net secs what m)
  unfolding timeout
  timeout-Once req secs what m h = record {
    once = λ d w c. h.once _ _ c ∙ ap (λ l. l ++ (req ∷ [])) (rec.instant_log w);
  }
