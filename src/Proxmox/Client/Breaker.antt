-- ===== src/Proxmox/Client/Breaker.antt =====
-- src/proxmox/client.rs: what the calls tell the circuit breaker.
use moxui.Prelude.{
  ℕ, Str, Bool, true, false, Option, none, some, Result, ok, err, ◌≡◌, refl, ap, ◌∙◌, inl, inr,
  Bool-cases,
}
use moxui.Prelude.Results.{reply-cases}
use moxui.Error.{AppError}
use moxui.Proxmox.CircuitBreaker
use moxui.Proxmox.CircuitBreaker.{CircuitBreaker}
use moxui.Proxmox.Http.{HttpResponse, Net}
use moxui.Proxmox.Call.{ProxmoxClient, ◌>>=◌, record_success, record_failure, receive, decode}
use moxui.Proxmox.Call.Sends.{bind-ok, bind-none, bind-err}
use moxui.Proxmox.Client.{handle_response}

-- A status that is no success is a failure at the clock's reading, an answer that decodes is a
-- success, and a body that is not read or does not decode is neither.
abbrev pub judged :
    {A : Type 0} → Bool → Option (Result A AppError) → ℕ → CircuitBreaker → CircuitBreaker
judged false r now b = CircuitBreaker.record_failure b now
judged true (some (ok a)) now b = CircuitBreaker.record_success b
judged true (some (err e)) now b = b
judged true none now b = b

module _ {W : Type 0} (net : Net W) where
  receive-client :
      (resp : HttpResponse) (d : Option ℕ) (w : W) (c : ProxmoxClient)
      → (receive net resp d w c).1 ≡ c
  unfolding receive
  receive-client resp none w c = refl
  receive-client resp (some t) w c = refl

  decode-client :
      {T : Type 0} (parse : Str → Result T Str) (resp : HttpResponse) (d : Option ℕ) (w : W)
      (c : ProxmoxClient)
      → (decode net parse resp d w c).1 ≡ c
  unfolding decode
  decode-client parse resp d w c =
      let kept = receive-client resp d w c in
      elim (reply-cases (receive net resp d w c).2) [
        | inl e ↦ ap (λ x. x.1) (bind-none (receive net resp) _ d w c e) ∙ kept
        | inr (inl (a, e)) ↦ ap (λ x. x.1) (bind-ok (receive net resp) _ d w c a e) ∙ kept
        | inr (inr (x, e)) ↦ ap (λ y. y.1) (bind-err (receive net resp) _ d w c x e) ∙ kept
      ]

  -- What a response tells the breaker: a failure at the clock's reading for a status that is no
  -- success, a success for a body that decodes, and nothing for one that is not read or does not.
  pub handle_response-breaker :
      {T : Type 0} (parse : Str → Result T Str) (resp : HttpResponse) (d : Option ℕ) (w : W)
      (c : ProxmoxClient)
      → (handle_response net parse resp d w c).1.circuit_breaker
        ≡ judged
            (net.is_success resp.status)
            (handle_response net parse resp d w c).2
            (net.system_now w).1
            c.circuit_breaker
  unfolding handle_response record_success record_failure ◌>>=◌
  handle_response-breaker parse resp d w c = elim (Bool-cases (net.is_success resp.status)) [
    | inl y ↦
        let same = decode-client parse resp d w c in
        elim (reply-cases (decode net parse resp d w c).2) [
          | inl e ↦ rw (handle_response, y, ◌>>=◌, e) (ap (λ x. x.circuit_breaker) same)
          | inr (inl (a, e)) ↦
              rw (handle_response, y, ◌>>=◌, e)
                (ap (λ x. CircuitBreaker.record_success x.circuit_breaker) same)
          | inr (inr (x, e)) ↦ rw (handle_response, y, ◌>>=◌, e) (ap (λ x. x.circuit_breaker) same)
        ]
    | inr y ↦ rw (handle_response, y) refl
  ]
