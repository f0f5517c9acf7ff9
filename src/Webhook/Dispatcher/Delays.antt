-- ===== src/Webhook/Dispatcher/Delays.antt =====
-- src/webhook/dispatcher.rs: how often and how long the delivery is tried.
use moxui.Prelude.{
  ℕ, zero, suc, ◌+◌, ◌-◌, ◌%◌, ◌^◌, ◌≤◌, ◌<◌, Str, Bool, true, false, Result, ok, ◌≡◌, refl, arith,
  inl, inr,
}
use moxui.Prelude.Results.{Result-cases}
use native.Mathlib.Nat.{pow-succ'}
use moxui.Webhook.{WebhookEndpoint}
use moxui.Webhook.Dispatcher.{
  Post, Network, deliver_once, attempt_once, request_of, delay_secs, attempts, deliver_with_retry,
}

-- Meters of what was sent and of the seconds that were slept.
pub record Metered {W : Type 0} (net : Network W) : Type 0 where
  pub sent : W → ℕ
  pub slept : W → ℕ
  pub send-sent : (p : Post) (w : W) → sent (net.send p w).0 ≡ sent w + 1
  pub send-slept : (p : Post) (w : W) → slept (net.send p w).0 ≡ slept w
  pub build-sent : (t : ℕ) (w : W) → sent (net.build t w).0 ≡ sent w
  pub build-slept : (t : ℕ) (w : W) → slept (net.build t w).0 ≡ slept w
  pub sleep-sent : (n : ℕ) (w : W) → sent (net.sleep n w) ≡ sent w
  pub sleep-slept : (n : ℕ) (w : W) → slept (net.sleep n w) ≡ slept w + n

pow_double : (b : ℕ) → 2 ^ suc b ≡ 2 ^ b + 2 ^ b
pow_double b = omega (arith, pow-succ' 2 b)

pow_le : (b l : ℕ) → 2 ^ b ≤ 2 ^ (b + l)
pow_le b zero = let e : b + 0 ≡ b = omega arith in rw e (omega arith)
pow_le b (suc l) =
    let e : b + suc l ≡ suc (b + l) = omega arith in
    rw e (omega (arith, pow_double (b + l), pow_le b l))

delay_secs_lem : (b : ℕ) → b < 64 → delay_secs (b + 1) ≡ 2 ^ b
unfolding delay_secs
delay_secs_lem b h = let e : (b + 1 - 1) % 64 ≡ b = omega arith in rw e refl

true-ne-false : true ≡ false → ⊥
true-ne-false e = cc

module _ {W : Type 0} (net : Network W) (meters : Metered net) (hmac : Str → Str → Result Str Str)
    (status_text : ℕ → Str) (endpoint : WebhookEndpoint) (body : Str) (timeout : ℕ)
    (builds : (w : W) → (net.build timeout w).1 ≡ ok tt) where
  open meters use {sent, slept}

  -- What one attempt does, once the client is built.
  deliver_once-send :
      (w : W)
      → (deliver_once net hmac status_text endpoint body timeout w).0
        ≡ (net.send
            (request_of net hmac status_text endpoint body timeout)
            (net.build timeout w).0).0
  unfolding deliver_once
  deliver_once-send w = let e = builds w in rw (deliver_once, e) refl

  deliver_once-sent :
      (w : W) → sent (deliver_once net hmac status_text endpoint body timeout w).0 ≡ sent w + 1
  deliver_once-sent w =
      let post = request_of net hmac status_text endpoint body timeout in
      rw (deliver_once-send w)
        (omega (arith, meters.send-sent post (net.build timeout w).0, meters.build-sent timeout w))

  deliver_once-slept :
      (w : W) → slept (deliver_once net hmac status_text endpoint body timeout w).0 ≡ slept w
  deliver_once-slept w =
      let post = request_of net hmac status_text endpoint body timeout in
      rw (deliver_once-send w) (
        omega (arith, meters.send-slept post (net.build timeout w).0, meters.build-slept timeout w))

  first-sent :
      (w : W) → sent (attempt_once net hmac status_text endpoint body timeout 0 w).0 ≡ sent w + 1
  unfolding attempt_once
  first-sent w = deliver_once-sent w

  first-slept :
      (w : W) → slept (attempt_once net hmac status_text endpoint body timeout 0 w).0 ≡ slept w
  unfolding attempt_once
  first-slept w = deliver_once-slept w

  later-sent :
      (b : ℕ) (w : W)
      → sent (attempt_once net hmac status_text endpoint body timeout (b + 1) w).0 ≡ sent w + 1
  unfolding attempt_once
  later-sent b w =
      let waited = net.sleep (delay_secs (b + 1)) w in
      ground (arith, deliver_once-sent waited, meters.sleep-sent (delay_secs (b + 1)) w)

  later-slept :
      (b : ℕ) (w : W)
      → b < 64
      → slept (attempt_once net hmac status_text endpoint body timeout (b + 1) w).0
        ≡ slept w + 2 ^ b
  unfolding attempt_once
  later-slept b w h =
      let waited = net.sleep (delay_secs (b + 1)) w in
      ground (
        arith,
        deliver_once-slept waited,
        meters.sleep-slept (delay_secs (b + 1)) w,
        delay_secs_lem b h,
      )

  -- The attempts from `b + 1` on: each is sent once, after twice the delay of the one before. All are
  -- made if none succeeds.
  record Bounded (left b : ℕ) (w w' : W) (delivered : Bool) : Type 0 where
    at_least_sent : sent w ≤ sent w'
    at_most_sent : sent w' ≤ sent w + left
    at_most_slept : slept w' + 2 ^ b ≤ slept w + 2 ^ (b + left)
    if_failed_sent : delivered ≡ false → sent w' ≡ sent w + left
    if_failed_slept : delivered ≡ false → slept w' + 2 ^ b ≡ slept w + 2 ^ (b + left)

  -- One attempt, followed by those that are left if it fails.
  Bounded-next :
      (left b : ℕ) {w w1 w' : W} {delivered : Bool}
      → sent w1 ≡ sent w + 1
      → slept w1 ≡ slept w + 2 ^ b
      → Bounded left (suc b) w1 w' delivered
      → Bounded (suc left) b w w' delivered
  Bounded-next left b s l rest =
      let e : b + suc left ≡ suc b + left = omega arith in
      let double = pow_double b in
      record {
        at_least_sent = omega (arith, rest.at_least_sent);
        at_most_sent = omega (arith, rest.at_most_sent);
        at_most_slept = rw e (omega (arith, rest.at_most_slept));
        if_failed_sent = λ f. omega (arith, rest.if_failed_sent f);
        if_failed_slept = λ f. rw e (omega (arith, rest.if_failed_slept f));
      }

  Bounded-end :
      (left b : ℕ) {w w1 : W}
      → sent w1 ≡ sent w + 1
      → slept w1 ≡ slept w + 2 ^ b
      → Bounded (suc left) b w w1 true
  Bounded-end left b s l =
      let e : b + suc left ≡ suc b + left = omega arith in
      record {
        at_least_sent = omega arith;
        at_most_sent = omega arith;
        at_most_slept = rw e (omega (arith, pow_double b, pow_le (suc b) left));
        if_failed_sent = λ f. absurd (true-ne-false f);
        if_failed_slept = λ f. absurd (true-ne-false f);
      }

  attempts-Bounded :
      (left a b : ℕ) (w : W)
      → a ≡ b + 1
      → b + left ≤ 64
      → Bounded left b w
          (attempts net hmac status_text endpoint body timeout left a w).0
          (attempts net hmac status_text endpoint body timeout left a w).1
  unfolding attempts
  attempts-Bounded zero a b w e h =
      let same : b + 0 ≡ b = omega arith in
      record {
        at_least_sent = omega arith;
        at_most_sent = omega arith;
        at_most_slept = rw same (omega arith);
        if_failed_sent = λ _. omega arith;
        if_failed_slept = λ _. rw same refl;
      }
  attempts-Bounded (suc left) a b w e h =
      let round = attempt_once net hmac status_text endpoint body timeout a w in
      let s : sent round.0 ≡ sent w + 1 = rw e (later-sent b w) in
      let l : slept round.0 ≡ slept w + 2 ^ b = rw e (later-slept b w (omega arith)) in
      elim (Result-cases round.1) [
        | inl (u, delivered) ↦ rw (attempts, delivered) (Bounded-end left b s l)
        | inr (reason, failed) ↦
            rw (attempts, failed)
              (Bounded-next left b s l
                (attempts-Bounded left (a + 1) (suc b) round.0 (omega arith) (omega arith)))
      ]

  abbrev Delivery : ℕ → W → W → Bool → Type 0
  Delivery n w w' delivered =
      (sent w + 1 ≤ sent w')
      × (sent w' ≤ sent w + n + 1)
      × (slept w' < slept w + 2 ^ n)
      × (delivered ≡ false → (sent w' ≡ sent w + n + 1) × (slept w' + 1 ≡ slept w + 2 ^ n))

  Delivery-end :
      (n : ℕ) {w w1 : W} → sent w1 ≡ sent w + 1 → slept w1 ≡ slept w → Delivery n w w1 true
  Delivery-end n s l =
      let e : 0 + n ≡ n = omega arith in
      let p : 2 ^ 0 ≤ 2 ^ n = rw e at (pow_le 0 n) in
      (omega arith, omega arith, omega arith, λ f. absurd (true-ne-false f))

  Delivery-next :
      (n : ℕ) {w w1 w' : W} {delivered : Bool}
      → sent w1 ≡ sent w + 1
      → slept w1 ≡ slept w
      → Bounded n 0 w1 w' delivered
      → Delivery n w w' delivered
  Delivery-next n s l rest =
      let e : 0 + n ≡ n = omega arith in
      let most = rw e at rest.at_most_slept in
      (
        omega (arith, rest.at_least_sent),
        omega (arith, rest.at_most_sent),
        omega (arith, most),
        λ f. (
          omega (arith, rest.if_failed_sent f),
          let all = rw e at (rest.if_failed_slept f) in omega (arith, all),
        ),
      )

  delivery :
      (max_retries : ℕ) (w : W)
      → max_retries ≤ 64
      → let (w', delivered) =
          deliver_with_retry net hmac status_text endpoint body timeout max_retries w in
        (sent w + 1 ≤ sent w')
        × (sent w' ≤ sent w + max_retries + 1)
        × (slept w' < slept w + 2 ^ max_retries)
        × (delivered ≡ false
            → (sent w' ≡ sent w + max_retries + 1) × (slept w' + 1 ≡ slept w + 2 ^ max_retries))
  unfolding deliver_with_retry
  delivery n w h =
      let e : n + 1 ≡ suc n = omega arith in
      let round = attempt_once net hmac status_text endpoint body timeout 0 w in
      let s : sent round.0 ≡ sent w + 1 = first-sent w in
      let l : slept round.0 ≡ slept w = first-slept w in
      rw e (elim (Result-cases round.1) [
        | inl (u, delivered) ↦ rw (attempts, delivered) (Delivery-end n s l)
        | inr (reason, failed) ↦
            rw (attempts, failed)
              (Delivery-next n s l
                (attempts-Bounded n (0 + 1) 0 round.0 (omega arith) (omega arith)))
      ])

  -- With at most 64 retries, and where the HTTP client can be built, a delivery is sent at least
  -- once and at most once more than there are retries, and waits less than two to the number of
  -- retries, in seconds. The network is one that counts both.
  pub deliver_with_retry_lem :
      (max_retries : ℕ) (w : W)
      → max_retries ≤ 64
      → let (w', delivered) =
          deliver_with_retry net hmac status_text endpoint body timeout max_retries w in
        (sent w + 1 ≤ sent w')
        × (sent w' ≤ sent w + max_retries + 1)
        × (slept w' < slept w + 2 ^ max_retries)
  deliver_with_retry_lem n w h = let (a, b, c, _) = delivery n w h in (a, b, c)

  -- With at most 64 retries, and where the HTTP client can be built, a delivery that fails has been
  -- sent exactly once more than there are retries, and has waited two to the number of retries less
  -- one, in seconds. The network is one that counts both.
  pub deliver_with_retry_failed :
      (max_retries : ℕ) (w : W)
      → max_retries ≤ 64
      → (deliver_with_retry net hmac status_text endpoint body timeout max_retries w).1 ≡ false
      → let (w', delivered) =
          deliver_with_retry net hmac status_text endpoint body timeout max_retries w in
        (sent w' ≡ sent w + max_retries + 1) × (slept w' + 1 ≡ slept w + 2 ^ max_retries)
  deliver_with_retry_failed n w h f = let (_, _, _, all) = delivery n w h in all f
