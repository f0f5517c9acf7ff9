-- ===== src/Proxmox/CircuitBreaker/Trace.antt =====
-- src/proxmox/circuit_breaker.rs: what the breaker answers after a sequence of calls.
use moxui.Prelude.{
  ℕ, suc, ◌+◌, ◌^◌, ◌≤◌, ◌<◌, ◌≡◌, ◌↔◌, refl, List, [], ◌∷◌, false, ◌&&◌, if◌then◌else◌, leb, ltb,
  arith, length,
}
use moxui.Proxmox.CircuitBreaker.{
  CircuitState, closed, opened, half_open, CircuitBreaker, new, state, allow_request,
  record_success, record_failure,
}

-- The calls of the breaker's client, the latest one first.
pub data Event : Type 0 where
  success : Event
  failure : ℕ → Event

unfoldable pub run : ℕ → ℕ → List Event → CircuitBreaker
unfolding new record_success record_failure
run threshold cooldown [] = new threshold cooldown
run threshold cooldown (success ∷ events) = record_success (run threshold cooldown events)
run threshold cooldown (failure now ∷ events) = record_failure (run threshold cooldown events) now

-- The failures since the latest success, and the time of the latest of them.
unfoldable pub consecutive : List Event → ℕ
consecutive [] = 0
consecutive (success ∷ events) = 0
consecutive (failure now ∷ events) = suc (consecutive events)

unfoldable pub failed_at : List Event → ℕ
failed_at (failure now ∷ events) = now
failed_at events = 0

-- Every failure was noted at a time after the epoch and up to `now`.
unfoldable pub Timely : ℕ → List Event → Type 0
Timely now [] = Unit {0}
Timely now (success ∷ events) = Timely now events
Timely now (failure t ∷ events) = (0 < t) × (t ≤ now) × Timely now events

-- What the breaker is for: it opens at the threshold of consecutive failures, and is half-open
-- when the cooldown has passed since the latest of them.
unfoldable pub intended : ℕ → ℕ → List Event → ℕ → CircuitState
intended threshold cooldown events now =
    if ltb 0 (consecutive events) && leb threshold (consecutive events)
    then if leb (failed_at events + cooldown) now then half_open else opened
    else closed

consecutive-le : (events : List Event) → consecutive events ≤ length events
unfolding consecutive
consecutive-le [] = omega arith
consecutive-le (success ∷ events) = ground arith
consecutive-le (failure t ∷ events) = ground (arith, consecutive-le events)

module _ (threshold cooldown : ℕ) where
  run_settings :
      (events : List Event)
      → ((run threshold cooldown events).failure_threshold ≡ threshold)
        × ((run threshold cooldown events).cooldown ≡ cooldown)
  unfolding run new record_success record_failure
  run_settings [] = (refl, refl)
  run_settings (success ∷ events) = run_settings events
  run_settings (failure t ∷ events) = run_settings events

  run_count :
      (events : List Event)
      → length events < 2 ^ 32
      → (run threshold cooldown events).failure_count ≡ consecutive events
  unfolding run new record_success record_failure consecutive
  run_count [] bound = refl
  run_count (success ∷ events) bound = refl
  run_count (failure t ∷ events) bound =
      let rest = run_count events (ground arith) in ground (arith, rest, consecutive-le events)

  run_opened :
      (events : List Event)
      → length events < 2 ^ 32
      → (run threshold cooldown events).opened_at ≡ (
          if ltb 0 (consecutive events) && leb threshold (consecutive events)
          then failed_at events
          else 0)
  unfolding run new record_success record_failure consecutive failed_at
  run_opened [] bound = refl
  run_opened (success ∷ events) bound = refl
  run_opened (failure t ∷ events) bound = ground (
    arith,
    run_opened events (ground arith),
    run_count events (ground arith),
    run_settings events,
    consecutive-le events,
  )

failed_at-le :
    (now : ℕ) (events : List Event)
    → Timely now events
    → 0 < consecutive events
    → (0 < failed_at events) × (failed_at events ≤ now)
unfolding Timely consecutive failed_at
failed_at-le now [] timely some_failed = ground arith
failed_at-le now (success ∷ events) timely some_failed = ground arith
failed_at-le now (failure t ∷ events) (a, b, c) some_failed = (a, b)

module _ (threshold cooldown now : ℕ) (events : List Event) where
  -- After fewer than 2 ^ 32 noted calls, whose failures were noted after the epoch and not later
  -- than now, with the clock below 2 ^ 64: the breaker is closed while fewer failures than the
  -- threshold (and at least one) followed the latest success, else it is open until the cooldown
  -- has passed since the latest failure, then half-open.
  pub state-intended :
      length events < 2 ^ 32
      → now < 2 ^ 64
      → Timely now events
      → state (run threshold cooldown events) now ≡ intended threshold cooldown events now
  unfolding state intended
  state-intended bound clock timely = ground (
    arith,
    run_opened threshold cooldown events bound,
    run_settings threshold cooldown events,
    failed_at-le now events timely,
  )

  -- Under the same conditions a call is refused exactly if the failures since the latest success
  -- reach the threshold, there is one, and the cooldown since the latest is not over.
  pub allow_request_iff :
      length events < 2 ^ 32
      → now < 2 ^ 64
      → Timely now events
      → (allow_request (run threshold cooldown events) now ≡ false) ↔ (
          (0 < consecutive events)
          × (threshold ≤ consecutive events)
          × (now < failed_at events + cooldown))
  unfolding allow_request intended
  allow_request_iff bound clock timely =
      rw (allow_request, state-intended bound clock timely) (ground arith)
