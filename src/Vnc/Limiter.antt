-- ===== src/Vnc/Limiter.antt =====
-- src/api/vnc.rs: `VncConnectionLimiter`, whose counter many threads change at once. A step is one
-- atomic access; `holding` is a thread that has the guard.
pub mod Slots
use moxui.Prelude.{
  ℕ, zero, suc, ◌+◌, ◌-◌, ◌%◌, ◌^◌, List, [], ◌∷◌, Bool, true, false, Option, none, some,
  if◌then◌else◌, ◌==◌, leb,
}
use moxui.Prelude.Options.{◌>>=◌}

abbrev pub max_vnc_connections_per_vm : ℕ
max_vnc_connections_per_vm = 5

pub data Thread : Type 0 where
  idle refused holding : Thread
  -- In the loop of `try_acquire`, with the value that it loaded.
  loaded : ℕ → Thread

pub data Access : Type 0 where
  load exchange release : Access

pub record Limiter : Type 0 where
  pub used : ℕ
  pub threads : List Thread

unfoldable pub idle_threads : ℕ → List Thread
idle_threads zero = []
idle_threads (suc n) = idle ∷ idle_threads n

unfoldable pub new : ℕ → Limiter
unfolding idle_threads
new n = record { used = 0; threads = idle_threads n }

module _ (cap : ℕ) where
  -- The access of one thread; `none` is one that the code does not make there. A failed exchange
  -- goes back to the top of the loop, before the load. Dropping a guard subtracts with wrap-around.
  unfoldable pub access : Access → ℕ → Thread → Option (ℕ × Thread)
  access load used idle = some (used, if leb cap used then refused else loaded used)
  access exchange used (loaded cur) =
      some (if used == cur then ((cur + 1) % 2 ^ 32, holding) else (used, idle))
  access release used holding = some ((used + 2 ^ 32 - 1) % 2 ^ 32, idle)
  access a used t = none

  unfoldable pub access_at : Access → ℕ → ℕ → List Thread → Option (ℕ × List Thread)
  unfolding access
  access_at a i used [] = none
  access_at a zero used (t ∷ ts) = do (next, t') ← access a used t; some (next, t' ∷ ts)
  access_at a (suc i) used (t ∷ ts) = do (next, ts') ← access_at a i used ts; some (next, t ∷ ts')

  unfoldable pub step : Access → ℕ → Limiter → Option Limiter
  unfolding access_at
  step a i l = do
    (used, threads) ← access_at a i l.used l.threads
    some (record { used = used; threads = threads })
