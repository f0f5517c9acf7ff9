-- ===== src/Proxmox/CircuitBreaker.antt =====
-- src/proxmox/circuit_breaker.rs: the circuit breaker of one cluster. Times are Unix seconds; the
-- clock's reading is an argument. The counters wrap, as those of a release build do.
pub mod Trace
use moxui.Prelude.{ℕ, ◌+◌, ◌-◌, ◌%◌, ◌^◌, Bool, true, false, if◌then◌else◌, leb, ◌==◌}

pub data CircuitState : Type 0 where
  closed opened half_open : CircuitState

pub record CircuitBreaker : Type 0 where
  pub failure_threshold : ℕ
  pub cooldown : ℕ
  -- A `u32` and a `u64`; an `opened_at` of 0 stands for a circuit that is not open.
  pub failure_count : ℕ
  pub opened_at : ℕ

unfoldable pub new : ℕ → ℕ → CircuitBreaker
new failure_threshold cooldown = record {
  failure_threshold = failure_threshold;
  cooldown = cooldown;
  failure_count = 0;
  opened_at = 0;
}

-- `Default`.
unfoldable pub default_breaker : CircuitBreaker
unfolding new
default_breaker = new 5 30

unfoldable pub state : CircuitBreaker → ℕ → CircuitState
state cb now =
    if cb.opened_at == 0
    then closed
    else if leb cb.cooldown ((now + 2 ^ 64 - cb.opened_at) % 2 ^ 64)
    then half_open
    else opened

unfoldable pub allow_request : CircuitBreaker → ℕ → Bool
unfolding state
allow_request cb now = elim (state cb now) [ closed ↦ true | half_open ↦ true | opened ↦ false ]

unfoldable pub record_success : CircuitBreaker → CircuitBreaker
record_success cb = record cb { failure_count = 0; opened_at = 0 }

unfoldable pub record_failure : CircuitBreaker → ℕ → CircuitBreaker
record_failure cb now =
    let count = (cb.failure_count + 1) % 2 ^ 32 in
    record cb {
      failure_count = count;
      opened_at = if leb cb.failure_threshold count then now else cb.opened_at;
    }
