-- ===== src/Proxmox/Retry.antt =====
-- src/proxmox/retry.rs: a call that is tried again with growing pauses. The call's answer to the
-- attempt of each number is a function, and the pauses slept are part of the result; `none` stands
-- for a panic, of `expect` or of `Duration::from_secs_f64`.
pub mod Attempts
use Prim.Native.Nat.{min}
use moxui.Prelude.{
  ℕ, zero, suc, ◌+◌, List, [], ◌∷◌, Bool, true, false, Option, none, some, if◌then◌else◌, ltb,
  Result, ok, err,
}

-- The durations are in nanoseconds. `multiply` is the product with the multiplier in `f64`, as
-- `Duration::from_secs_f64` reads it: it panics, `none`, if the product is negative, not a number, or
-- too large.
pub record RetryPolicy : Type 0 where
  pub max_attempts : ℕ
  pub initial_backoff : ℕ
  pub max_backoff : ℕ
  pub multiply : ℕ → Option ℕ

-- `Default`, with a factor of 2.
abbrev pub default_policy : (ℕ → Option ℕ) → RetryPolicy
default_policy double = record {
  max_attempts = 3;
  initial_backoff = 100000000;
  max_backoff = 10000000000;
  multiply = double;
}

module _ {ℓ} {T E : Type ℓ} (policy : RetryPolicy) (f : ℕ → Result T E) where
  -- The iterations that are left of `for attempt in 0..self.max_attempts`.
  unfoldable pub attempt_from : ℕ → ℕ → ℕ → Option E → Option (Result T E) × List ℕ
  attempt_from zero attempt backoff none = (none, [])
  attempt_from zero attempt backoff (some e) = (some (err e), [])
  attempt_from (suc left) attempt backoff last_err = elim (f attempt) [
    | ok val ↦ (some (ok val), [])
    | err e ↦ elim (ltb (attempt + 1) policy.max_attempts) [
      | true ↦ elim (policy.multiply backoff) [
        | none ↦ (none, backoff ∷ [])
        | some product ↦
            let (answer, slept) =
              attempt_from left (attempt + 1) (min product policy.max_backoff) (some e) in
            (answer, backoff ∷ slept)
      ]
      | false ↦ attempt_from left (attempt + 1) backoff (some e)
    ]
  ]

  unfoldable pub execute : Option (Result T E) × List ℕ
  unfolding attempt_from
  execute = attempt_from policy.max_attempts 0 policy.initial_backoff none
