-- ===== src/Proxmox/Retry/Attempts.antt =====
-- src/proxmox/retry.rs: which answer `execute` returns, and how long it waits.
use Prim.Native.Nat.{min}
use moxui.Prelude.{
  ℕ, zero, suc, ◌+◌, ◌-◌, ◌≤◌, ◌<◌, ◌≡◌, ◌⊎◌, refl, [], ◌∷◌, true, false, Option, none, some, ltb,
  ◌==◌, leb, all, length, arith, inl, inr, Bool-cases, Option-cases, ==_iff, ltb→lt, Result, ok,
  err, subst, sym, ap, ◌∙◌,
}
use moxui.Prelude.Results.{Result-cases}
use moxui.Proxmox.Retry.{RetryPolicy, attempt_from, execute}

module _ {ℓ} {T E : Type ℓ} (f : ℕ → Result T E) where
  -- The attempts from the first number up to the second, without it, all fail.
  unfoldable pub AllFail : ℕ → ℕ → Type ℓ
  AllFail start end = (j : ℕ) → start ≤ j → j < end → (e : E) × (f j ≡ err e)

  -- The answer is that of the first attempt that succeeds, else the error of the last one.
  unfoldable pub Answers : ℕ → ℕ → Option (Result T E) → Type ℓ
  Answers start end answer =
      ((i : ℕ) × (val : T) × (start ≤ i)
        × (i < end)
        × (f i ≡ ok val)
        × AllFail start i
        × (answer ≡ some (ok val)))
      ⊎ (AllFail start end
          × ((last : ℕ) × (e : E) × (last + 1 ≡ end) × (f last ≡ err e) × (answer ≡ some (err e))))

  AllFail-suc :
      (start end : ℕ) (e : E) → f start ≡ err e → AllFail (start + 1) end → AllFail start end
  unfolding AllFail
  AllFail-suc start end e failed rest = λ j from to. elim (Bool-cases (start == j)) [
    | inl same ↦ (e, subst (λ k. f k ≡ err e) ((==_iff start j).0 same) failed)
    | inr other ↦ rest j (ground arith) to
  ]

  AllFail-none : (start : ℕ) → AllFail start start
  unfolding AllFail
  AllFail-none start = λ j from to. ground arith

  Answers-now :
      (start end : ℕ) (val : T) {answer : Option (Result T E)}
      → start < end
      → f start ≡ ok val
      → answer ≡ some (ok val)
      → Answers start end answer
  unfolding Answers
  Answers-now start end val below h e =
      inl (start, val, (omega arith), below, h, AllFail-none start, e)

  Answers-suc :
      (start end : ℕ) (e : E) (answer : Option (Result T E))
      → f start ≡ err e
      → Answers (start + 1) end answer
      → Answers start end answer
  unfolding Answers
  Answers-suc start end e answer failed (inl (i, val, from, to, h, before, r)) =
      inl (i, val, (omega arith), to, h, AllFail-suc start i e failed before, r)
  Answers-suc start end e answer failed (inr (rest, last)) =
      inr (AllFail-suc start end e failed rest, last)

  Answers-last :
      (start : ℕ) (e : E) {answer : Option (Result T E)}
      → f start ≡ err e
      → answer ≡ some (err e)
      → Answers start (start + 1) answer
  unfolding Answers
  Answers-last start e failed r = inr (
    AllFail-suc start (start + 1) e failed (AllFail-none (start + 1)),
    (start, e, refl, failed, r),
  )

  module _ (policy : RetryPolicy) where
    answer-ok :
        (left attempt backoff : ℕ) (last_err : Option E) (val : T)
        → f attempt ≡ ok val
        → attempt_from policy f (suc left) attempt backoff last_err ≡ (some (ok val), [])
    unfolding attempt_from
    answer-ok left attempt backoff last_err val h = rw (attempt_from, h) refl

    attempt_none :
        (attempt backoff : ℕ) (e : E)
        → (attempt_from policy f 0 attempt backoff (some e)).0 ≡ some (err e)
    unfolding attempt_from
    attempt_none attempt backoff e = refl

    -- A failed attempt that others follow, and one after which the product panics.
    answer-again :
        (left attempt backoff product : ℕ) (last_err : Option E) (e : E)
        → f attempt ≡ err e
        → ltb (attempt + 1) policy.max_attempts ≡ true
        → policy.multiply backoff ≡ some product
        → let rest =
            attempt_from policy f left (attempt + 1) (min product policy.max_backoff) (some e) in
          attempt_from policy f (suc left) attempt backoff last_err ≡ (rest.0, backoff ∷ rest.1)
    unfolding attempt_from
    answer-again left attempt backoff product last_err e h y m = rw (attempt_from, h, y, m) refl

    answer-panic :
        (left attempt backoff : ℕ) (last_err : Option E) (e : E)
        → f attempt ≡ err e
        → ltb (attempt + 1) policy.max_attempts ≡ true
        → policy.multiply backoff ≡ none
        → attempt_from policy f (suc left) attempt backoff last_err ≡ (none, backoff ∷ [])
    unfolding attempt_from
    answer-panic left attempt backoff last_err e h y m = rw (attempt_from, h, y, m) refl

    answer-last :
        (left attempt backoff : ℕ) (last_err : Option E) (e : E)
        → f attempt ≡ err e
        → ltb (attempt + 1) policy.max_attempts ≡ false
        → attempt_from policy f (suc left) attempt backoff last_err
          ≡ attempt_from policy f left (attempt + 1) backoff (some e)
    unfolding attempt_from
    answer-last left attempt backoff last_err e h y = rw (attempt_from, h, y) refl

    -- The pauses that can come up.
    abbrev pub IsPause : ℕ → Type 0
    IsPause backoff = (backoff ≡ policy.initial_backoff) ⊎ (backoff ≤ policy.max_backoff)

    attempt_from-Answers :
        (left attempt backoff : ℕ) (last_err : Option E)
        → attempt + left + 1 ≡ policy.max_attempts
        → IsPause backoff
        → ((pause : ℕ) → IsPause pause → (product : ℕ) × (policy.multiply pause ≡ some product))
        → Answers attempt policy.max_attempts
            (attempt_from policy f (suc left) attempt backoff last_err).0
    attempt_from-Answers zero attempt backoff last_err total pause products =
        elim (Result-cases (f attempt)) [
          | inl (val, h) ↦
              Answers-now attempt policy.max_attempts val (omega (arith, total)) h
                (ap (λ r. r.0) (answer-ok 0 attempt backoff last_err val h))
          | inr (e, h) ↦
              let same : attempt + 1 ≡ policy.max_attempts = omega (arith, total) in
              let last : ltb (attempt + 1) policy.max_attempts ≡ false = ground (arith, same) in
              subst (λ n. Answers attempt n (attempt_from policy f 1 attempt backoff last_err).0)
                same
                (Answers-last attempt e h (
                  ap (λ r. r.0) (answer-last 0 attempt backoff last_err e h last)
                  ∙ attempt_none _ _ e))
        ]
    attempt_from-Answers (suc left) attempt backoff last_err total pause products =
        elim (Result-cases (f attempt)) [
          | inl (val, h) ↦
              Answers-now attempt policy.max_attempts val (omega (arith, total)) h
                (ap (λ r. r.0) (answer-ok (suc left) attempt backoff last_err val h))
          | inr (e, h) ↦
              let again : ltb (attempt + 1) policy.max_attempts ≡ true = ground (arith, total) in
              let (product, m) = products backoff pause in
              Answers-suc attempt policy.max_attempts e _ h (
                subst (λ r. Answers (attempt + 1) policy.max_attempts r)
                  (sym (
                    ap (λ r. r.0)
                      (answer-again (suc left) attempt backoff product last_err e h again m)))
                  (attempt_from-Answers left (attempt + 1) (min product policy.max_backoff) (some e)
                    (omega (arith, total)) (inr (omega arith)) products))
        ]

    -- A policy with at least one attempt, whose multiplier takes each pause that can come up to a
    -- duration, always comes to an answer: that of the first attempt that succeeds, after those that
    -- failed, or, when all fail, the error of the last one.
    pub execute-Answers :
        0 < policy.max_attempts
        → ((pause : ℕ) → IsPause pause → (product : ℕ) × (policy.multiply pause ≡ some product))
        → Answers 0 policy.max_attempts (execute policy f).0
    unfolding execute
    execute-Answers some_left products =
        subst
          (λ n.
            Answers 0 policy.max_attempts (attempt_from policy f n 0 policy.initial_backoff none).0)
          {x = suc (policy.max_attempts - 1)} (omega (arith, some_left))
          (attempt_from-Answers (policy.max_attempts - 1) 0 policy.initial_backoff none
            (omega (arith, some_left)) (inl refl) products)

    slept_within :
        (left attempt backoff : ℕ) (last_err : Option E)
        → attempt + left ≡ policy.max_attempts
        → backoff ≤ policy.max_backoff
        → (all
              (λ d. leb d policy.max_backoff)
              (attempt_from policy f left attempt backoff last_err).1
            ≡ true)
          × (length (attempt_from policy f left attempt backoff last_err).1 ≤ left - 1)
    unfolding attempt_from
    slept_within zero attempt backoff none total within = (refl, omega arith)
    slept_within zero attempt backoff (some e) total within = (refl, omega arith)
    slept_within (suc left) attempt backoff last_err total within =
        elim (Result-cases (f attempt)) [
          | inl (val, h) ↦ rw (answer-ok left attempt backoff last_err val h) (refl, omega arith)
          | inr (e, h) ↦ elim (Bool-cases (ltb (attempt + 1) policy.max_attempts)) [
            | inl y ↦ elim (Option-cases (policy.multiply backoff)) [
              | inl m ↦
                  rw (answer-panic left attempt backoff last_err e h y m)
                    (ground arith, ground (arith, ltb→lt _ _ y))
              | inr (product, m) ↦
                  let (bounded, few) =
                    slept_within left (attempt + 1) (min product policy.max_backoff) (some e)
                      (omega (arith, total)) (omega arith) in
                  rw (answer-again left attempt backoff product last_err e h y m)
                    (ground arith, ground (arith, ltb→lt _ _ y))
            ]
            | inr y ↦
                let (bounded, few) =
                  slept_within left (attempt + 1) backoff (some e) (omega (arith, total)) within in
                rw (answer-last left attempt backoff last_err e h y) (bounded, omega (arith, few))
          ]
        ]

    -- When the initial pause is at most the maximal one, every pause is, and there are fewer of
    -- them than attempts: none follows the last attempt.
    pub execute-slept :
        policy.initial_backoff ≤ policy.max_backoff
        → (all (λ d. leb d policy.max_backoff) (execute policy f).1 ≡ true)
          × (length (execute policy f).1 ≤ policy.max_attempts - 1)
    unfolding execute
    execute-slept within =
        slept_within policy.max_attempts 0 policy.initial_backoff none (omega arith) within
