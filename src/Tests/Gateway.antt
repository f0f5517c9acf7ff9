-- ===== src/Tests/Gateway.antt =====
-- src/proxmox and the console sessions on short runs.
use moxui.Prelude.{
  ℕ, zero, suc, ◌*◌, ◌<◌, List, [], ◌∷◌, ◌++◌, Str, codes, true, not, all, ◌==◌, some, ◌≡◌, ◌↔◌,
  refl, arith, ltb, Option, none, if◌then◌else◌, ◌≤◌, ◌^◌, inl, inr, Result, ok, err,
}
use moxui.Proxmox.CircuitBreaker.{state}
use moxui.Proxmox.CircuitBreaker.Trace.{
  Event, success, failure, run, Timely, intended, state-intended,
}
use moxui.Proxmox.Retry.{default_policy, execute}
use moxui.Proxmox.Retry.Attempts.{Answers, execute-Answers}
use moxui.Vnc.Limiter.{
  Limiter, holding, loaded, new, load, exchange, step, idle_threads, access, access_at,
}
use moxui.Vnc.Limiter.Slots.{IsSafe, Reach, start, next, Reach-IsSafe}
use moxui.Vnc.Token.{VncTokenClaims, TokenCrates, verify_vnc_token}
use moxui.Vnc.Token.Laws.{verify_vnc_token_iff}

-- Two failures after a success, under a threshold of two.
abbrev events : List Event
events = failure 20 ∷ failure 10 ∷ success ∷ failure 5 ∷ []

events-Timely : Timely 30 events
unfolding Timely
events-Timely =
    (omega arith, omega arith, (omega arith, omega arith, (omega arith, omega arith, tt)))

state-intended_example : state (run 2 30 events) 30 ≡ intended 2 30 events 30
state-intended_example = state-intended 2 30 30 events (omega arith) (omega arith) events-Timely

-- A call that fails twice and then answers.
abbrev flaky : ℕ → Result ℕ ℕ
flaky zero = err 500
flaky (suc zero) = err 503
flaky (suc (suc n)) = ok 42

-- `Duration::from_secs_f64` panics above 2 ^ 64 seconds.
abbrev double : ℕ → Option ℕ
double d = if ltb d (2 ^ 63 * 10 ^ 9) then some (d * 2) else none

double_fits : (d : ℕ) → d ≤ 10000000000 → double d ≡ some (d * 2)
double_fits d h = ground arith

execute-Answers_example : Answers flaky 0 3 (execute (default_policy double) flaky).0
execute-Answers_example =
    execute-Answers flaky (default_policy double) (omega arith)
      (λ pause h. (pause * 2, double_fits pause (elim h [ inl e ↦ omega (arith, e) | inr l ↦ l ])))

-- Stand-ins for the crates: the claims travel as their subject.
abbrev console : VncTokenClaims
console = record { sub = codes "vnc:lab:pve:103"; iat = 0; exp = 300 }

abbrev crates : TokenCrates
crates = record {
  to_vec = λ claims. some claims.sub;
  from_slice = λ payload. some console;
  hmac_sha256 = λ key payload. some (key ++ payload);
  encode = λ bytes. bytes;
  decode = λ text. some text;
}

verify_vnc_token_iff_example :
    (verify_vnc_token crates (codes "k") (codes "vnc.kvnc") 299 ≡ ok console) ↔ (
      (a : Str) × (b : Str) × (payload : List ℕ) × (tag : List ℕ) × (all (λ c. not (c == 46)) a
        ≡ true)
      × (codes "vnc.kvnc" ≡ a ++ 46 ∷ b)
      × (crates.decode a ≡ some payload)
      × (crates.decode b ≡ some tag)
      × (crates.hmac_sha256 (codes "k") payload ≡ some tag)
      × (crates.from_slice payload ≡ some console)
      × (299 < console.exp))
verify_vnc_token_iff_example =
    verify_vnc_token_iff crates (codes "k") (codes "vnc.kvnc") 299 console

-- Of two threads that loaded the counter the first one takes the only slot.
abbrev taken : Limiter
taken = record { used = 1; threads = holding ∷ loaded 0 ∷ [] }

taken_reached : Reach 1 2 taken
unfolding step access access_at new idle_threads
taken_reached = next exchange 0 (next load 1 (next load 0 start refl) refl) refl

Reach-IsSafe_example : IsSafe 1 taken
Reach-IsSafe_example = Reach-IsSafe 1 (omega arith) 2 taken_reached
