-- ===== src/Vnc/Limiter/Slots.antt =====
-- src/api/vnc.rs: the cap on sessions under every interleaving of the threads.
use moxui.Prelude.{
  ℕ, zero, suc, ◌+◌, ◌^◌, ◌≤◌, ◌<◌, ◌≡◌, refl, subst, List, [], ◌∷◌, Bool, true, false, Option,
  none, some, ltb, arith, count_if, all,
}
use moxui.Prelude.Options.{>>=-eq-some}
use moxui.Vnc.Limiter.{
  Thread, idle, refused, holding, loaded, Access, load, exchange, release, Limiter, idle_threads,
  new, access, access_at, step,
}

abbrev pub is_holding : Thread → Bool
is_holding holding = true
is_holding t = false

-- A thread in the loop loaded a value below the cap.
abbrev pub is_sound : ℕ → Thread → Bool
is_sound cap (loaded cur) = ltb cur cap
is_sound cap t = true

unfoldable pub IsSafe : ℕ → Limiter → Type 0
IsSafe cap l =
    (count_if is_holding l.threads ≡ l.used)
    × (l.used ≤ cap)
    × (all (is_sound cap) l.threads ≡ true)

-- The limiters that accesses of any threads in any order lead to.
pub data Reach (cap n : ℕ) : Limiter → Type 0 where
  start : Reach cap n (new n)
  next :
      (a : Access) (i : ℕ) {l m : Limiter} → Reach cap n l → step cap a i l ≡ some m → Reach cap n m

module _ (cap : ℕ) (small : cap < 2 ^ 32) where
  unfoldable Kept : ℕ → ℕ × List Thread → Type 0
  Kept others (used, ts) =
      (others + count_if is_holding ts ≡ used) × (used ≤ cap) × (all (is_sound cap) ts ≡ true)

  unfoldable KeptBy : ℕ → Option (ℕ × Thread) → Type 0
  unfolding Kept
  KeptBy others none = Unit {0}
  KeptBy others (some (used, t)) = Kept others (used, t ∷ [])

  access-Kept :
      (a : Access) (others used : ℕ) (t : Thread)
      → Kept others (used, t ∷ [])
      → KeptBy others (access cap a used t)
  unfolding access Kept KeptBy
  access-Kept load others used idle (total, below, sound) = ground arith
  access-Kept exchange others used (loaded cur) (total, below, sound) = ground arith
  access-Kept release others used holding (total, below, sound) = ground arith
  access-Kept load others used refused kept = tt
  access-Kept load others used holding kept = tt
  access-Kept load others used (loaded cur) kept = tt
  access-Kept exchange others used idle kept = tt
  access-Kept exchange others used refused kept = tt
  access-Kept exchange others used holding kept = tt
  access-Kept release others used idle kept = tt
  access-Kept release others used refused kept = tt
  access-Kept release others used (loaded cur) kept = tt

  access-Kept-some :
      (a : Access) (others used : ℕ) (t : Thread) (r : ℕ × Thread)
      → access cap a used t ≡ some r
      → Kept others (used, t ∷ [])
      → Kept others (r.0, r.1 ∷ [])
  unfolding KeptBy
  access-Kept-some a others used t r h kept =
      subst (KeptBy others) h (access-Kept a others used t kept)

  access_at-Kept :
      (a : Access) (i others used : ℕ) (ts : List Thread) (r : ℕ × List Thread)
      → access_at cap a i used ts ≡ some r
      → Kept others (used, ts)
      → Kept others r
  unfolding access_at Kept KeptBy
  access_at-Kept a i others used [] r h kept = ground arith
  access_at-Kept a zero others used (t ∷ ts) r h (total, below, sound) =
      let ((u, t'), e, same) = >>=-eq-some (access cap a used t) _ h in
      let moved : (u, t' ∷ ts) ≡ r = ground (arith, same) in
      let head =
        access-Kept-some a (others + count_if is_holding ts) used t (u, t') e
          (ground arith, below, ground (arith, sound)) in
      subst (Kept others) moved (ground (arith, head, sound))
  access_at-Kept a (suc i) others used (t ∷ ts) r h (total, below, sound) =
      let ((u, ts'), e, same) = >>=-eq-some (access_at cap a i used ts) _ h in
      let moved : (u, t ∷ ts') ≡ r = ground (arith, same) in
      let tail =
        access_at-Kept a i (others + count_if is_holding (t ∷ [])) used ts (u, ts') e
          (ground arith, below, ground (arith, sound)) in
      subst (Kept others) moved (ground (arith, tail, sound))

  step-IsSafe :
      (a : Access) (i : ℕ) (l m : Limiter) → step cap a i l ≡ some m → IsSafe cap l → IsSafe cap m
  unfolding step IsSafe Kept
  step-IsSafe a i l m h (total, below, sound) =
      let ((used, ts), e, same) = >>=-eq-some (access_at cap a i l.used l.threads) _ h in
      let moved : record { used = used; threads = ts } ≡ m = ground (arith, same) in
      let (total', below', sound') =
        access_at-Kept a i 0 l.used l.threads (used, ts) e (omega (arith, total), below, sound) in
      subst (IsSafe cap) moved (omega (arith, total'), below', sound')

  new-IsSafe : (n : ℕ) → IsSafe cap (new n)
  unfolding new idle_threads IsSafe
  new-IsSafe zero = (refl, omega arith, refl)
  new-IsSafe (suc n) = new-IsSafe n

  -- In every interleaving of the accesses of any number of threads the counter is the number of
  -- threads that hold a guard, it never exceeds a cap below 2 ^ 32, and a thread in the loop holds
  -- a value below the cap.
  pub Reach-IsSafe : (n : ℕ) {l : Limiter} → Reach cap n l → IsSafe cap l
  Reach-IsSafe n start = new-IsSafe n
  Reach-IsSafe n (next a i {l} {m} before h) = step-IsSafe a i l m h (Reach-IsSafe n before)
