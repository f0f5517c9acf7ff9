-- ===== src/Prelude/Results.antt =====
-- Rust's `Result`, with `?` as `>>=`.
use mathlib.Core.Option.{Option, none, some}
use mathlib.Core.Path.{◌≡◌, refl}
use mathlib.Core.Logic.{◌⊎◌, inl, inr}
use native.Mathlib.Omega.{arith}

pub data Result {ℓ} (A E : Type ℓ) : Type ℓ where
  ok : A → Result A E
  err : E → Result A E

infixl 5 ◌>>=◌
abbrev pub ◌>>=◌ {ℓ} : {A B E : Type ℓ} → Result A E → (A → Result B E) → Result B E
ok a >>= f = f a
err e >>= f = err e

-- `ok_or`.
abbrev pub ok_or {ℓ} : {A E : Type ℓ} → Option A → E → Result A E
ok_or none e = err e
ok_or (some a) e = ok a

-- A chain that ends well had a value at its start.
pub ok_or-eq-ok {ℓ} :
    {A B E : Type ℓ} (o : Option A) (e : E) (f : A → Result B E) {b : B}
    → (ok_or o e >>= f) ≡ ok b
    → (a : A) × (o ≡ some a) × (f a ≡ ok b)
ok_or-eq-ok none e f h = ground arith
ok_or-eq-ok (some a) e f h = (a, refl, h)

pub Result-cases {ℓ} :
    {A E : Type ℓ} (r : Result A E) → ((a : A) × (r ≡ ok a)) ⊎ ((e : E) × (r ≡ err e))
Result-cases (ok a) = inl (a, refl)
Result-cases (err e) = inr (e, refl)

-- The three ends of a call that may be given up.
pub reply-cases {ℓ} :
    {A E : Type ℓ} (r : Option (Result A E))
    → (r ≡ none) ⊎ (((a : A) × (r ≡ some (ok a))) ⊎ ((e : E) × (r ≡ some (err e))))
reply-cases none = inl refl
reply-cases (some (ok a)) = inr (inl (a, refl))
reply-cases (some (err e)) = inr (inr (e, refl))
