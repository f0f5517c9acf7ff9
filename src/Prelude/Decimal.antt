-- ===== src/Prelude/Decimal.antt =====
-- `to_string` on Rust's unsigned integers: decimal digits, without leading zeros.
use moxui.Prelude.Tests.{ltb, leb, if◌then◌else◌, Bool-cases}
use mathlib.Core.Logic.{inl, inr}
use moxui.Prelude.Text.{Str}
use moxui.Prelude.Lists.{all}
use Prim.Native.Nat.{ℕ, zero, suc, ◌+◌, ◌-◌, ◌*◌, ◌/◌, ◌%◌, ◌^◌, ◌<◌}
use mathlib.Core.Path.{◌≡◌, refl, sym, ap, ◌∙◌}
use mathlib.Core.Bool.{Bool, true, false, ◌&&◌}
use mathlib.Core.List.{[], ◌∷◌, ◌++◌}
use mathlib.Core.List.{append_assoc}
use native.Mathlib.Omega.{arith}

-- The digits of `n` in front of `acc`, at most `fuel` of them.
unfoldable pub digits : ℕ → ℕ → Str → Str
digits zero n acc = acc
digits (suc fuel) n acc =
    let next = (48 + n % 10) ∷ acc in
    let rest = digits fuel (n / 10) next in if ltb n 10 then next else rest

-- Twenty digits hold every `u64`.
unfoldable pub decimal : ℕ → Str
unfolding digits
decimal n = digits 20 n []

-- The number that a text of digits, read after the digits of `n`, stands for.
unfoldable pub read_from : ℕ → Str → ℕ
read_from n [] = n
read_from n (b ∷ s) = read_from (n * 10 + (b - 48)) s

read_from-digits :
    (fuel n : ℕ) (acc : Str) → n < 10 ^ fuel → read_from 0 (digits fuel n acc) ≡ read_from n acc
unfolding digits read_from
read_from-digits zero n acc h = let e : n ≡ 0 = ground arith in rw e refl
read_from-digits (suc fuel) n acc h =
    ground (arith, read_from-digits fuel (n / 10) ((48 + n % 10) ∷ acc))

-- A number is read back from its digits.
pub read_from-decimal : (n : ℕ) → n < 10 ^ 20 → read_from 0 (decimal n) ≡ n
unfolding decimal read_from
read_from-decimal n h = read_from-digits 20 n [] h

pub decimal_injective : (m n : ℕ) → m < 10 ^ 20 → n < 10 ^ 20 → decimal m ≡ decimal n → m ≡ n
decimal_injective m n hm hn e =
    sym (read_from-decimal m hm) ∙ (ap (read_from 0) e ∙ read_from-decimal n hn)

abbrev pub is_digit : ℕ → Bool
is_digit b = leb 48 b && ltb b 58

all-digits :
    (fuel n : ℕ) (acc : Str) → all is_digit acc ≡ true → all is_digit (digits fuel n acc) ≡ true
unfolding digits
all-digits zero n acc h = h
all-digits (suc fuel) n acc h = ground (arith, all-digits fuel (n / 10) ((48 + n % 10) ∷ acc))

pub all-decimal : (n : ℕ) → all is_digit (decimal n) ≡ true
unfolding decimal
all-decimal n = all-digits 20 n [] refl

digits_append : (fuel n : ℕ) (acc : Str) → digits fuel n acc ≡ digits fuel n [] ++ acc
unfolding digits
digits_append zero n acc = refl
digits_append (suc fuel) n acc = elim (Bool-cases (ltb n 10)) [
  | inl y ↦ rw y refl
  | inr y ↦ rw y (
      digits_append fuel (n / 10) ((48 + n % 10) ∷ acc)
      ∙ (sym (append_assoc (digits fuel (n / 10) []) ((48 + n % 10) ∷ []) acc)
          ∙ ap (λ t. t ++ acc) (sym (digits_append fuel (n / 10) ((48 + n % 10) ∷ [])))))
]

digits_step :
    (fuel n : ℕ)
    → ltb n 10 ≡ false
    → digits (suc fuel) n [] ≡ digits fuel (n / 10) ((48 + n % 10) ∷ [])
unfolding digits
digits_step fuel n y = rw (digits, y) refl

-- More fuel than digits changes nothing.
digits_fuel :
    (fuel n : ℕ) (acc : Str)
    → n < 10 ^ suc fuel
    → digits (suc (suc fuel)) n acc ≡ digits (suc fuel) n acc
unfolding digits
digits_fuel zero n acc h = let y : ltb n 10 ≡ true = ground arith in rw (digits, y) refl
digits_fuel (suc fuel) n acc h = elim (Bool-cases (ltb n 10)) [
  | inl y ↦ rw (digits, y) refl
  | inr y ↦
      let small : n / 10 < 10 ^ suc fuel = ground arith in
      rw (digits, y) (digits_fuel fuel (n / 10) ((48 + n % 10) ∷ acc) small)
]

digits_snoc :
    (fuel n k : ℕ)
    → 0 < n
    → n < 10 ^ suc fuel
    → k < 10
    → digits (suc (suc fuel)) (n * 10 + k) [] ≡ digits (suc (suc fuel)) n [] ++ ((48 + k) ∷ [])
digits_snoc fuel n k h b l =
    let q : (n * 10 + k) / 10 ≡ n = ground arith in
    let r : (n * 10 + k) % 10 ≡ k = ground arith in
    digits_step (suc fuel) (n * 10 + k) (ground arith)
    ∙ (ap (λ m. digits (suc fuel) m ((48 + (n * 10 + k) % 10) ∷ [])) q
        ∙ (ap (λ m. digits (suc fuel) n ((48 + m) ∷ [])) r
            ∙ (digits_append (suc fuel) n ((48 + k) ∷ [])
                ∙ ap (λ t. t ++ ((48 + k) ∷ [])) (sym (digits_fuel fuel n [] b)))))

-- A further digit stands behind the others.
pub decimal_snoc :
    (n k : ℕ) → 0 < n → n < 10 ^ 19 → k < 10 → decimal (n * 10 + k) ≡ decimal n ++ ((48 + k) ∷ [])
unfolding decimal
decimal_snoc n k h b l = digits_snoc 18 n k h b l
