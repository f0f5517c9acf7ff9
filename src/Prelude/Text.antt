-- ===== src/Prelude/Text.antt =====
-- Rust's `String` and `&str`, as the list of its UTF-8 bytes. Text literals are ASCII.
use moxui.Prelude.Tests.{◌==◌}
use Prim.Native.Nat.{ℕ, ◌<◌}
use Prim.Native.Char.{code}
use Prim.Native.String.{String}
use mathlib.Core.Path.{◌≡◌, refl}
use mathlib.Core.Logic.{◌↔◌}
use mathlib.Core.Bool.{Bool, true, false, ◌&&◌, ◌||◌}
use mathlib.Core.List.{List, [], ◌∷◌, ◌++◌}
use native.Mathlib.Omega.{arith}

abbrev pub Str : Type 0
Str = List ℕ

-- Every element is a byte.
abbrev pub AreBytes : List ℕ → Type 0
AreBytes [] = Unit {0}
AreBytes (b ∷ bs) = (b < 256) × AreBytes bs

abbrev pub codes : String → Str
codes String.[] = []
codes (String.◌∷◌ c s) = code c ∷ codes s

-- `==` on texts.
unfoldable pub str_eq : Str → Str → Bool
str_eq [] [] = true
str_eq [] (c ∷ t) = false
str_eq (b ∷ s) [] = false
str_eq (b ∷ s) (c ∷ t) = b == c && str_eq s t

str_eq_sound : (s t : Str) → str_eq s t ≡ true → s ≡ t
unfolding str_eq
str_eq_sound [] [] h = refl
str_eq_sound [] (c ∷ t) h = ground arith
str_eq_sound (b ∷ s) [] h = ground arith
str_eq_sound (b ∷ s) (c ∷ t) h = ground (arith, str_eq_sound s t)

pub str_eq_refl : (s : Str) → str_eq s s ≡ true
unfolding str_eq
str_eq_refl [] = refl
str_eq_refl (b ∷ s) = ground (arith, str_eq_refl s)

pub str_eq_iff : (s t : Str) → (str_eq s t ≡ true) ↔ (s ≡ t)
str_eq_iff s t = (str_eq_sound s t, λ e. ground (arith, str_eq_refl s))

pub str_eq_comm : (s t : Str) → str_eq s t ≡ str_eq t s
str_eq_comm s t = ground (arith, str_eq_iff s t, str_eq_iff t s)

-- `format!("{a}{b}")`.
abbrev pub append_str : Str → Str → Str
append_str s t = s ++ t

-- `str::starts_with` and `str::contains`.
unfoldable pub starts_with : Str → Str → Bool
starts_with [] s = true
starts_with (b ∷ p) [] = false
starts_with (b ∷ p) (c ∷ s) = b == c && starts_with p s

unfoldable pub contains : Str → Str → Bool
unfolding starts_with
contains p [] = starts_with p []
contains p (c ∷ s) = starts_with p (c ∷ s) || contains p s
