-- ===== src/Prelude/Map.antt =====
-- `HashMap<String, V>` as an association list. The order of the list stands for the order in which
-- the table iterates, which Rust leaves open: a new key goes to the end here, and no theorem
-- depends on it.
use moxui.Prelude.Tests.{if◌then◌else◌, is_some}
use moxui.Prelude.Text.{Str, str_eq, str_eq_iff}
use moxui.Prelude.Lists.{length}
use Prim.Native.Nat.{◌≤◌}
use mathlib.Core.Path.{◌≡◌, refl}
use mathlib.Core.Bool.{Bool}
use mathlib.Core.List.{List, [], ◌∷◌}
use mathlib.Core.Option.{Option, none, some}
use native.Mathlib.Omega.{arith}

abbrev pub Map {ℓ} : Type ℓ → Type ℓ
Map V = List (Str × V)

module _ {ℓ} {V : Type ℓ} where
  unfoldable pub get : Str → Map V → Option V
  get k [] = none
  get k ((j, v) ∷ m) = if str_eq j k then some v else get k m

  unfoldable pub contains_key : Str → Map V → Bool
  unfolding get
  contains_key k m = is_some (get k m)

  unfoldable pub insert : Str → V → Map V → Map V
  insert k v [] = (k, v) ∷ []
  insert k v ((j, w) ∷ m) = if str_eq j k then (k, v) ∷ m else (j, w) ∷ insert k v m

  unfoldable pub remove : Str → Map V → Map V
  remove k [] = []
  remove k ((j, w) ∷ m) = if str_eq j k then remove k m else (j, w) ∷ remove k m

  -- `if let Some(v) = map.get_mut(k) { *v = f(v) }`.
  unfoldable pub update : Str → (V → V) → Map V → Map V
  update k f [] = []
  update k f ((j, w) ∷ m) = if str_eq j k then (j, f w) ∷ m else (j, w) ∷ update k f m

  -- `for v in map.values_mut() { *v = f(v) }`.
  unfoldable pub update_all : (V → V) → Map V → Map V
  update_all f [] = []
  update_all f ((j, w) ∷ m) = (j, f w) ∷ update_all f m

  -- `map.retain(|_, v| p(v))`.
  unfoldable pub retain : (V → Bool) → Map V → Map V
  retain p [] = []
  retain p ((j, w) ∷ m) = if p w then (j, w) ∷ retain p m else retain p m

  unfoldable pub values : Map V → List V
  values [] = []
  values ((j, w) ∷ m) = w ∷ values m

  pub get-insert :
      (k j : Str) (v : V) (m : Map V)
      → get j (insert k v m) ≡ (if str_eq k j then some v else get j m)
  unfolding get insert
  get-insert k j v [] = refl
  get-insert k j v ((i, w) ∷ m) =
      ground (arith, str_eq_iff k j, str_eq_iff i k, str_eq_iff i j, get-insert k j v m)

  pub get-remove :
      (k j : Str) (m : Map V) → get j (remove k m) ≡ (if str_eq k j then none else get j m)
  unfolding get remove
  get-remove k j [] = ground arith
  get-remove k j ((i, w) ∷ m) =
      ground (arith, str_eq_iff k j, str_eq_iff i k, str_eq_iff i j, get-remove k j m)

  pub get-update :
      (k j : Str) (f : V → V) (m : Map V)
      → get j (update k f m)
        ≡ (if str_eq k j then elim (get j m) [ none ↦ none | some v ↦ some (f v) ] else get j m)
  unfolding get update
  get-update k j f [] = ground arith
  get-update k j f ((i, w) ∷ m) =
      ground (arith, str_eq_iff k j, str_eq_iff i k, str_eq_iff i j, get-update k j f m)

  -- No key stands twice, as in every `HashMap`.
  abbrev pub Unique : Map V → Type ℓ
  Unique [] = Unit {ℓ}
  Unique ((k, v) ∷ m) = (get k m ≡ none) × Unique m

  -- What a test leaves of a lookup.
  abbrev pub filtered : (V → Bool) → Option V → Option V
  filtered p none = none
  filtered p (some v) = if p v then some v else none

  get-retain-none :
      (p : V → Bool) (k : Str) (m : Map V) → get k m ≡ none → get k (retain p m) ≡ none
  unfolding get retain
  get-retain-none p k [] e = refl
  get-retain-none p k ((j, w) ∷ m) e = ground (arith, get-retain-none p k m)

  pub get-retain :
      (p : V → Bool) (k : Str) (m : Map V) → Unique m → get k (retain p m) ≡ filtered p (get k m)
  unfolding get retain
  get-retain p k [] u = refl
  get-retain p k ((j, w) ∷ m) u =
      ground (arith, str_eq_iff j k, get-retain-none p k m, get-retain p k m u.1)

  pub length-retain-le : (p : V → Bool) (m : Map V) → length (retain p m) ≤ length m
  unfolding retain
  length-retain-le p [] = omega arith
  length-retain-le p ((j, w) ∷ m) = ground (arith, length-retain-le p m)
