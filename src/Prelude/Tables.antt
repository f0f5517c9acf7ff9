-- ===== src/Prelude/Tables.antt =====
-- Facts about a small range of numbers, by evaluation at each of them.
use moxui.Prelude.Tests.{◌==◌}
use Prim.Native.Nat.{ℕ, zero, suc, ◌<◌}
use mathlib.Core.Path.{◌≡◌}
use mathlib.Core.Bool.{Bool, true, false, ◌&&◌}
use mathlib.Core.Option.{Option, none, some}
use native.Mathlib.Omega.{arith}

-- The test passes at each number under the bound.
unfoldable pub passes_under : (ℕ → Bool) → ℕ → Bool
passes_under test zero = true
passes_under test (suc bound) = passes_under test bound && test bound

pub passes_under_lem :
    (test : ℕ → Bool) (bound : ℕ)
    → passes_under test bound ≡ true
    → (i : ℕ) → i < bound
    → test i ≡ true
unfolding passes_under
passes_under_lem test zero passed i small = ground (arith, small)
passes_under_lem test (suc bound) passed i small =
    let under : passes_under test bound ≡ true = ground (arith, passed) in
    let rest : i < bound → test i ≡ true = λ l. passes_under_lem test bound under i l in
    ground (arith, rest, passed, small)

unfoldable pub is_index : ℕ → Option ℕ → Bool
is_index x none = false
is_index x (some y) = x == y

pub is_index_lem : (x : ℕ) (o : Option ℕ) → is_index x o ≡ true → o ≡ some x
unfolding is_index
is_index_lem x none h = ground arith
is_index_lem x (some y) h = ground arith
