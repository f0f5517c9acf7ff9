-- ===== src/Prelude.antt =====
-- The names that every module shares: the libraries', passed on, and those of the children, which
-- stand for the parts of Rust's standard library that the code uses.
mod Tests
mod Lists
pub mod Int
pub mod Text
pub mod Map
pub mod Results
pub mod Options
pub mod Tables
pub mod Decimal
pub use Tests.*
pub use Lists.*
unfoldable pub use Text.{str_eq}
pub use Text.{Str, codes, str_eq_iff, str_eq_refl, str_eq_comm, append_str}
pub use Results.{Result, ok, err}
pub use Prim.Native.Nat.{ℕ, zero, suc, ◌+◌, ◌-◌, ◌*◌, ◌/◌, ◌%◌, ◌^◌, ◌≤◌, ◌<◌}
pub use mathlib.Core.Path.{◌≡◌, refl, sym, ap, subst, ◌∙◌}
pub use mathlib.Core.Logic.{◌≢◌, ◌↔◌, ◌⊎◌, inl, inr}
pub use mathlib.Core.Bool.{Bool, true, false, not, ◌&&◌, ◌||◌}
pub use mathlib.Core.Option.{Option, none, some}
pub use mathlib.Core.List.{List, [], ◌∷◌, ◌++◌, map}
pub use native.Mathlib.Omega.{arith}
