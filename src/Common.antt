-- ===== src/Common.antt =====
-- The names that every module shares: the libraries', passed on, with Boolean tests, lists and
-- machine words over the native numbers. Signed integers stand in Common/Int.
mod Tests
mod Lists
mod Options
mod Word
mod Division
pub mod Bits
pub mod Int
pub use Tests.*
pub use Options.*
pub use Lists.*
pub use Word.*
pub use Division.*
pub use Prim.Native.Nat.{ℕ, zero, suc, ◌+◌, ◌-◌, ◌*◌, ◌/◌, ◌%◌, ◌^◌, ◌≤◌, ◌<◌, min, max}
pub use mathlib.Core.Path.{◌≡◌, refl, sym, ap, subst, ◌∙◌}
pub use mathlib.Core.Logic.{◌≢◌, ◌↔◌, ◌⊎◌, inl, inr}
pub use mathlib.Core.Bool.{Bool, true, false, not, ◌&&◌, ◌||◌}
pub use mathlib.Core.Option.{Option, none, some, some-injective}
pub use mathlib.Core.List.{List, [], ◌∷◌, ◌++◌, map}
pub use native.Mathlib.Omega.{arith}
