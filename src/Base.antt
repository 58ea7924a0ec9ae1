-- ===== src/Base.antt =====
-- The names that the other modules share: the libraries', passed on, and those of the children
-- (tests, equality, lists, dictionaries, text). Not tied to one source file.
mod Test
mod Equality
mod Lists
pub mod Dict
pub mod Text
pub mod Hex
pub mod Decimal
pub use Test.*
pub use Lists.*
pub use Equality.{Eq, ◌==◌, contains}
unfoldable pub use Equality.{nat_eq, pair_eq, list_eq}
pub use Text.{Str, str}
pub use Prim.Native.Nat.{ℕ, zero, suc, ◌+◌, ◌-◌, ◌*◌, ◌/◌, ◌%◌, ◌^◌, ◌≤◌, ◌<◌, min}
pub use mathlib.Core.Path.{◌≡◌, refl, sym, ap, ◌∙◌}
pub use mathlib.Core.Logic.{◌≢◌, ◌↔◌, ◌⊎◌, inl, inr, ite}
pub use mathlib.Core.Bool.{Bool, true, false, not, ◌&&◌, ◌||◌}
pub use mathlib.Core.Option.{Option, none, some}
pub use mathlib.Core.List.{List, [], ◌∷◌, ◌++◌, map, reverse}
pub use native.Mathlib.Omega.{arith}
