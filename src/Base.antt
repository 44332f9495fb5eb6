-- ===== src/Base.antt =====
-- The names that all parts of the development share: the libraries', passed on, the tests on numbers
-- and texts, and the lists and tables of rows that stand for the database's tables.
mod Tests
mod Lists
mod Rows
mod Keys
pub mod Arrays
pub mod Runs
pub mod Chars
unfoldable pub use Tests.*
pub use Lists.*
unfoldable pub use Rows.*
pub use Keys.*
pub use Prim.Native.Nat.{ℕ, zero, suc, ◌+◌, ◌-◌, ◌*◌, ◌/◌, ◌%◌, ◌≤◌, ◌<◌, min, max}
pub use Prim.Native.String.{String}
pub use mathlib.Core.Path.{◌≡◌, refl, sym, ap, ◌∙◌}
pub use mathlib.Core.Logic.{◌≢◌, ◌↔◌, ◌⊎◌, inl, inr}
pub use mathlib.Core.Bool.{Bool, true, false, not, ◌&&◌, ◌||◌}
pub use mathlib.Core.Option.{Option, none, some}
pub use mathlib.Core.List.{List, [], ◌∷◌, ◌++◌, map}
pub use native.Mathlib.Omega.{arith}
