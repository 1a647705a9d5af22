-- ===== src/Base.antt =====
-- The names that the other modules share: the libraries', passed on, and those of the children.
mod Tests
mod Lists
mod Equality
mod Fallible
mod Texts
pub mod Paths
pub mod GoMap
pub mod Sort
pub use Tests.*
pub use Lists.*
pub use Equality.*
pub use Fallible.{Result, ok, err, ◌>>=◌, >>=-eq-ok, Result-cases, each-Pointwise, traverse_iff}
unfoldable pub use Fallible.{traverse, each}
unfoldable pub use Texts.{str_lt}
pub use Texts.{str_lt_asym, str_le_trans}
pub use Prim.Native.Nat.{ℕ, zero, suc, ◌+◌, ◌-◌, ◌*◌, ◌/◌, ◌%◌, ◌^◌, ◌≤◌, ◌<◌}
pub use Prim.Native.String.{String}
pub use mathlib.Core.Path.{◌≡◌, refl, sym, ap, ◌∙◌}
pub use mathlib.Core.Logic.{◌≢◌, ◌↔◌, ◌⊎◌, inl, inr}
pub use mathlib.Core.Bool.{Bool, true, false, not, ◌&&◌, ◌||◌}
pub use mathlib.Core.Option.{Option, none, some}
pub use mathlib.Core.List.{List, [], ◌∷◌, ◌++◌, map, foldl}
pub use native.Mathlib.Omega.{arith}
