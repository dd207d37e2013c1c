-- ===== src/Prelude.antt =====
-- The names that the other modules share: those of the libraries, and the helpers of the children
-- (tests on numbers, lists measured by native numbers, results and panics).
mod Tests
mod Lists
mod Outcomes
mod Windows
mod Classes
mod Removal
mod Commuting
pub use Tests.*
pub use Lists.*
pub use Outcomes.*
pub use Windows.*
pub use Classes.*
pub use Removal.*
pub use Commuting.*
pub use Prim.Native.Nat.{ℕ, zero, suc, ◌+◌, ◌-◌, ◌*◌, ◌/◌, ◌%◌, ◌^◌, ◌≤◌, ◌<◌, min}
pub use mathlib.Core.Path.{◌≡◌, refl, sym, ap, ap₂, subst, ◌∙◌}
pub use mathlib.Core.Logic.{◌≢◌, ◌↔◌, ◌⊎◌, inl, inr}
pub use mathlib.Core.Bool.{Bool, true, false, not, ◌&&◌, ◌||◌}
pub use mathlib.Core.Option.{Option, none, some}
pub use mathlib.Core.List.{List, [], ◌∷◌, ◌++◌, map, Perm, append_assoc, append-nil, map-append}
pub use native.Mathlib.Omega.{arith}
