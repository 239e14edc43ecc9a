-- ===== src/Prelude.antt =====
-- The names that the other modules share: those of the libraries, passed on, and those of the children.
mod Tests
mod Lists
mod Int
mod Results
mod Python
mod Dicts
mod Sorting
unfoldable pub use Tests.*
pub use Lists.*
pub use Int.*
pub use Results.*
pub use Python.*
unfoldable pub use Dicts.*
unfoldable pub use Sorting.*
pub use Prim.Native.Nat.{ℕ, zero, suc, ◌+◌, ◌-◌, ◌*◌, ◌/◌, ◌≤◌, ◌<◌}
pub use Prim.Native.String.{String}
pub use mathlib.Core.Path.{◌≡◌, refl, sym, ap, ◌∙◌, subst}
pub use mathlib.Core.Logic.{◌≢◌, ◌↔◌, ◌⊎◌, inl, inr}
pub use mathlib.Core.Bool.{Bool, true, false, not, ◌&&◌, ◌||◌}
pub use mathlib.Core.Option.{Option, none, some}
pub use mathlib.Core.List.{List, [], ◌∷◌, ◌++◌, map}
pub use native.Mathlib.Omega.{arith}
