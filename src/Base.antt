-- ===== src/Base.antt =====
-- Names that the other modules share: those of the libraries, passed on, and of the children:
-- tests on numbers, Go's strings, 64-bit integers, lists, and maps keyed by strings.
mod Tests
mod Lists
mod Strs
mod Ints
mod Maps
mod Results
mod Texts
mod Totals
pub use Tests.*
unfoldable pub use Lists.*
unfoldable pub use Strs.*
unfoldable pub use Ints.*
unfoldable pub use Maps.*
pub use Results.*
pub use Totals.*
unfoldable pub use Texts.*
pub use Prim.Native.Nat.{ℕ, zero, suc, ◌+◌, ◌-◌, ◌*◌, ◌/◌, ◌%◌, ◌^◌, ◌≤◌, ◌<◌}
pub use Prim.Native.String.{String}
pub use mathlib.Core.Path.{◌≡◌, refl, sym, ap, subst, ◌∙◌}
pub use mathlib.Core.Logic.{◌≢◌, ◌↔◌, ◌⊎◌, inl, inr}
pub use mathlib.Core.Bool.{Bool, true, false, not, ◌&&◌, ◌||◌}
pub use mathlib.Core.Option.{Option, none, some}
pub use mathlib.Core.List.{List, [], ◌∷◌, ◌++◌, map, flatten}
pub use native.Mathlib.Omega.{arith}
