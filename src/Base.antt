-- ===== src/Base.antt =====
-- The names that the other modules share: the libraries', passed on, and those of the children.
mod Logic
mod Ints
mod Texts
mod Assoc
mod Streams
mod Effects
mod Total
mod Invariant
mod Postcondition
unfoldable pub use Logic.*
unfoldable pub use Ints.*
unfoldable pub use Texts.*
unfoldable pub use Assoc.*
unfoldable pub use Streams.*
unfoldable pub use Effects.*
pub use Total.*
pub use Invariant.*
pub use Postcondition.{
  Ensures, Ensures-bind, bind-eq-ok, bind_known, bind_ok, bind_value, or_value_value, attempt_value,
  if_value, need_or_throw_value,
}
pub use Prim.Native.Nat.{ℕ, zero, suc, ◌+◌, ◌-◌, ◌*◌, ◌/◌, ◌%◌, ◌^◌, ◌≤◌, ◌<◌}
pub use Prim.Native.String.{String}
pub use mathlib.Core.Path.{◌≡◌, refl, sym, ap, ◌∙◌, subst}
pub use mathlib.Core.Logic.{◌≢◌, ◌↔◌, ◌⊎◌, inl, inr}
pub use mathlib.Core.Bool.{Bool, true, false, not, ◌&&◌, ◌||◌}
pub use mathlib.Core.Option.{Option, none, some}
pub use mathlib.Core.List.{List, [], ◌∷◌, ◌++◌, map}
pub use native.Mathlib.Omega.{arith}
