-- ===== src/Base.antt =====
-- The names that every module shares: those of the libraries, passed on, and those of the children.
-- They stand for C's own operations, for the fixed-width arithmetic and for `memcmp`.
mod Tests
mod Lists
mod Order
pub mod Bits
unfoldable pub use Tests.{all_below}
pub use Tests.*
pub use Lists.*
pub use Order.*
pub use Prim.Native.Nat.{
  ℕ, zero, suc, ◌+◌, ◌-◌, ◌*◌, ◌/◌, ◌%◌, ◌^◌, ◌≤◌, ◌<◌, min, max, compare, Ordering, bit_and,
  bit_or, bit_xor,
}
pub use Prim.Native.String.{String}
pub use mathlib.Core.Path.{◌≡◌, refl, sym, ap, ◌∙◌, subst}
pub use mathlib.Core.Logic.{◌≢◌, ◌↔◌, ◌⊎◌, inl, inr}
pub use mathlib.Core.Bool.{Bool, true, false, not, ◌&&◌, ◌||◌}
pub use mathlib.Core.Option.{Option, none, some}
pub use mathlib.Core.List.{List, [], ◌∷◌, ◌++◌, map, append-nil, append_assoc}
pub use native.Mathlib.Omega.{arith}
