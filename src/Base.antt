-- ===== src/Base.antt =====
-- Names that every module shares: the library's, passed on, and those of the children.
mod Tests
mod Bits
mod Lists
mod Outcome
mod Strings
pub use Tests.{ltb, leb, ◌==◌, if◌then◌else◌, ==_iff, ltb→lt, lt→ltb, Bool-cases, every_below-true}
unfoldable pub use Tests.{every_below}
pub use Bits.{bit_or-shifted}
pub use Lists.*
pub use Outcome.*
pub use Strings.{Str, codes, is_empty, str_eq_iff}
unfoldable pub use Strings.{str_eq, decimal_digits, to_decimal}
pub use Prim.Native.Nat.{ℕ, zero, suc, ◌+◌, ◌-◌, ◌*◌, ◌/◌, ◌%◌, ◌^◌, ◌≤◌, ◌<◌}
pub use mathlib.Core.Path.{◌≡◌, refl, sym, ap, ap₂, ◌∙◌, subst}
pub use mathlib.Core.Logic.{◌≢◌, ◌⊎◌, inl, inr}
pub use mathlib.Core.Bool.{Bool, true, false, not, ◌&&◌, ◌||◌}
pub use mathlib.Core.Option.{Option, none, some}
pub use mathlib.Core.List.{List, [], ◌∷◌, ◌++◌, map}
pub use native.Mathlib.Omega.{arith}
