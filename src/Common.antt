-- ===== src/Common.antt =====
-- The names that the other modules share: the libraries', passed on, and the helpers of the
-- children, which model what the code uses of the JavaScript language (tests, arrays, `Map`, text).
mod Branch
mod Lists
mod Text
mod Integers
mod Template
pub mod Map
pub use Branch.*
pub use Lists.*
unfoldable pub use Text.{to_lower_case, to_upper_case}
pub use Template.{template}
pub use Template.Decimal.{print_nat-injective, append-cancel}
pub use Integers.{Integer, is_nat}
unfoldable pub use Integers.{parse_int}
unfoldable pub use Template.{print_nat}
pub use Text.{to_lower_case_idem}
pub use Prim.Native.Nat.{ℕ, zero, suc, ◌+◌, ◌-◌, ◌*◌, ◌/◌, ◌%◌, ◌≤◌, ◌<◌}
pub use Prim.Native.String.{String}
pub use mathlib.Core.Path.{◌≡◌, refl, sym, ap, subst, ◌∙◌, fun_ext}
pub use mathlib.Core.Logic.{◌≢◌, ◌↔◌, ◌⊎◌, inl, inr}
pub use mathlib.Core.Bool.{Bool, true, false, not, ◌&&◌, ◌||◌}
pub use mathlib.Core.Option.{Option, none, some}
pub use mathlib.Core.List.{List, [], ◌∷◌, ◌++◌, map}
pub use native.Mathlib.Omega.{arith}
pub use text.Mathlib.Text.{◌==◌}
pub use text.Mathlib.TextEquality.{eq_iff}
pub use text.Mathlib.TextPositions.{eq_refl}
