-- ===== src/Common/Template.antt =====
-- Template literals: texts put together, with numbers in decimal.
pub mod Decimal
use Prim.Native.Nat.{ℕ, zero, suc, ◌/◌, ◌%◌}
use Prim.Native.String
use Prim.Native.String.{String}
use mathlib.Core.Path.{◌≡◌, refl}
use mathlib.Core.List.{List, [], ◌∷◌}
use schematica_api.Common.Branch.{ltb, if◌then◌else◌}

abbrev pub template : List String → String
template [] = ""
template (s ∷ ss) = Prim.Native.String.◌++◌ s (template ss)

char_of : String → ℕ → String
char_of Prim.Native.String.[] n = ""
char_of (Prim.Native.String.◌∷◌ c s) zero = Prim.Native.String.◌∷◌ c ""
char_of (Prim.Native.String.◌∷◌ c s) (suc n) = char_of s n

digit : ℕ → String
unfolding char_of
digit = char_of "0123456789"

-- A number has at most as many digits as its value plus one.
print_digits : ℕ → ℕ → String → String
unfolding digit
print_digits zero n after = after
print_digits (suc fuel) n after =
    let printed = Prim.Native.String.◌++◌ (digit (n % 10)) after in
    let rest = print_digits fuel (n / 10) printed in if ltb n 10 then printed else rest

unfoldable pub print_nat : ℕ → String
unfolding print_digits
print_nat n = print_digits (suc n) n ""

print_test : print_nat 1203 ≡ "1203"
unfolding print_nat
print_test = refl
