-- ===== src/Common/Integers.antt =====
-- `parseInt(text, 10)`: blanks (ASCII) are skipped, then a sign and the digits are read; what follows
-- is ignored.
use Prim.Native.Char.{Char, code}
use Prim.Native.Nat.{ℕ, ◌+◌, ◌-◌, ◌*◌}
use Prim.Native.String
use Prim.Native.String.{String}
use mathlib.Core.Bool.{Bool, true, false, not, ◌&&◌, ◌||◌}
use mathlib.Core.Option.{Option, none, some}
use mathlib.Core.Path.{◌≡◌, refl}
use schematica_api.Common.Branch.{leb, nat_eq, if◌then◌else◌}

pub record Integer : Type 0 where
  pub is_negative : Bool
  pub magnitude : ℕ

-- The integer is the natural number.
abbrev pub is_nat : Integer → ℕ → Bool
is_nat i n = nat_eq i.magnitude n && (not i.is_negative || nat_eq n 0)

is_digit : Char → Bool
is_digit c = leb 48 (code c) && leb (code c) 57

is_blank : Char → Bool
is_blank c = nat_eq (code c) 32 || (leb 9 (code c) && leb (code c) 13)

or_zero : Option ℕ → ℕ
or_zero none = 0
or_zero (some n) = n

parse_digits : Option ℕ → String → Option ℕ
unfolding is_digit or_zero
parse_digits read Prim.Native.String.[] = read
parse_digits read (Prim.Native.String.◌∷◌ c s) =
    let rest = parse_digits (some (10 * or_zero read + (code c - 48))) s in
    if is_digit c then rest else read

signed : Bool → Option ℕ → Option Integer
signed negative none = none
signed negative (some n) = some (record { is_negative = negative; magnitude = n })

-- none stands for NaN
unfoldable pub parse_int : String → Option Integer
unfolding is_blank parse_digits signed
parse_int Prim.Native.String.[] = none
parse_int (Prim.Native.String.◌∷◌ c s) =
    let rest = parse_int s in
    if is_blank c
    then rest
    else if nat_eq (code c) 45
    then signed true (parse_digits none s)
    else if nat_eq (code c) 43
    then signed false (parse_digits none s)
    else signed false (parse_digits none (Prim.Native.String.◌∷◌ c s))

parse_test : parse_int " 12ab" ≡ some (record { is_negative = false; magnitude = 12 })
unfolding parse_int
parse_test = refl

nan_test : parse_int "x1" ≡ none
unfolding parse_int
nan_test = refl
