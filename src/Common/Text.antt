-- ===== src/Common/Text.antt =====
-- `String.prototype.toLowerCase`, on ASCII: the letters A to Z become a to z, and every other
-- character stays. The program applies it to HTTP methods and to names that it compares.
use Prim.Native.Char.{Char, code}
use Prim.Native.String.{String, [], ◌∷◌}
use mathlib.Core.Path.{◌≡◌, refl, ap}
use mathlib.Core.Logic.{◌⊎◌, inl, inr}
use native.Mathlib.Omega.{arith}
use schematica_api.Common.Branch.{nat_eq, Bool-cases, if◌then◌else◌}

-- The letter below `c`, if `c` is in the upper row.
shift : String → String → Char → Char
shift (u ∷ us) (l ∷ ls) c = if nat_eq (code u) (code c) then l else shift us ls c
shift _ _ c = c

abbrev upper : String
upper = "ABCDEFGHIJKLMNOPQRSTUVWXYZ"

abbrev lower : String
lower = "abcdefghijklmnopqrstuvwxyz"

lower_char : Char → Char
unfolding shift
lower_char = shift upper lower

unfoldable pub to_lower_case : String → String
unfolding lower_char
to_lower_case [] = []
to_lower_case (c ∷ s) = lower_char c ∷ to_lower_case s

-- `String.prototype.toUpperCase`, on ASCII.
unfoldable pub to_upper_case : String → String
unfolding shift
to_upper_case [] = []
to_upper_case (c ∷ s) = shift lower upper c ∷ to_upper_case s

-- No letter of the second row stands in the first.
ShiftFixed : String → String → String → Type 0
ShiftFixed us ls [] = Unit
ShiftFixed us ls (c ∷ s) = (shift us ls c ≡ c) × ShiftFixed us ls s

shift-fixed :
    (us ls vs ms : String) (c : Char)
    → ShiftFixed us ls ms
    → (shift vs ms c ≡ c) ⊎ (shift us ls (shift vs ms c) ≡ shift vs ms c)
unfolding shift ShiftFixed
shift-fixed us ls (a ∷ vs) (b ∷ ms) c h = elim (Bool-cases (nat_eq (code a) (code c))) [
  | inl hit ↦ inr (rw hit h.0)
  | inr miss ↦ rw miss (shift-fixed us ls vs ms c h.1)
]
shift-fixed us ls [] bs c h = inl refl
shift-fixed us ls (a ∷ vs) [] c h = inl refl

lower_char_idem : (c : Char) → lower_char (lower_char c) ≡ lower_char c
unfolding lower_char ShiftFixed
lower_char_idem c = elim (shift-fixed upper lower upper lower c rows) [
  | inl same ↦ ap (shift upper lower) same
  | inr fixed ↦ fixed
]
  where
    rows : ShiftFixed upper lower lower
    rows = ground arith

pub to_lower_case_idem : (s : String) → to_lower_case (to_lower_case s) ≡ to_lower_case s
unfolding to_lower_case
to_lower_case_idem [] = refl
to_lower_case_idem (c ∷ s) = cc (lower_char_idem c, to_lower_case_idem s)

to_lower_case_test : to_lower_case "GET:/Users" ≡ "get:/users"
unfolding to_lower_case
to_lower_case_test = refl
