-- ===== src/Common/Template/Decimal.antt =====
-- A number's decimal print is read back, and so distinct numbers have distinct prints.
use Prim.Native.Char.{Char, code}
use Prim.Native.Nat.{ℕ, zero, suc, ◌+◌, ◌-◌, ◌*◌, ◌/◌, ◌%◌, ◌<◌}
use Prim.Native.String
use Prim.Native.String.{String}
use mathlib.Core.Logic.{inl, inr}
use mathlib.Core.Path.{◌≡◌, refl, ap, sym, ◌∙◌}
use native.Mathlib.Omega.{arith}
use text.Mathlib.TextLemmas.{cons-append, nil-append, tail-eq_of_cons-eq}
use schematica_api.Common.Branch.{ltb, Bool-cases}
use schematica_api.Common.Template.{char_of, digit, print_digits, print_nat}

-- The number that the digits of `s` denote after those that denote `n`.
digits_value : String → ℕ → ℕ
digits_value Prim.Native.String.[] n = n
digits_value (Prim.Native.String.◌∷◌ c s) n = digits_value s (n * 10 + (code c - 48))

digits_value-char :
    (c : Char) (n : ℕ) (after : String)
    → digits_value (Prim.Native.String.◌++◌ (Prim.Native.String.◌∷◌ c "") after) n
      ≡ digits_value after (n * 10 + (code c - 48))
unfolding digits_value
digits_value-char c n after = rw (cons-append c "" after, nil-append after) refl

digits_value-digit :
    (k n : ℕ) (after : String)
    → k < 10
    → digits_value (Prim.Native.String.◌++◌ (digit k) after) n ≡ digits_value after (n * 10 + k)
unfolding digit char_of
digits_value-digit zero n after h = digits_value-char "0" n after
digits_value-digit (suc zero) n after h = digits_value-char "1" n after
digits_value-digit (suc (suc zero)) n after h = digits_value-char "2" n after
digits_value-digit (suc (suc (suc zero))) n after h = digits_value-char "3" n after
digits_value-digit (suc (suc (suc (suc zero)))) n after h = digits_value-char "4" n after
digits_value-digit (suc (suc (suc (suc (suc zero))))) n after h = digits_value-char "5" n after
digits_value-digit (suc (suc (suc (suc (suc (suc zero)))))) n after h =
    digits_value-char "6" n after
digits_value-digit (suc (suc (suc (suc (suc (suc (suc zero))))))) n after h =
    digits_value-char "7" n after
digits_value-digit (suc (suc (suc (suc (suc (suc (suc (suc zero)))))))) n after h =
    digits_value-char "8" n after
digits_value-digit (suc (suc (suc (suc (suc (suc (suc (suc (suc zero))))))))) n after h =
    digits_value-char "9" n after
digits_value-digit (suc (suc (suc (suc (suc (suc (suc (suc (suc (suc k)))))))))) n after h =
    absurd (omega arith)

digits_value-print_digits :
    (fuel n : ℕ) (after : String)
    → n < fuel
    → digits_value (print_digits fuel n after) 0 ≡ digits_value after n
unfolding print_digits
digits_value-print_digits zero n after h = absurd (omega arith)
digits_value-print_digits (suc fuel) n after h = elim (Bool-cases (ltb n 10)) [
  | inl small ↦ rw small (ground (arith, digits_value-digit (n % 10) 0 after (omega arith)))
  | inr large ↦ rw large (
      digits_value-print_digits fuel (n / 10) _ (ground arith)
      ∙ ground (arith, digits_value-digit (n % 10) (n / 10) after (omega arith)))
]

digits_value-print_nat : (n : ℕ) → digits_value (print_nat n) 0 ≡ n
unfolding print_nat digits_value
digits_value-print_nat n = digits_value-print_digits (suc n) n "" (omega arith)

pub print_nat-injective : (m n : ℕ) → print_nat m ≡ print_nat n → m ≡ n
print_nat-injective m n e =
    sym (digits_value-print_nat m) ∙ ap (λ s. digits_value s 0) e ∙ digits_value-print_nat n

pub append-cancel :
    (s t u : String) → Prim.Native.String.◌++◌ s t ≡ Prim.Native.String.◌++◌ s u → t ≡ u
append-cancel Prim.Native.String.[] t u e = sym (nil-append t) ∙ e ∙ nil-append u
append-cancel (Prim.Native.String.◌∷◌ c s) t u e =
    append-cancel s t u (tail-eq_of_cons-eq (sym (cons-append c s t) ∙ e ∙ cons-append c s u))
