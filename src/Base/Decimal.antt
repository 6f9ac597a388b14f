-- ===== src/Base/Decimal.antt =====
-- `format!("{}", n)`: the decimal digits of a number.
use Prim.Native.Nat.{ℕ, suc, zero, ◌+◌, ◌*◌, ◌/◌, ◌%◌, ◌<◌}
use Prim.Native.Char.{Char, char, code, IsScalar}
use Prim.Native.String.{String}
use mathlib.Core.Path.{◌≡◌, refl, ap, ◌∙◌}
use mathlib.Core.Option.{some}
use mathlib.Core.Bool.{true, false}
use mathlib.Core.Logic.{inl, inr}
use native.Mathlib.Omega.{arith}
use dian_service.Base.Tests.{ltb, lt→ltb, Bool-cases, if◌then◌else◌}
use dian_service.Base.Chars.{low-IsScalar, is_digit, digit_value}
use dian_service.Base.Strings.{every_char, is_empty, digits_value}

digit-IsScalar : (n : ℕ) → IsScalar (48 + n % 10)
digit-IsScalar n = low-IsScalar (48 + n % 10) (lt→ltb (48 + n % 10) 55296 (omega arith))

unfoldable pub digit_char : ℕ → Char
unfolding digit-IsScalar
digit_char n = char (48 + n % 10) (digit-IsScalar n)

code-digit_char : (n : ℕ) → code (digit_char n) ≡ 48 + n % 10
unfolding digit_char
code-digit_char n = refl

digit_value-digit_char : (n : ℕ) → digit_value 10 (code (digit_char n)) ≡ some (n % 10)
unfolding digit_value
digit_value-digit_char n = rw (code-digit_char n) (ground arith)

digits_value-cons :
    (acc n : ℕ) (after : String)
    → digits_value 10 acc (String.◌∷◌ (digit_char n) after)
      ≡ digits_value 10 (acc * 10 + n % 10) after
unfolding digits_value
digits_value-cons acc n after = rw (digit_value-digit_char n, digits_value) refl

is_digit-digit_char : (n : ℕ) → is_digit (code (digit_char n)) ≡ true
is_digit-digit_char n = rw (code-digit_char n) (ground arith)

-- The digits, the last one first to be found, in front of those that follow; a number below
-- `fuel` has fewer digits than `fuel`.
unfoldable pub digits : ℕ → ℕ → String → String
digits zero n after = after
digits (suc fuel) n after =
    let rest = digits fuel (n / 10) (String.◌∷◌ (digit_char n) after) in
    if ltb n 10 then String.◌∷◌ (digit_char n) after else rest

unfoldable pub decimal : ℕ → String
decimal n = digits (suc n) n ""

-- Reading the digits back gives the number.
digits_value-digits :
    (fuel n : ℕ) (after : String)
    → n < fuel
    → digits_value 10 0 (digits fuel n after) ≡ digits_value 10 n after
unfolding digits
digits_value-digits zero n after h = absurd (omega arith)
digits_value-digits (suc fuel) n after h = elim (Bool-cases (ltb n 10)) [
  | inl small ↦
      rw small
        (digits_value-cons 0 n after ∙ ap (λ k. digits_value 10 k after) (ground (arith, small)))
  | inr large ↦ rw large (
      digits_value-digits fuel (n / 10) (String.◌∷◌ (digit_char n) after) (ground (arith, large))
      ∙ digits_value-cons (n / 10) n after
      ∙ ap (λ k. digits_value 10 k after) (omega arith))
]

every_char-digits :
    (fuel n : ℕ) (after : String)
    → every_char is_digit after ≡ true
    → every_char is_digit (digits fuel n after) ≡ true
unfolding digits
every_char-digits zero n after h = h
every_char-digits (suc fuel) n after h = elim (Bool-cases (ltb n 10)) [
  | inl small ↦ rw small (rw (is_digit-digit_char n) h)
  | inr large ↦ rw large (
      every_char-digits fuel (n / 10) (String.◌∷◌ (digit_char n) after)
        (rw (is_digit-digit_char n) h))
]

is_empty-digits :
    (fuel n : ℕ) (after : String) → is_empty after ≡ false → is_empty (digits fuel n after) ≡ false
unfolding digits
is_empty-digits zero n after h = h
is_empty-digits (suc fuel) n after h = elim (Bool-cases (ltb n 10)) [
  | inl small ↦ rw small refl
  | inr large ↦ rw large (is_empty-digits fuel (n / 10) (String.◌∷◌ (digit_char n) after) refl)
]

is_empty-digits-suc : (fuel n : ℕ) (after : String) → is_empty (digits (suc fuel) n after) ≡ false
unfolding digits
is_empty-digits-suc fuel n after = elim (Bool-cases (ltb n 10)) [
  | inl small ↦ rw small refl
  | inr large ↦ rw large (is_empty-digits fuel (n / 10) (String.◌∷◌ (digit_char n) after) refl)
]

-- The digits of a number: there are some, they are digits, and they are read as the number.
pub decimal-digits :
    (n : ℕ)
    → (is_empty (decimal n) ≡ false)
      × (every_char is_digit (decimal n) ≡ true)
      × (digits_value 10 0 (decimal n) ≡ some n)
unfolding decimal digits_value
decimal-digits n = (
  is_empty-digits-suc n n "",
  every_char-digits (suc n) n "" refl,
  digits_value-digits (suc n) n "" (omega arith),
)
