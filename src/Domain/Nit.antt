-- ===== src/Domain/Nit.antt =====
-- core-domain/src/nit.rs: the check digit of a NIT.
pub mod Errors
use Prim.Native.String.{len}
use dian_service.Base.{
  ℕ, ◌+◌, ◌-◌, ◌*◌, ◌%◌, ◌||◌, not, List, [], ◌∷◌, reverse, Option, none, some, String, ltb, leb,
  length, if◌then◌else◌,
}
use dian_service.Base.Chars.{is_digit}
use dian_service.Base.Strings.{is_empty, every_char}
use dian_service.Base.Text.{codes}

abbrev pub weights : List ℕ
weights = 3 ∷ 7 ∷ 13 ∷ 17 ∷ 19 ∷ 23 ∷ 29 ∷ 37 ∷ 41 ∷ 43 ∷ 47 ∷ 53 ∷ 59 ∷ 67 ∷ 71 ∷ []

-- The sum over the digits, of which each has its weight; a `u32`, of at most 15 * 9 * 71.
unfoldable pub weighted_sum : List ℕ → List ℕ → ℕ
weighted_sum [] ws = 0
weighted_sum (c ∷ cs) [] = 0
weighted_sum (c ∷ cs) (w ∷ ws) = (c - 48) * w + weighted_sum cs ws

unfoldable pub digit_of : ℕ → ℕ
digit_of remainder = if leb 2 remainder then 11 - remainder else remainder

unfoldable pub check_digit : String → Option ℕ
check_digit nit =
    if is_empty nit || ltb (length weights) (len nit) || not (every_char is_digit nit)
    then none
    else some (digit_of (weighted_sum (reverse (codes nit)) weights % 11))
