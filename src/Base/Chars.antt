-- ===== src/Base/Chars.antt =====
-- Characters from their numbers.
use Prim.Native.Nat.{ℕ, ◌-◌}
use Prim.Native.Char.{Char, char, IsScalar}
use mathlib.Core.Path.{◌≡◌}
use mathlib.Core.Bool.{Bool, true, false, ◌&&◌, ◌||◌}
use mathlib.Core.Logic.{inl, inr}
use mathlib.Core.Option.{Option, none, some}
use native.Mathlib.Omega.{arith}
use dian_service.Base.Tests.{ltb, leb, Bool-cases, if◌then◌else◌}

pub low-IsScalar : (n : ℕ) → ltb n 55296 ≡ true → IsScalar n
low-IsScalar n h = ground arith

pub high-IsScalar :
    (n : ℕ) → ltb n 55296 ≡ false → (ltb 57343 n ≡ true) → (ltb n 1114112 ≡ true) → IsScalar n
high-IsScalar n h k l = ground arith

-- `char::from_u32`
unfoldable pub from_u32 : ℕ → Option Char
unfolding Bool-cases
from_u32 n = elim (Bool-cases (ltb n 55296)) [
  | inl low ↦ some (char n (low-IsScalar n low))
  | inr high ↦ elim (Bool-cases (ltb 57343 n)) [
    | inl above ↦ elim (Bool-cases (ltb n 1114112)) [
      | inl below ↦ some (char n (high-IsScalar n high above below))
      | inr _ ↦ none
    ]
    | inr _ ↦ none
  ]
]

-- `is_ascii_digit`, `is_ascii_alphanumeric` and `is_ascii_hexdigit`.
abbrev pub is_digit : ℕ → Bool
is_digit c = leb 48 c && leb c 57

abbrev pub is_alphanumeric : ℕ → Bool
is_alphanumeric c = is_digit c || leb 65 c && leb c 90 || leb 97 c && leb c 122

abbrev pub is_hex_digit : ℕ → Bool
is_hex_digit c = is_digit c || leb 65 c && leb c 70 || leb 97 c && leb c 102

-- `char::to_digit`, for a radix up to sixteen.
unfoldable pub digit_value : ℕ → ℕ → Option ℕ
digit_value radix c =
    let v =
      if is_digit c
      then c - 48
      else if leb 65 c && leb c 70
      then c - 55
      else if leb 97 c && leb c 102
      then c - 87
      else 16 in
    if ltb v radix then some v else none
