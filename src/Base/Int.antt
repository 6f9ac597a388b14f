-- ===== src/Base/Int.antt =====
-- Signed integers over the native numbers, and `i32` arithmetic, which wraps.
use Prim.Native.Nat.{ℕ, suc, ◌+◌, ◌-◌, ◌%◌, ◌^◌, ◌≤◌}
use mathlib.Core.Path.{◌≡◌}
use mathlib.Core.Logic.{◌↔◌}
use mathlib.Core.Bool.{Bool, true}
use native.Mathlib.Omega.{arith}
use dian_service.Base.Tests.{ltb, leb, nat_eq, if◌then◌else◌, Eq}

-- `negsuc n` is -(n + 1).
pub data ℤ : Type 0 where
  pos : ℕ → ℤ
  negsuc : ℕ → ℤ

abbrev pub pos_part : ℤ → ℕ
pos_part (pos n) = n
pos_part (negsuc n) = 0

abbrev pub neg_part : ℤ → ℕ
neg_part (pos n) = 0
neg_part (negsuc n) = suc n

infix 50 ◌≤ℤ◌ ◌<ℤ◌
abbrev pub ◌≤ℤ◌ : ℤ → ℤ → Type 0
a ≤ℤ b = pos_part a + neg_part b ≤ pos_part b + neg_part a

abbrev pub ◌<ℤ◌ : ℤ → ℤ → Type 0
a <ℤ b = suc (pos_part a + neg_part b) ≤ pos_part b + neg_part a

abbrev pub ltb_ℤ : ℤ → ℤ → Bool
ltb_ℤ a b = ltb (pos_part a + neg_part b) (pos_part b + neg_part a)

abbrev pub eqb_ℤ : ℤ → ℤ → Bool
eqb_ℤ a b = nat_eq (pos_part a + neg_part b) (pos_part b + neg_part a)

pub eqb_ℤ_iff : (a b : ℤ) → (eqb_ℤ a b ≡ true) ↔ (a ≡ b)
eqb_ℤ_iff a b = ground arith

instance abbrev pub ℤ_eq : Eq ℤ
ℤ_eq = record { test = eqb_ℤ; correct = eqb_ℤ_iff }

-- a - b, as an integer.
abbrev pub sub_ℕ : ℕ → ℕ → ℤ
sub_ℕ a b = if leb b a then pos (a - b) else negsuc (b - a - 1)

unfoldable pub max_ℤ : ℤ → ℤ → ℤ
max_ℤ a b = if ltb_ℤ a b then b else a

-- The bit pattern of an `i32`, and the number that a pattern stands for.
abbrev pub to_bits32 : ℤ → ℕ
to_bits32 (pos n) = n % 2 ^ 32
to_bits32 (negsuc n) = 2 ^ 32 - 1 - n % 2 ^ 32

abbrev pub of_bits32 : ℕ → ℤ
of_bits32 w = if ltb w (2 ^ 31) then pos w else negsuc (2 ^ 32 - w - 1)

-- `a + b` and `a - b` on `i32` in a release build.
unfoldable pub add32 : ℤ → ℤ → ℤ
add32 a b = of_bits32 ((to_bits32 a + to_bits32 b) % 2 ^ 32)

unfoldable pub sub32 : ℤ → ℤ → ℤ
sub32 a b = of_bits32 ((to_bits32 a + 2 ^ 32 - to_bits32 b) % 2 ^ 32)

abbrev pub max32 : ℤ
max32 = pos (2 ^ 31 - 1)

abbrev pub min32 : ℤ
min32 = negsuc (2 ^ 31 - 1)

pub record IsI32 (a : ℤ) : Type 0 where
  pub above : min32 ≤ℤ a
  pub below : a ≤ℤ max32

-- Below the largest `i32` the successor is exact, and above the smallest the predecessor.
pub add32_one :
    (a : ℤ)
    → IsI32 a
    → a <ℤ max32
    → pos_part (add32 a (pos 1)) + neg_part a ≡ pos_part a + neg_part (add32 a (pos 1)) + 1
unfolding add32
add32_one a i h = ground arith

pub sub32_one :
    (a : ℤ)
    → IsI32 a
    → min32 <ℤ a
    → pos_part (sub32 a (pos 1)) + neg_part a + 1 ≡ pos_part a + neg_part (sub32 a (pos 1))
unfolding sub32
sub32_one a i h = ground arith

pub eq_of_parts : (a b : ℤ) → pos_part a + neg_part b ≡ pos_part b + neg_part a → a ≡ b
eq_of_parts a b h = ground arith
