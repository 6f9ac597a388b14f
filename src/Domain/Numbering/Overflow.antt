-- ===== src/Domain/Numbering/Overflow.antt =====
-- The one range on which the numbering's `i32` addition overflows.
use dian_service.Base.{ℕ, ◌≤◌, ◌≡◌, none, arith}
use dian_service.Base.Int.{IsI32, max32, min32, pos, ◌≤ℤ◌, add32, sub32_one}
use dian_service.Domain.Errors.{ok}
use dian_service.Domain.Models.{NumberingRange}
use dian_service.Domain.Numbering.{candidate, next_number}

-- A range up to the largest `i32` whose last number is given out: the next number asked for is not
-- refused as exhausted but wraps around to the smallest `i32`, in a build without overflow checks.
pub next_number-wraps :
    (r : NumberingRange) (now : ℕ)
    → IsI32 r.from_number
    → pos 1 ≤ℤ r.from_number
    → r.to_number ≡ max32
    → r.current_counter ≡ max32
    → r.valid_date_from ≤ now
    → now ≤ r.valid_date_to
    → next_number r none now ≡ ok min32
unfolding next_number candidate add32
next_number-wraps r now from positive to full started not_ended = ground (
  arith,
  sub32_one r.from_number from (omega (arith, positive)),
  to,
  full,
  started,
  not_ended,
  from.below,
  positive,
)
