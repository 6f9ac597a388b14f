-- ===== src/Domain/Numbering.antt =====
-- core-domain/src/numbering.rs. Numbers are `i32`, with the wrap-around of a release build.
pub mod Rules
pub mod Overflow
use dian_service.Base.{ℕ, ◌≡◌, Bool, ◌||◌, not, Option, none, some, ltb, if◌then◌else◌, ◌==◌}
use dian_service.Base.Int.{ℤ, pos, ltb_ℤ, max_ℤ, add32, sub32, ℤ_eq}
use dian_service.Domain.Errors.{Result, ok, err, validation, not_in_force, exhausted, not_next}
use dian_service.Domain.Models.{NumberingRange}

-- `current_counter.max(from_number - 1) + 1`
unfoldable pub candidate : NumberingRange → ℤ
unfolding max_ℤ
candidate r = add32 (max_ℤ r.current_counter (sub32 r.from_number (pos 1))) (pos 1)

-- The client's number, if it gives one, must be the candidate.
unfoldable pub check_requested : NumberingRange → Option ℤ → ℤ → Result ℤ
check_requested r none next = ok next
check_requested r (some number) next =
    if not (number == next) then err (validation (not_next number r.prefix next)) else ok next

unfoldable pub next_number : NumberingRange → Option ℤ → ℕ → Result ℤ
unfolding check_requested
next_number r requested now =
    if ltb now r.valid_date_from || ltb r.valid_date_to now
    then err (validation (not_in_force r.prefix r.valid_date_from r.valid_date_to))
    else if ltb_ℤ r.to_number (candidate r)
    then err (validation (exhausted r.prefix r.to_number))
    else check_requested r requested (candidate r)
