-- ===== src/Tests/Domain.antt =====
-- The theorems of the domain at work.
use dian_service.Base.{ℕ, All, [], ◌∷◌, none, ◌≡◌, refl, ◌↔◌, some, true, arith}
use dian_service.Base.Int.{pos, max32, min32}
use dian_service.Domain.Enums.{JobKind, pending, sent_dian}
use dian_service.Domain.Address.{Ipv4Addr, is_public_v4}
use dian_service.Domain.Address.Blocks.{Avoids, bits, special_blocks, is_public_v4_iff}
use dian_service.Domain.Numbering.Overflow.{next_number-wraps}
use dian_service.Domain.Errors.{ok}
use dian_service.Domain.Jobs.{zip_key, zip_key-new_poll_status, new_poll_status}
use dian_service.Domain.Lifecycle.{can_transition_to}
use dian_service.Domain.Lifecycle.Graph.{◌⟶◌, can_transition_to_iff}
use dian_service.Domain.Models.{Job, NumberingRange}
use dian_service.Domain.Nit.{check_digit, digit_of, weighted_sum}
use dian_service.Domain.Nit.Errors.{check_digit-eq}
use dian_service.Domain.Numbering.{next_number}
use dian_service.Domain.Numbering.Rules.{IsRange, Granted, next_number_iff}
use dian_service.Tests.Samples.{Sample, range, sample_json, sample_json-IsJson}

can_transition_to_iff_example : (can_transition_to pending sent_dian ≡ true) ↔ (pending ⟶ sent_dian)
can_transition_to_iff_example = can_transition_to_iff pending sent_dian

range-IsRange : IsRange range
range-IsRange = ground arith

next_number_iff_example :
    (next_number range (some (pos 1)) 500 ≡ ok (pos 1)) ↔ Granted range (some (pos 1)) 500 (pos 1)
next_number_iff_example = next_number_iff range (some (pos 1)) 500 (pos 1) range-IsRange

abbrev polling : Job Sample
polling = record {
  id = 3;
  kind = JobKind.poll_status;
  document_id = 9;
  payload = (new_poll_status sample_json 3 9 "key-1" 30 60).payload;
  attempts = 1;
  max_attempts = 30;
}

zip_key-new_poll_status_example : zip_key sample_json polling ≡ some "key-1"
zip_key-new_poll_status_example =
    zip_key-new_poll_status sample_json sample_json-IsJson polling 3 9 "key-1" 30 60 refl

abbrev full_range : NumberingRange
full_range = record range { to_number = max32; current_counter = max32 }

next_number-wraps_example : next_number full_range none 500 ≡ ok min32
next_number-wraps_example =
    next_number-wraps full_range 500 (ground arith) (omega arith) refl refl (omega arith)
      (omega arith)

abbrev metadata : Ipv4Addr
metadata = record { a = 169; b = 254; c = 169; d = 254 }

is_public_v4_iff_example :
    (is_public_v4 metadata ≡ true) ↔ All (Avoids (bits metadata)) special_blocks
is_public_v4_iff_example =
    is_public_v4_iff metadata (omega arith) (omega arith) (omega arith) (omega arith)

check_digit-eq_example : (◌≡◌ {A = ℕ}) 1 1
unfolding check_digit digit_of weighted_sum
check_digit-eq_example =
    check_digit-eq "111" "114" (49 ∷ 49 ∷ []) [] 49 52 1 refl refl (λ e. omega (arith, e)) first
      second
  where
    first : check_digit "111" ≡ some 1
    first = refl

    second : check_digit "114" ≡ some 1
    second = refl
