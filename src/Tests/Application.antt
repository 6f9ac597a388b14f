-- ===== src/Tests/Application.antt =====
-- The theorems of the application at work.
use dian_service.Base.{ℕ, ◌≡◌, ◌≤◌, ◌∷◌, [], ◌++◌, ◌-◌, ◌*◌, ◌^◌, min, max, some, arith}
use dian_service.Base.Int.{pos, pos_part}
use dian_service.Application.Resilience.{
  CircuitBreaker, open_since, closed, backoff_with_jitter, record_failure, record_success,
}
use dian_service.Application.Resilience.Delay.{backoff_with_jitter_bounds}
use dian_service.Application.Resilience.Probes.{
  passes, passes-le_one, opens_at_threshold, fail_all, tripped,
}

backoff_with_jitter_bounds_example :
    ((delay : ℕ) × (backoff_with_jitter 1234 (pos 3) 2000 600000 ≡ some delay)
      × (500 ≤ delay)
      × (delay ≤ max (min (2000 * 2 ^ min (pos_part (pos 3)) 16) 600000) 500))
    × (backoff_with_jitter (7000 - 500) (pos 3) 2000 600000 ≡ some 7000)
backoff_with_jitter_bounds_example =
    backoff_with_jitter_bounds 1234 (pos 3) 2000 600000 7000 (omega arith) (omega arith)
      (omega arith)

abbrev opened_breaker : CircuitBreaker
opened_breaker = record {
  state = open_since 100;
  failures = 3;
  failure_threshold = 3;
  cooldown = 60;
}

passes-le_one_example : passes opened_breaker (120 ∷ 165 ∷ 170 ∷ []) ≤ 1
passes-le_one_example =
    passes-le_one opened_breaker 120 (120 ∷ 165 ∷ 170 ∷ []) (ground arith) (ground arith)

abbrev two_failures : CircuitBreaker
two_failures = record { state = closed; failures = 2; failure_threshold = 3; cooldown = 60 }

tripped_example :
    (passes (record_failure 100 two_failures) (120 ∷ 150 ∷ []) ≡ 0)
    × (passes (record_failure 100 two_failures) ((120 ∷ 150 ∷ []) ++ 160 ∷ []) ≡ 1)
tripped_example =
    tripped two_failures 100 (120 ∷ 150 ∷ []) 160 (omega arith) (omega arith) (ground arith)
      (omega arith)

opens_at_threshold_example :
    ((fail_all (10 ∷ 20 ∷ []) (record_success opened_breaker)).state ≡ closed)
    × ((record_failure 30 (fail_all (10 ∷ 20 ∷ []) (record_success opened_breaker))).state
        ≡ open_since 30)
opens_at_threshold_example =
    opens_at_threshold opened_breaker (10 ∷ 20 ∷ []) 30 (omega arith) (omega arith)
