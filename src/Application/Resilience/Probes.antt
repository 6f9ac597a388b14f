-- ===== src/Application/Resilience/Probes.antt =====
-- How many requests an environment sees while it fails.
use dian_service.Base.{
  ℕ, suc, ◌+◌, ◌≤◌, ◌<◌, ◌≡◌, refl, ◌∙◌, ◌≢◌, true, false, arith, List, [], ◌∷◌, length, All, ◌++◌,
}
use dian_service.Application.Resilience.{
  closed, open_since, half_open_since, CircuitBreaker, can_execute, record_success, record_failure,
}

-- The requests let through, of those made at the given times.
unfoldable pub passes : CircuitBreaker → List ℕ → ℕ
passes b [] = 0
passes b (t ∷ ts) =
    let (passed, c) = can_execute t b in
    elim passed [ true ↦ suc (passes c ts) | false ↦ passes c ts ]

abbrev pub Within : ℕ → ℕ → List ℕ → Type 0
Within t u = All (λ v. (t ≤ v) × (v < u))

-- Failures at the given times.
unfoldable pub fail_all : List ℕ → CircuitBreaker → CircuitBreaker
fail_all [] b = b
fail_all (t ∷ ts) b = fail_all ts (record_failure t b)

probed :
    (b : CircuitBreaker) (t since : ℕ) (us : List ℕ)
    → b.state ≡ half_open_since since
    → t ≤ since
    → Within t (t + b.cooldown) us
    → passes b us ≡ 0
unfolding passes can_execute
probed b t since [] e h w = refl
probed b t since (u ∷ us) e h w = ground (arith, e, w.0, probed b t since us e h w.1)

-- A breaker that is not closed lets at most one request through in any stretch of time that is no
-- longer than the cooldown, if none of them reports a result meanwhile.
pub passes-le_one :
    (b : CircuitBreaker) (t : ℕ) (us : List ℕ)
    → b.state ≢ closed
    → Within t (t + b.cooldown) us
    → passes b us ≤ 1
unfolding passes can_execute
passes-le_one b t [] h w = omega arith
passes-le_one b t (u ∷ us) h w = ground (
  arith,
  h,
  w.0,
  passes-le_one b t us h w.1,
  probed (record b { state = half_open_since u }) t u us refl w.0.0 w.1,
)

refused :
    (b : CircuitBreaker) (t : ℕ) (us : List ℕ) (v : ℕ)
    → b.state ≡ open_since t
    → Within t (t + b.cooldown) us
    → t + b.cooldown ≤ v
    → (passes b us ≡ 0) × (passes b (us ++ v ∷ []) ≡ 1)
unfolding passes can_execute
refused b t [] v e w later = (refl, ground (arith, e))
refused b t (u ∷ us) v e w later = ground (arith, e, w.0, refused b t us v e w.1 later)

-- After a failure that reaches the threshold every request is refused until the cooldown is over,
-- whatever requests come before it, and the first one after the cooldown passes.
pub tripped :
    (b : CircuitBreaker) (t : ℕ) (us : List ℕ) (v : ℕ)
    → b.failures + 1 < 4294967296
    → b.failure_threshold ≤ b.failures + 1
    → Within t (t + b.cooldown) us
    → t + b.cooldown ≤ v
    → (passes (record_failure t b) us ≡ 0) × (passes (record_failure t b) (us ++ v ∷ []) ≡ 1)
unfolding record_failure
tripped b t us v small reached w later = ground (
  arith,
  refused (record b { failures = b.failures + 1; state = open_since t }) t us v refl w later,
)

one_failure :
    (b : CircuitBreaker) (t : ℕ)
    → b.state ≡ closed
    → b.failures + 1 < 4294967296
    → b.failures + 1 < b.failure_threshold
    → record_failure t b ≡ record b { failures = b.failures + 1 }
unfolding record_failure
one_failure b t c w h = ground arith

failing :
    (b : CircuitBreaker) (ts : List ℕ)
    → b.state ≡ closed
    → b.failures + length ts < 4294967296
    → b.failures + length ts < b.failure_threshold
    → fail_all ts b ≡ record b { failures = b.failures + length ts }
unfolding fail_all
failing b [] c w h = ground arith
failing b (t ∷ ts) c w h = rw (one_failure b t c (omega arith) (omega arith)) (
    failing (record b { failures = b.failures + 1 }) ts c (omega arith) (omega arith)
    ∙ ground arith)

-- From a success on, fewer failures than the threshold leave the breaker closed, and the failure that
-- reaches the threshold opens it at its time.
pub opens_at_threshold :
    (b : CircuitBreaker) (ts : List ℕ) (t : ℕ)
    → b.failure_threshold < 4294967296
    → length ts + 1 ≡ b.failure_threshold
    → ((fail_all ts (record_success b)).state ≡ closed)
      × ((record_failure t (fail_all ts (record_success b))).state ≡ open_since t)
unfolding record_success record_failure
opens_at_threshold b ts t w h =
    ground (
      arith,
      failing (record b { state = closed; failures = 0 }) ts refl (omega arith) (omega arith),
    )
