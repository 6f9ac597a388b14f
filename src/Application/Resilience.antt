-- ===== src/Application/Resilience.antt =====
-- application/src/resilience.rs: the circuit breaker of an environment, and the backoff. An `Instant`
-- is a number; `elapsed` stops at zero, as the subtraction does. The reading of the clock and the
-- random number are arguments.
pub mod Probes
pub mod Delay
use dian_service.Base.{
  ℕ, ◌+◌, ◌-◌, ◌*◌, ◌%◌, ◌^◌, Bool, true, false, ◌||◌, min, max, leb, if◌then◌else◌, Option, none,
  some,
}
use dian_service.Base.Int.{ℤ, pos_part}

pub data BreakerState : Type 0 where
  closed : BreakerState
  open_since half_open_since : ℕ → BreakerState

pub record CircuitBreaker : Type 0 where
  pub state : BreakerState
  pub failures : ℕ  -- u32
  pub failure_threshold : ℕ
  pub cooldown : ℕ

unfoldable pub new_breaker : ℕ → ℕ → CircuitBreaker
new_breaker failure_threshold cooldown = record {
  state = closed;
  failures = 0;
  failure_threshold = failure_threshold;
  cooldown = cooldown;
}

abbrev probe : ℕ → ℕ → CircuitBreaker → Bool × CircuitBreaker
probe now since b =
    if leb b.cooldown (now - since)
    then (true, record b { state = half_open_since now })
    else (false, b)

unfoldable pub can_execute : ℕ → CircuitBreaker → Bool × CircuitBreaker
can_execute now b = elim b.state [
  | closed ↦ (true, b)
  | open_since since ↦ probe now since b
  | half_open_since since ↦ probe now since b
]

unfoldable pub record_success : CircuitBreaker → CircuitBreaker
record_success b = record b { state = closed; failures = 0 }

abbrev is_half_open : BreakerState → Bool
is_half_open (half_open_since since) = true
is_half_open _ = false

unfoldable pub record_failure : ℕ → CircuitBreaker → CircuitBreaker
record_failure now b =
    let failures = (b.failures + 1) % 2 ^ 32 in
    if is_half_open b.state || leb b.failure_threshold failures
    then record b { failures = failures; state = open_since now }
    else record b { failures = failures }

pub record Breakers : Type 0 where
  pub habilitacion : CircuitBreaker
  pub produccion : CircuitBreaker

unfoldable pub new_breakers : ℕ → ℕ → Breakers
unfolding new_breaker
new_breakers failure_threshold cooldown = record {
  habilitacion = new_breaker failure_threshold cooldown;
  produccion = new_breaker failure_threshold cooldown;
}

unfoldable pub for_environment : Bool → Breakers → CircuitBreaker
for_environment true b = b.habilitacion
for_environment false b = b.produccion

-- The breaker behind the reference that `for_environment` returns, changed.
unfoldable pub set_environment : Bool → CircuitBreaker → Breakers → Breakers
set_environment true c b = record b { habilitacion = c }
set_environment false c b = record b { produccion = c }

-- A `Duration` in milliseconds; `saturating_mul` stops at the largest one.
abbrev pub max_duration : ℕ
max_duration = 1000 * 2 ^ 64 - 1

abbrev pub exponent : ℤ → ℕ
exponent attempt = min (pos_part attempt) 16

unfoldable pub ceiling : ℤ → ℕ → ℕ → ℕ
ceiling attempt base most =
    max (min (min (base * min (2 ^ exponent attempt) (2 ^ 32 - 1)) max_duration) most) 500

-- `gen_range(500..=ceiling as u64)` panics, here `none`, on an empty range; else it is 500 plus a
-- random number below the length of the range.
unfoldable pub backoff_with_jitter : ℕ → ℤ → ℕ → ℕ → Option ℕ
unfolding ceiling
backoff_with_jitter random attempt base most =
    let last = ceiling attempt base most % 2 ^ 64 in
    if leb 500 last then some (500 + random % (last - 500 + 1)) else none

-- The delay as its callers use it: a panic, which would end the call, is no delay.
abbrev pub delay_with_jitter : ℕ → ℤ → ℕ → ℕ → ℕ
delay_with_jitter random attempt base most = elim (backoff_with_jitter random attempt base most) [
  | none ↦ 0
  | some delay ↦ delay
]
