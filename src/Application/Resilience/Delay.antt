-- ===== src/Application/Resilience/Delay.antt =====
-- The delays that the backoff gives.
use dian_service.Base.{
  ℕ, zero, suc, ◌+◌, ◌-◌, ◌*◌, ◌^◌, ◌%◌, ◌≤◌, ◌<◌, ◌≡◌, ap, ◌∙◌, some, arith, min, max,
}
use native.Mathlib.Numerals.{unary_clauses}
use dian_service.Base.Int.{ℤ, pos_part}
use dian_service.Application.Resilience.{ceiling, backoff_with_jitter}

le_self : (n : ℕ) → n ≤ n
le_self n = omega arith

power_le : (n k : ℕ) → 2 ^ n ≤ 2 ^ (n + k)
power_le n zero = simp unary_clauses (le_self (2 ^ n))
power_le n (suc k) = simp unary_clauses (omega (arith, power_le n k))

power_le_16 : (n : ℕ) → n ≤ 16 → 2 ^ n ≤ 65536
power_le_16 n h = rw e at (power_le n (16 - n))
  where
    e : n + (16 - n) ≡ 16
    e = omega arith

-- The last delay of the range, without the bounds of the machine's types.
last-eq :
    (attempt : ℤ) (base most : ℕ)
    → most < 2 ^ 64
    → ceiling attempt base most % 2 ^ 64 ≡ max (min (base * 2 ^ min (pos_part attempt) 16) most) 500
unfolding ceiling
last-eq attempt base most fits = rw small (omega (arith, fits))
  where
    small : min (2 ^ min (pos_part attempt) 16) (2 ^ 32 - 1) ≡ 2 ^ min (pos_part attempt) 16
    small = omega (arith, power_le_16 (min (pos_part attempt) 16) (omega arith))

within : (random last : ℕ) → 500 ≤ last → 500 + random % (last - 500 + 1) ≤ last
within random last h = omega (arith, h)

small : (a n : ℕ) → a < n → a % n ≡ a
small a n h = grind (arith, h)

reached : (d last : ℕ) → 500 ≤ d → d ≤ last → 500 + (d - 500) % (last - 500 + 1) ≡ d
reached d last h k =
    ap (λ x. 500 + x) (small (d - 500) (last - 500 + 1) (omega (arith, h, k))) ∙ omega (arith, h)

-- For a maximum that fits `u64` milliseconds `backoff_with_jitter` does not panic: its delay is at
-- least half a second, and at most the configured maximum and `base * 2 ^ attempt`, the exponent
-- kept between 0 and 16, or half a second where one of these is shorter; and each such delay `d` is
-- the one of some random number.
pub backoff_with_jitter_bounds :
    (random : ℕ) (attempt : ℤ) (base most d : ℕ)
    → most < 2 ^ 64
    → 500 ≤ d
    → d ≤ max (min (base * 2 ^ min (pos_part attempt) 16) most) 500
    → ((delay : ℕ) × (backoff_with_jitter random attempt base most ≡ some delay)
        × (500 ≤ delay)
        × (delay ≤ max (min (base * 2 ^ min (pos_part attempt) 16) most) 500))
      × (backoff_with_jitter (d - 500) attempt base most ≡ some d)
unfolding backoff_with_jitter
backoff_with_jitter_bounds random attempt base most d fits low high =
    let last = max (min (base * 2 ^ min (pos_part attempt) 16) most) 500 in
    rw (last-eq attempt base most fits) (
      (
        500 + random % (last - 500 + 1),
        ground arith,
        omega arith,
        within random last (omega arith),
      ),
      ground (arith, reached d last low high),
    )
