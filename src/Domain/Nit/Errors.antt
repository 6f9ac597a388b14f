-- ===== src/Domain/Nit/Errors.antt =====
-- Which errors in a NIT its check digit detects.
use dian_service.Base.{
  ℕ, ◌+◌, ◌-◌, ◌*◌, ◌%◌, ◌≤◌, ◌<◌, ◌≡◌, ◌≢◌, refl, ap, ◌∙◌, ◌⊎◌, inl, inr, List, [], ◌∷◌, ◌++◌,
  length, All, length-append, reverse, some, String, true, arith,
}
use Prim.Native.String.len
use text.Mathlib.TextPositions.{len_utf8-pos}
use Prim.Native.String.{len}
use mathlib.Core.List.{reverse-append, reverse-cons, append_assoc}
use dian_service.Base.Chars.{is_digit}
use dian_service.Base.Strings.{every_char}
use dian_service.Base.Text.{codes}
use dian_service.Domain.Nit.{weights, weighted_sum, digit_of, check_digit}

-- No two digits give the same remainder with this weight, whatever the other digits are.
abbrev Tells : ℕ → Type 0
Tells w = (r a b : ℕ) → a < 10 → b < 10 → (r + a * w) % 11 ≡ (r + b * w) % 11 → a ≡ b

weights-Tells : All Tells weights
weights-Tells = (
  λ r a b h k e. omega arith,
  (
    λ r a b h k e. omega arith,
    (
      λ r a b h k e. omega arith,
      (
        λ r a b h k e. omega arith,
        (
          λ r a b h k e. omega arith,
          (
            λ r a b h k e. omega arith,
            (
              λ r a b h k e. omega arith,
              (
                λ r a b h k e. omega arith,
                (
                  λ r a b h k e. omega arith,
                  (
                    λ r a b h k e. omega arith,
                    (
                      λ r a b h k e. omega arith,
                      (
                        λ r a b h k e. omega arith,
                        (
                          λ r a b h k e. omega arith,
                          (λ r a b h k e. omega arith, (λ r a b h k e. omega arith, tt)),
                        ),
                      ),
                    ),
                  ),
                ),
              ),
            ),
          ),
        ),
      ),
    ),
  ),
)

-- The text differs in the digit at one place, where `a` stands instead of `b`.
weighted_sum-replace :
    (P : ℕ → Type 0) (front back ws : List ℕ) (a b : ℕ)
    → length front < length ws
    → All P ws
    → (w r : ℕ) × P w
      × (weighted_sum (front ++ a ∷ back) ws ≡ r + (a - 48) * w)
      × (weighted_sum (front ++ b ∷ back) ws ≡ r + (b - 48) * w)
unfolding weighted_sum
weighted_sum-replace P front back [] a b h all = absurd (omega arith)
weighted_sum-replace P [] back (w ∷ ws) a b h all =
    (w, weighted_sum back ws, all.0, omega arith, omega arith)
weighted_sum-replace P (c ∷ front) back (v ∷ ws) a b h all =
    let (w, r, p, e, f) = weighted_sum-replace P front back ws a b (omega arith) all.1 in
    (w, (c - 48) * v + r, p, omega (arith, e), omega (arith, f))

length-codes-le : (s : String) → length (codes s) ≤ len s
length-codes-le String.[] = omega arith
length-codes-le (String.◌∷◌ c s) =
    omega (arith, len.cons c s, (len_utf8-pos c).1, length-codes-le s)

-- A digit in the middle of a text of digits.
is_digit-middle :
    (s : String) (before after : List ℕ) (a : ℕ)
    → codes s ≡ before ++ a ∷ after
    → every_char is_digit s ≡ true
    → (48 ≤ a) × (a ≤ 57)
is_digit-middle String.[] [] after a e h = cc
is_digit-middle String.[] (x ∷ before) after a e h = cc
is_digit-middle (String.◌∷◌ c s) [] after a e h = ground arith
is_digit-middle (String.◌∷◌ c s) (x ∷ before) after a e h =
    is_digit-middle s before after a (cc) (ground arith)

read_check_digit :
    (s : String) (d : ℕ)
    → check_digit s ≡ some d
    → (len s ≤ 15)
      × (every_char is_digit s ≡ true)
      × (digit_of (weighted_sum (reverse (codes s)) weights % 11) ≡ d)
unfolding check_digit
read_check_digit s d h = ground arith

digit_of-eq : (x y d : ℕ) → x < 11 → y < 11 → digit_of x ≡ d → digit_of y ≡ d → (x ≡ y) ⊎ (d ≡ 1)
unfolding digit_of
digit_of-eq x y d h k e f = ground arith

length-reverse : (xs : List ℕ) → length (reverse xs) ≡ length xs
length-reverse [] = refl
length-reverse (x ∷ xs) =
    ap length (reverse-cons x xs)
    ∙ omega (arith, length-append (reverse xs) (x ∷ []), length-reverse xs)

reverse-middle :
    (before after : List ℕ) (a : ℕ)
    → reverse (before ++ a ∷ after) ≡ reverse after ++ a ∷ reverse before
reverse-middle before after a = simp (reverse-append, reverse-cons, append_assoc)

-- A code in the middle is told by the remainder.
remainder-eq :
    (before after : List ℕ) (a b : ℕ)
    → length (reverse after) < 15
    → (48 ≤ a) × (a ≤ 57)
    → (48 ≤ b) × (b ≤ 57)
    → weighted_sum (reverse (before ++ a ∷ after)) weights % 11
      ≡ weighted_sum (reverse (before ++ b ∷ after)) weights % 11
    → a ≡ b
remainder-eq before after a b short (la, ua) (lb, ub) h =
    let (w, r, tells, e, f) =
      weighted_sum-replace Tells (reverse after) (reverse before) weights a b short weights-Tells in
    let same : a - 48 ≡ b - 48 =
      tells r (a - 48) (b - 48) (omega (arith, ua)) (omega (arith, ub))
        (rw (← e, ← f, ← reverse-middle before after a, ← reverse-middle before after b) h) in
    omega (arith, same, la, lb)

-- Two NITs that differ in one digit and have the same check digit have the check digit 1 (it stands for
-- the remainders 1 and 10): every other error in a single digit is detected.
pub check_digit-eq :
    (s t : String) (before after : List ℕ) (a b d : ℕ)
    → codes s ≡ before ++ a ∷ after
    → codes t ≡ before ++ b ∷ after
    → a ≢ b
    → check_digit s ≡ some d
    → check_digit t ≡ some d
    → d ≡ 1
check_digit-eq s t before after a b d es et differ hs ht =
    let (ls, ds, cs) = read_check_digit s d hs in
    let (lt, dt, ct) = read_check_digit t d ht in
    elim (digit_of-eq (weighted_sum (reverse (codes s)) weights % 11)
      (weighted_sum (reverse (codes t)) weights % 11) d (omega arith) (omega arith) cs ct) [
        | inl same ↦ absurd (
            differ (
              remainder-eq before after a b
                (omega (
                  arith,
                  ls,
                  length-codes-le s,
                  ap length es,
                  length-append before (a ∷ after),
                  length-reverse after,
                ))
                (is_digit-middle s before after a es ds) (is_digit-middle t before after b et dt)
                (rw (← es, ← et) same)))
        | inr one ↦ one
      ]
