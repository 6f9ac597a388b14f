-- ===== src/Domain/Numbering/Rules.antt =====
-- What the numbering promises: within the range, without gaps, and exactly when.
use dian_service.Base.{ℕ, ◌+◌, ◌≤◌, ◌≡◌, ◌↔◌, ◌⊎◌, inl, inr, Option, none, some, arith, Bool-cases}
use dian_service.Base.Int.{
  ℤ, pos, pos_part, neg_part, ◌≤ℤ◌, ◌<ℤ◌, IsI32, max32, add32, sub32, add32_one, sub32_one,
  eqb_ℤ_iff, ltb_ℤ, eq_of_parts,
}
use dian_service.Domain.Errors.{ok}
use dian_service.Domain.Models.{NumberingRange}
use dian_service.Domain.Numbering.{candidate, next_number}

-- `1 <= from <= to` and a counter that is not negative, as the administration and the database's
-- checks have it; `room`, which they do not ask for, keeps the counter below the largest `i32`.
pub record IsRange (r : NumberingRange) : Type 0 where
  pub from : IsI32 r.from_number
  pub to : IsI32 r.to_number
  pub counter : IsI32 r.current_counter
  pub positive : pos 1 ≤ℤ r.from_number
  pub counted : pos 0 ≤ℤ r.current_counter
  pub ordered : r.from_number ≤ℤ r.to_number
  pub room : r.current_counter <ℤ max32

-- The first number of the range that has not been given out, with no machine arithmetic.
pub record IsNext (r : NumberingRange) (n : ℤ) : Type 0 where
  pub from_first : r.from_number ≤ℤ n
  pub after_counter : r.current_counter <ℤ n
  pub least : (m : ℤ) → r.from_number ≤ℤ m → r.current_counter <ℤ m → n ≤ℤ m

-- The successor of a number below the largest `i32` is the next one after it.
after-add32 :
    (r : NumberingRange) (m : ℤ)
    → IsI32 m
    → m <ℤ max32
    → r.current_counter ≤ℤ m
    → (pos_part r.from_number + neg_part m ≤ pos_part m + neg_part r.from_number + 1)
    → ((n : ℤ) → r.from_number ≤ℤ n → r.current_counter <ℤ n → m <ℤ n)
    → IsNext r (add32 m (pos 1))
after-add32 r m i h c f least = record {
  from_first = omega (arith, add32_one m i h);
  after_counter = omega (arith, add32_one m i h);
  least = λ n p q. omega (arith, add32_one m i h, least n p q);
}

candidate-IsNext : (r : NumberingRange) → IsRange r → IsNext r (candidate r)
unfolding candidate
candidate-IsNext r v = elim (Bool-cases (ltb_ℤ r.current_counter (sub32 r.from_number (pos 1)))) [
  | inl low ↦ rw low (
      after-add32 r _ (record { above = omega (arith, before); below = omega (arith, before) })
        (omega (arith, before)) (ground (arith, low)) (omega (arith, before))
        (λ n p q. omega (arith, before)))
  | inr high ↦
      rw high
        (after-add32 r _ v.counter v.room (omega arith) (ground (arith, before, high)) (λ n p q. q))
]
  where
    before :
        pos_part (sub32 r.from_number (pos 1)) + neg_part r.from_number + 1
        ≡ pos_part r.from_number + neg_part (sub32 r.from_number (pos 1))
    before = sub32_one r.from_number v.from (omega arith)

IsNext-unique : (r : NumberingRange) (a b : ℤ) → IsNext r a → IsNext r b → a ≡ b
IsNext-unique r a b h k =
    eq_of_parts a b (
      omega (arith, h.least b k.from_first k.after_counter, k.least a h.from_first h.after_counter))

-- What a successful call means.
pub record Granted (r : NumberingRange) (requested : Option ℤ) (now : ℕ) (n : ℤ) : Type 0 where
  pub started : r.valid_date_from ≤ now
  pub not_ended : now ≤ r.valid_date_to
  pub next : IsNext r n
  pub not_exhausted : n ≤ℤ r.to_number
  pub as_requested : (requested ≡ none) ⊎ (requested ≡ some n)

read_number :
    (r : NumberingRange) (requested : Option ℤ) (now : ℕ) (n : ℤ)
    → next_number r requested now ≡ ok n
    → (r.valid_date_from ≤ now)
      × (now ≤ r.valid_date_to)
      × (candidate r ≡ n)
      × (candidate r ≤ℤ r.to_number)
      × ((requested ≡ none) ⊎ (requested ≡ some (candidate r)))
unfolding next_number
read_number r none now n h = ground arith
read_number r (some m) now n h = ground (arith, eqb_ℤ_iff m (candidate r))

-- A number that was asked for is the one that is given.
pub next_number-requested :
    (r : NumberingRange) (m : ℤ) (now : ℕ) (n : ℤ) → next_number r (some m) now ≡ ok n → n ≡ m
next_number-requested r m now n h =
    let (_, _, e, _, q) = read_number r (some m) now n h in ground (arith, e, q)

granted :
    (r : NumberingRange) (requested : Option ℤ) (now : ℕ) (n : ℤ)
    → IsNext r (candidate r)
    → next_number r requested now ≡ ok n
    → Granted r requested now n
granted r requested now n c h =
    let (s, t, e, l, q) = read_number r requested now n h in
    record {
      started = s;
      not_ended = t;
      next = rw (← e) c;
      not_exhausted = rw (← e) l;
      as_requested = rw (← e) q;
    }

grant :
    (r : NumberingRange) (requested : Option ℤ) (now : ℕ) (n : ℤ)
    → candidate r ≡ n
    → Granted r requested now n
    → next_number r requested now ≡ ok n
unfolding next_number
grant r none now n c g = ground (arith, g.started, g.not_ended, g.not_exhausted)
grant r (some m) now n c g =
    ground (arith, g.started, g.not_ended, g.not_exhausted, g.as_requested, eqb_ℤ_iff m n)

-- For a range with `1 <= from <= to` and a counter from 0 up to below the largest `i32`, `next_number`
-- gives out exactly the first number that is free and within the range, while the resolution is in
-- force and if the client asked for no other number, and nothing otherwise.
pub next_number_iff :
    (r : NumberingRange) (requested : Option ℤ) (now : ℕ) (n : ℤ)
    → IsRange r
    → (next_number r requested now ≡ ok n) ↔ Granted r requested now n
next_number_iff r requested now n v = (
  granted r requested now n (candidate-IsNext r v),
  λ g. grant r requested now n (IsNext-unique r _ n (candidate-IsNext r v) g.next) g,
)
