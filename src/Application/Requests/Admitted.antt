-- ===== src/Application/Requests/Admitted.antt =====
-- Which numbering ranges the administration admits.
use dian_service.Base.{
  ℕ, ◌+◌, ◌≤◌, ◌≡◌, ◌⊎◌, refl, Option, none, some, String, Bool, true, false, if◌then◌else◌, arith,
  inl, inr,
}
use dian_service.Base.Int.{ℤ, pos, pos_part, neg_part, ◌≤ℤ◌, ◌<ℤ◌, IsI32, max32, sub32, sub32_one}
use dian_service.Domain.Enums.{DocumentType}
use dian_service.Domain.EnumText.{document_type_of_str}
use dian_service.Domain.Errors.{Result, ok, err}
use dian_service.Domain.Models.{NumberingRange}
use dian_service.Domain.Numbering.Rules.{IsRange}
use dian_service.Application.Requests.{passed, invalid}
use dian_service.Application.Requests.Ranges.{
  RegisterNumberingRange, parsed_type, first_counter, checked_numbers, checked_resolution,
  checked_range,
}

passed-ok :
    {A B : Type 0} (m : Result A) (f : A → Result B) (b : B)
    → passed m f ≡ ok b
    → (a : A) × (m ≡ ok a) × (f a ≡ ok b)
passed-ok (ok a) f b h = (a, refl, h)
passed-ok (err e) f b h = cc

guard-ok :
    {A : Type 0} (b : Bool) (m : String) (rest : Result A) (a : A)
    → (if b then invalid m else rest) ≡ ok a
    → rest ≡ ok a
guard-ok true m rest a h = cc
guard-ok false m rest a h = h

-- What the checks of the numbers leave.
record Numbered (from to counter : ℤ) : Type 0 where
  positive : pos 1 ≤ℤ from
  ordered : from ≤ℤ to
  counted : pos 0 ≤ℤ counter
  counter_le : counter ≤ℤ to

read_counter :
    (from to c : ℤ) (last : Option ℤ)
    → first_counter from to last ≡ ok c
    → (pos 0 ≡ c)
      ⊎ ((pos_part (sub32 from (pos 1)) + neg_part c ≤ pos_part c + neg_part (sub32 from (pos 1)))
          × (c ≤ℤ to))
unfolding first_counter
read_counter from to c none h = inl cc
read_counter from to c (some n) h = inr (ground arith)

first_counter-Numbered :
    (from to c : ℤ) (last : Option ℤ)
    → IsI32 from
    → pos 1 ≤ℤ from
    → from ≤ℤ to
    → first_counter from to last ≡ ok c
    → Numbered from to c
first_counter-Numbered from to c last i p o h = elim (read_counter from to c last h) [
  | inl e ↦ rw (← e) (record {
    positive = p;
    ordered = o;
    counted = omega (arith, p);
    counter_le = omega (arith, p, o);
  })
  | inr (l, u) ↦ record {
    positive = p;
    ordered = o;
    counted = omega (arith, p, l, sub32_one from i (omega (arith, p)));
    counter_le = u;
  }
]

read_resolution :
    (t : DocumentType) (r : RegisterNumberingRange) (c : ℤ)
    → checked_resolution t r ≡ ok c
    → first_counter r.from_number r.to_number r.last_issued_number ≡ ok c
unfolding checked_resolution
read_resolution t r c h = ground arith

read_numbers :
    (r : RegisterNumberingRange) (rest : Result ℤ) (c : ℤ)
    → checked_numbers r rest ≡ ok c
    → (pos 1 ≤ℤ r.from_number) × (r.from_number ≤ℤ r.to_number) × (rest ≡ ok c)
unfolding checked_numbers
read_numbers r rest c h = ground arith

-- The numbers of a range are those of the request, checked.
abbrev AsRequested : RegisterNumberingRange → NumberingRange → Type 0
AsRequested r g =
    (g.from_number ≡ r.from_number)
    × (g.to_number ≡ r.to_number)
    × Numbered r.from_number r.to_number g.current_counter

built :
    (r : RegisterNumberingRange) (a g : NumberingRange)
    → Result.ok a ≡ ok g
    → AsRequested r a
    → AsRequested r g
built r a g e h = rw same h
  where
    same : g ≡ a
    same = cc

read_range :
    (id tenant : ℕ) (r : RegisterNumberingRange) (g : NumberingRange)
    → checked_range id tenant r ≡ ok g
    → IsI32 r.from_number
    → AsRequested r g
unfolding checked_range
read_range id tenant r g h i =
    let (t, _, u) =
      passed-ok (parsed_type r.document_type (document_type_of_str r.document_type)) _ g h in
    let (c, m, e) =
      passed-ok (checked_numbers r (checked_resolution t r)) _ g (guard-ok _ _ _ g u) in
    let (p, o, l) = read_numbers r _ c m in
    let n =
      first_counter-Numbered r.from_number r.to_number c r.last_issued_number i p o
        (read_resolution t r c l) in
    built r _ g e (refl, refl, n)

-- A range that the administration admits satisfies what `next_number` relies on, if its numbers are
-- `i32` and its last number is below the largest one: it starts at 1 or above, is not empty, and its
-- counter is between 0 and its last number.
pub checked_range-IsRange :
    (id tenant : ℕ) (r : RegisterNumberingRange) (g : NumberingRange)
    → checked_range id tenant r ≡ ok g
    → IsI32 r.from_number
    → r.to_number <ℤ max32
    → IsRange g × (g.current_counter ≤ℤ g.to_number)
checked_range-IsRange id tenant r g h i below =
    let (f, t, n) = read_range id tenant r g h i in
    (
      record {
        from = rw f i;
        to =
            rw t (record {
              above = omega (arith, n.positive, n.ordered);
              below = omega (arith, below);
            });
        counter = record {
          above = omega (arith, n.counted);
          below = omega (arith, n.counter_le, below);
        };
        positive = rw f n.positive;
        counted = n.counted;
        ordered = rw (f, t) n.ordered;
        room = omega (arith, n.counter_le, below);
      },
      rw t n.counter_le,
    )
