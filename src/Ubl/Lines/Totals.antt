-- ===== src/Ubl/Lines/Totals.antt =====
-- The totals of the lines and of the tax subtotals.
use dian_service.Base.{
  ◌≡◌, refl, sym, ap, ◌∙◌, ◌||◌, true, false, not, List, [], ◌∷◌, map, Option, none, some, ltb, leb,
  length, Bool-cases, if◌then◌else◌, inl, inr, arith,
}
use dian_service.Domain.Checks.{>>=-ok, refuse-ok, along_ok}
use dian_service.Domain.Errors.{ok}
use dian_service.Ubl.Money.{Decimals, same_decimal, sum, sum_from}
use dian_service.Ubl.Lines.{
  LinePayload, ComputedLine, TaxSubtotalData, subtotal_of, check_sums, compute, compute_all, Groups,
  add_to_group, grouped, tax_subtotals,
}

-- What the code relies on of exact decimal numbers.
pub record IsDecimals {F D : Type 0} (N : Decimals F D) : Type 0 where
  pub add_assoc : (a b c : D) → N.add (N.add a b) c ≡ N.add a (N.add b c)
  pub add_comm : (a b : D) → N.add a b ≡ N.add b a
  pub zero_add : (a : D) → N.add (N.of_int 0) a ≡ a
  pub less_total : (a b : D) → same_decimal N a b ≡ false → N.less a b ≡ false → N.less b a ≡ true

module _ {F D : Type 0} (N : Decimals F D) where
  same_decimal-eq : (a b : D) → not (same_decimal N a b) ≡ false → a ≡ b
  same_decimal-eq a b h = (N.eq.correct a b).0 (ground arith)

  pub check_sums-ok :
      (cs : List (ComputedLine D)) (net tax : D)
      → check_sums N cs net tax ≡ ok tt
      → (sum N (λ l. l.line_extension) cs ≡ net) × (sum N (λ l. l.tax_amount) cs ≡ tax)
  unfolding check_sums
  check_sums-ok cs net tax h =
      let (e, h) = refuse-ok (not (same_decimal N (sum N (λ l. l.line_extension) cs) net)) _ _ h in
      let (f, h) = refuse-ok (not (same_decimal N (sum N (λ l. l.tax_amount) cs) tax)) _ _ h in
      (same_decimal-eq _ net e, same_decimal-eq _ tax f)

module _ {F D : Type 0} (N : Decimals F D) (law : IsDecimals N) where
  abbrev Balanced : D → D → List (ComputedLine D) → Type 0
  Balanced net tax cs =
      (sum N (λ l. l.line_extension) cs ≡ net) × (sum N (λ l. l.tax_amount) cs ≡ tax)

  pub compute-Balanced :
      (lines : Option (List (LinePayload F))) (net tax : D) (cs : List (ComputedLine D))
      → compute N lines net tax ≡ ok cs
      → Balanced net tax cs
  unfolding compute
  compute-Balanced none net tax cs h =
      along_ok (Balanced net tax) _ cs h (law.zero_add net, law.zero_add tax)
  compute-Balanced (some lines) net tax cs h =
      let (_, h) = refuse-ok (leb (length lines) 0 || ltb 500 (length lines)) _ _ h in
      let (computed, _, h) = >>=-ok (compute_all N 1 lines) _ h in
      let (_, e, h) = >>=-ok (check_sums N computed net tax) _ h in
      along_ok (Balanced net tax) computed cs h (check_sums-ok N computed net tax e)

  sum_from-add :
      {A : Type 0} (f : A → D) (acc : D) (xs : List A)
      → sum_from N f acc xs ≡ N.add acc (sum N f xs)
  sum_from-add f acc [] = sym (law.zero_add acc) ∙ law.add_comm (N.of_int 0) acc
  sum_from-add f acc (x ∷ xs) =
      sum_from-add f (N.add acc (f x)) xs
      ∙ law.add_assoc acc (f x) (sum N f xs)
      ∙ ap (N.add acc) (
          sym (
            sum_from-add f (N.add (N.of_int 0) (f x)) xs
            ∙ ap (λ a. N.add a (sum N f xs)) (law.zero_add (f x))))

  sum-cons :
      {A : Type 0} (f : A → D) (x : A) (xs : List A) → sum N f (x ∷ xs) ≡ N.add (f x) (sum N f xs)
  sum-cons f x xs =
      sum_from-add f (N.add (N.of_int 0) (f x)) xs
      ∙ ap (λ a. N.add a (sum N f xs)) (law.zero_add (f x))

  -- The order of three summands.
  swap : (a b c : D) → N.add (N.add a b) c ≡ N.add (N.add a c) b
  swap a b c = law.add_assoc a b c ∙ ap (N.add a) (law.add_comm b c) ∙ sym (law.add_assoc a c b)

  -- One amount of the groups, and the same amount of the lines.
  module _ (of_group : D × D × D → D) (of_line : ComputedLine D → D)
      (fresh : (l : ComputedLine D)
        → of_group
            (l.tax_percent, N.add (N.of_int 0) l.line_extension, N.add (N.of_int 0) l.tax_amount)
          ≡ of_line l)
      (joined : (l : ComputedLine D) (percent taxable tax : D)
        → l.tax_percent ≡ percent
        → of_group (percent, N.add taxable l.line_extension, N.add tax l.tax_amount)
          ≡ N.add (of_group (percent, taxable, tax)) (of_line l)) where
    sum-add_to_group :
        (l : ComputedLine D) (groups : Groups N)
        → sum N of_group (add_to_group N l groups) ≡ N.add (sum N of_group groups) (of_line l)
    unfolding add_to_group
    sum-add_to_group l [] = ap (N.add (N.of_int 0)) (fresh l)
    sum-add_to_group l ((percent, taxable, tax) ∷ groups) =
        elim (Bool-cases (same_decimal N l.tax_percent percent)) [
          | inl same ↦ rw same (
              sum-cons of_group _ groups
              ∙ ap (λ a. N.add a (sum N of_group groups))
                  (joined l percent taxable tax ((N.eq.correct l.tax_percent percent).0 same))
              ∙ swap (of_group (percent, taxable, tax)) (of_line l) (sum N of_group groups)
              ∙ ap (λ a. N.add a (of_line l)) (sym (sum-cons of_group _ groups)))
          | inr other ↦ elim (Bool-cases (N.less l.tax_percent percent)) [
            | inl below ↦ rw other (
                rw below (
                  sum-cons of_group _ ((percent, taxable, tax) ∷ groups)
                  ∙ ap (λ a. N.add a (sum N of_group ((percent, taxable, tax) ∷ groups))) (fresh l)
                  ∙ law.add_comm (of_line l) (sum N of_group ((percent, taxable, tax) ∷ groups))))
            | inr above ↦ rw other (
                rw above (
                  sum-cons of_group _ (add_to_group N l groups)
                  ∙ ap (N.add (of_group (percent, taxable, tax))) (sum-add_to_group l groups)
                  ∙ sym (
                      law.add_assoc (of_group (percent, taxable, tax)) (sum N of_group groups)
                        (of_line l))
                  ∙ ap (λ a. N.add a (of_line l)) (sym (sum-cons of_group _ groups))))
          ]
        ]

    sum-grouped :
        (ls : List (ComputedLine D)) (groups : Groups N)
        → sum N of_group (grouped N ls groups) ≡ N.add (sum N of_group groups) (sum N of_line ls)
    unfolding grouped
    sum-grouped [] groups =
        sym (law.zero_add (sum N of_group groups))
        ∙ law.add_comm (N.of_int 0) (sum N of_group groups)
    sum-grouped (l ∷ ls) groups =
        sum-grouped ls (add_to_group N l groups)
        ∙ ap (λ a. N.add a (sum N of_line ls)) (sum-add_to_group l groups)
        ∙ law.add_assoc (sum N of_group groups) (of_line l) (sum N of_line ls)
        ∙ ap (N.add (sum N of_group groups)) (sym (sum-cons of_line l ls))

  -- Every rate is less than the next one, so that none comes twice.
  abbrev Below : D → Groups N → Type 0
  Below p [] = Unit {0}
  Below p ((q, _, _) ∷ groups) = N.less p q ≡ true

  abbrev pub Ascending : Groups N → Type 0
  Ascending [] = Unit {0}
  Ascending ((p, _, _) ∷ groups) = Below p groups × Ascending groups

  Below-add_to_group :
      (p : D) (l : ComputedLine D) (groups : Groups N)
      → N.less p l.tax_percent ≡ true
      → Below p groups
      → Below p (add_to_group N l groups)
  unfolding add_to_group
  Below-add_to_group p l [] h k = h
  Below-add_to_group p l ((q, a, b) ∷ groups) h k = ground arith

  add_to_group-Ascending :
      (l : ComputedLine D) (groups : Groups N)
      → Ascending groups
      → Ascending (add_to_group N l groups)
  unfolding add_to_group
  add_to_group-Ascending l [] h = (tt, tt)
  add_to_group-Ascending l ((p, a, b) ∷ groups) (k, h) =
      elim (Bool-cases (same_decimal N l.tax_percent p)) [
        | inl same ↦ rw same (k, h)
        | inr other ↦ elim (Bool-cases (N.less l.tax_percent p)) [
          | inl below ↦ rw other (rw below (below, (k, h)))
          | inr above ↦ rw other (
              rw above (
                Below-add_to_group p l groups (law.less_total l.tax_percent p other above) k,
                add_to_group-Ascending l groups h,
              ))
        ]
      ]

  grouped-Ascending :
      (ls : List (ComputedLine D)) (groups : Groups N)
      → Ascending groups
      → Ascending (grouped N ls groups)
  unfolding grouped
  grouped-Ascending [] groups h = h
  grouped-Ascending (l ∷ ls) groups h =
      grouped-Ascending ls (add_to_group N l groups) (add_to_group-Ascending l groups h)

  -- An amount of the rate `p`, and nothing for another rate.
  unfoldable pub if_rate : D → D → D → D
  if_rate p percent amount = if same_decimal N percent p then amount else N.of_int 0

  if_rate-join :
      (p percent a b : D)
      → if_rate p percent (N.add a b) ≡ N.add (if_rate p percent a) (if_rate p percent b)
  unfolding if_rate
  if_rate-join p percent a b = elim (Bool-cases (same_decimal N percent p)) [
    | inl same ↦ rw same refl
    | inr other ↦ rw other (sym (law.zero_add (N.of_int 0)))
  ]

  if_rate-joined :
      (p from percent a b : D)
      → from ≡ percent
      → if_rate p percent (N.add a b) ≡ N.add (if_rate p percent a) (if_rate p from b)
  if_rate-joined p from percent a b e = rw e (if_rate-join p percent a b)

  pub record IsBreakdown (net tax : D) (cs : List (ComputedLine D)) (groups : Groups N)
      : Type 0 where
    pub rates : Ascending groups
    pub taxables : sum N (λ (g : D × D × D). g.1) groups ≡ net
    pub taxes : sum N (λ (g : D × D × D). g.2) groups ≡ tax
    pub of_rate :
        (p : D)
        → (sum N (λ (g : D × D × D). if_rate p g.0 g.1) groups
            ≡ sum N (λ l. if_rate p l.tax_percent l.line_extension) cs)
          × (sum N (λ (g : D × D × D). if_rate p g.0 g.2) groups
              ≡ sum N (λ l. if_rate p l.tax_percent l.tax_amount) cs)

  grouped-IsBreakdown :
      (net tax : D) (cs : List (ComputedLine D))
      → Balanced net tax cs
      → IsBreakdown net tax cs (grouped N cs [])
  grouped-IsBreakdown net tax cs (e, f) = record {
    rates = grouped-Ascending cs [] tt;
    taxables =
        whole (λ g. g.1) (λ l. l.line_extension) (λ l. law.zero_add l.line_extension)
          (λ l p t x same. refl)
        ∙ e;
    taxes =
        whole (λ g. g.2) (λ l. l.tax_amount) (λ l. law.zero_add l.tax_amount) (λ l p t x same. refl)
        ∙ f;
    of_rate = λ p. (
      whole (λ g. if_rate p g.0 g.1) (λ l. if_rate p l.tax_percent l.line_extension)
          (λ l. ap (if_rate p l.tax_percent) (law.zero_add l.line_extension))
          (λ l q t x same. if_rate-joined p l.tax_percent q t l.line_extension same),
      whole (λ g. if_rate p g.0 g.2) (λ l. if_rate p l.tax_percent l.tax_amount)
          (λ l. ap (if_rate p l.tax_percent) (law.zero_add l.tax_amount))
          (λ l q t x same. if_rate-joined p l.tax_percent q x l.tax_amount same),
    );
  }
    where
      whole :
          (of_group : D × D × D → D) (of_line : ComputedLine D → D)
          → ((l : ComputedLine D)
              → of_group (
                l.tax_percent,
                N.add (N.of_int 0) l.line_extension,
                N.add (N.of_int 0) l.tax_amount,
              )
                ≡ of_line l)
          → ((l : ComputedLine D) (percent taxable tax : D)
              → l.tax_percent ≡ percent
              → of_group (percent, N.add taxable l.line_extension, N.add tax l.tax_amount)
                ≡ N.add (of_group (percent, taxable, tax)) (of_line l))
          → sum N of_group (grouped N cs []) ≡ sum N of_line cs
      whole of_group of_line fresh joined =
          sum-grouped of_group of_line fresh joined cs [] ∙ law.zero_add (sum N of_line cs)

  -- If the tax subtotals of a document are computed, they are, as texts, groups of its computed lines
  -- in strictly ascending order of their rates: for every rate, the groups of that rate have the sum
  -- of the lines of that rate as their taxable amount, and the sum of these lines' taxes as their tax.
  -- All the taxable amounts have the document's net amount as their sum, all the taxes its tax amount.
  -- For decimal numbers with the laws of IsDecimals; for every list of lines, and for a document without
  -- one.
  pub tax_subtotals-IsBreakdown :
      (lines : Option (List (LinePayload F))) (net tax : D) (subtotals : List TaxSubtotalData)
      → tax_subtotals N lines net tax ≡ ok subtotals
      → (cs : List (ComputedLine D)) × (groups : Groups N) × (compute N lines net tax ≡ ok cs)
        × IsBreakdown net tax cs groups
        × (subtotals ≡ map (subtotal_of N) groups)
  unfolding tax_subtotals
  tax_subtotals-IsBreakdown lines net tax subtotals h =
      let (cs, e, h) = >>=-ok (compute N lines net tax) _ h in
      (
        cs,
        grouped N cs [],
        e,
        grouped-IsBreakdown net tax cs (compute-Balanced lines net tax cs e),
        along_ok (λ t. t ≡ map (subtotal_of N) (grouped N cs [])) _ subtotals h refl,
      )
