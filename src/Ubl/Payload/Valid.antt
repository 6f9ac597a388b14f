-- ===== src/Ubl/Payload/Valid.antt =====
-- What a payload that is accepted satisfies.
use dian_service.Base.{
  ◌≡◌, true, not, ◌||◌, ◌⊎◌, inl, inr, List, Option, none, some, String, leb, ltb, length, false,
  nat_eq, arith, eq_iff, ◌==◌, string_eq, Bool-cases,
}
use Prim.Native.String.{len}
use dian_service.Base.Chars.{is_hex_digit, is_digit}
use dian_service.Base.Strings.{is_empty, every_char}
use dian_service.Base.Text.{trim}
use dian_service.Domain.Checks.{
  or_error, >>=-ok, refuse-ok, refuse-false, or_error-ok, map_error-ok, along_ok,
}
use dian_service.Domain.Errors.{ok}
use dian_service.Ubl.Money.{Decimals, to_amount, require_equal, same_decimal, sum}
use dian_service.Ubl.Lines.{
  LineData, LinePayload, ComputedLine, compute, compute_all, compute_lines, check_sums,
}
use dian_service.Ubl.Lines.Totals.{check_sums-ok}
use dian_service.Ubl.Payload.{
  InvoicePayload, BillingReferencePayload, check_reference, check_discrepancy, check_type,
  check_header, check_amounts, validate, validate_note_fields, is_note, is_after, valid_date,
  is_numeric, is_environment, has_date_form, has_at, amount, equal, is_blank, has_time_form,
  bad_test_set,
}

-- A note names the invoice that it corrects, which is not later than the note, and has a PIN.
pub record IsCorrection {F : Type 0} (p : InvoicePayload F) : Type 0 where
  pub reference : BillingReferencePayload
  pub there : p.billing_reference ≡ some reference
  pub cufe : (len reference.cufe ≡ 96) × (every_char is_hex_digit reference.cufe ≡ true)
  pub dated : valid_date reference.issue_date ≡ true
  pub not_after : is_after reference.issue_date p.issue_date ≡ false
  pub signed : is_blank p.software_pin ≡ false

-- The given lines, computed, have the net amount and the tax as their sums.
abbrev pub Summed : {F D : Type 0} → Decimals F D → D → D → Option (List (LinePayload F)) → Type 0
Summed N net tax none = Unit
Summed {D = D} N net tax (some lines) =
    (cs : List (ComputedLine D)) × (compute_all N 1 lines ≡ ok cs)
    × (sum N (λ l. l.line_extension) cs ≡ net)
    × (sum N (λ l. l.tax_amount) cs ≡ tax)

pub record IsValid {F D : Type 0} (N : Decimals F D) (p : InvoicePayload F) : Type 0 where
  pub net : D
  pub tax : D
  pub lines : List LineData
  pub amounts :
      (to_amount N "net_amount" p.net_amount ≡ ok net)
      × (to_amount N "tax_amount" p.tax_amount ≡ ok tax)
  -- The total is the sum of the two, exactly.
  pub total : to_amount N "total_amount" p.total_amount ≡ ok (N.add net tax)
  pub itemised : compute_lines N p.lines net tax ≡ ok lines
  pub sums : Summed N net tax p.lines
  pub issuer : (is_empty p.company_nit ≡ false) × (every_char is_digit p.company_nit ≡ true)
  -- Ten characters, the fifth and the eighth a hyphen.
  pub dated :
      (len p.issue_date ≡ 10)
      × (has_at 4 45 p.issue_date ≡ true)
      × (has_at 7 45 p.issue_date ≡ true)
  pub environment : (p.environment ≡ "1") ⊎ (p.environment ≡ "2")
  pub kind :
      (p.document_type ≡ "invoice")
      ⊎ (((p.document_type ≡ "credit_note") ⊎ (p.document_type ≡ "debit_note")) × IsCorrection p)

module _ {F : Type 0} (p : InvoicePayload F) where
  check_reference-ok :
      check_reference p ≡ ok tt
      → (r : BillingReferencePayload) × (p.billing_reference ≡ some r)
        × ((len r.cufe ≡ 96) × (every_char is_hex_digit r.cufe ≡ true))
        × (valid_date r.issue_date ≡ true)
        × (is_after r.issue_date p.issue_date ≡ false)
  unfolding check_reference
  check_reference-ok h =
      let (r, e, h) = >>=-ok (or_error p.billing_reference _) _ h in
      let (_, h) = refuse-ok (is_empty (trim r.number)) _ _ h in
      let (cufe, h) =
        refuse-ok (not (nat_eq (len r.cufe) 96) || not (every_char is_hex_digit r.cufe)) _ _ h in
      let (dated, h) = refuse-ok (not (valid_date r.issue_date)) _ _ h in
      (
        r,
        or_error-ok p.billing_reference _ e,
        ground arith,
        ground arith,
        refuse-false (is_after r.issue_date p.issue_date) _ h,
      )

  validate_note_fields-IsCorrection : validate_note_fields p ≡ ok tt → IsCorrection p
  unfolding validate_note_fields
  validate_note_fields-IsCorrection h =
      let (_, e, h) = >>=-ok (check_reference p) _ h in
      let (_, _, h) = >>=-ok (check_discrepancy p) _ h in
      let (r, there, cufe, dated, not_after) = check_reference-ok e in
      record {
        reference = r;
        there = there;
        cufe = cufe;
        dated = dated;
        not_after = not_after;
        signed = refuse-false (is_blank p.software_pin) _ h;
      }

  note_type :
      is_note p ≡ true → (p.document_type ≡ "credit_note") ⊎ (p.document_type ≡ "debit_note")
  unfolding is_note
  note_type n =
      ground (arith, n, eq_iff p.document_type "credit_note", eq_iff p.document_type "debit_note")

  check_type-ok :
      check_type p ≡ ok tt
      → (p.document_type ≡ "invoice")
        ⊎ (((p.document_type ≡ "credit_note") ⊎ (p.document_type ≡ "debit_note")) × IsCorrection p)
  unfolding check_type
  check_type-ok = elim (Bool-cases (p.document_type == "invoice")) [
    | inl e ↦ rw e (λ h. inl ((eq_iff p.document_type "invoice").0 e))
    | inr e ↦ elim (Bool-cases (is_note p)) [
      | inl n ↦ rw (e, n) (λ h. inr (note_type n, validate_note_fields-IsCorrection h))
      | inr n ↦ rw (e, n) (λ h. cc)
    ]
  ]

  check_header-ok :
      check_header p ≡ ok tt
      → ((len p.issue_date ≡ 10)
          × (has_at 4 45 p.issue_date ≡ true)
          × (has_at 7 45 p.issue_date ≡ true))
        × ((is_empty p.company_nit ≡ false) × (every_char is_digit p.company_nit ≡ true))
  unfolding check_header has_date_form is_numeric
  check_header-ok h =
      let (dated, h) = refuse-ok (not (has_date_form p.issue_date)) _ _ h in
      let (_, h) = refuse-ok (not (has_time_form p.issue_time)) _ _ h in
      let (issuer, _) = refuse-ok (not (is_numeric p.company_nit)) _ _ h in
      (ground arith, ground arith)

  is_environment-ok :
      not (is_environment p.environment) ≡ false → (p.environment ≡ "1") ⊎ (p.environment ≡ "2")
  unfolding is_environment
  is_environment-ok h = ground (arith, h, eq_iff p.environment "1", eq_iff p.environment "2")

module _ {F D : Type 0} (N : Decimals F D) where
  pub amount-ok :
      (field : String) (value : F) (d : D)
      → amount N field value ≡ ok d
      → to_amount N field value ≡ ok d
  unfolding amount
  amount-ok field value d h = map_error-ok _ (to_amount N field value) h

  equal-ok : (what : String) (a b : D) → equal N what a b ≡ ok tt → a ≡ b
  unfolding equal require_equal
  equal-ok what a b h =
      let e =
        refuse-false (not (same_decimal N a b)) _ (map_error-ok _ (require_equal N what a b) h) in
      (N.eq.correct a b).0 (ground arith)

  check_amounts-ok :
      (net_amount tax_amount total_amount : F) (x : D × D)
      → check_amounts N net_amount tax_amount total_amount ≡ ok x
      → (to_amount N "net_amount" net_amount ≡ ok x.0)
        × (to_amount N "tax_amount" tax_amount ≡ ok x.1)
        × (to_amount N "total_amount" total_amount ≡ ok (N.add x.0 x.1))
  unfolding check_amounts
  check_amounts-ok net_amount tax_amount total_amount x h =
      let (net, e, h) = >>=-ok (amount N "net_amount" net_amount) _ h in
      let (tax, f, h) = >>=-ok (amount N "tax_amount" tax_amount) _ h in
      let (total, g, h) = >>=-ok (amount N "total_amount" total_amount) _ h in
      let (_, same, h) = >>=-ok (equal N _ (N.add net tax) total) _ h in
      along_ok
        (λ x.
          (to_amount N "net_amount" net_amount ≡ ok x.0)
          × (to_amount N "tax_amount" tax_amount ≡ ok x.1)
          × (to_amount N "total_amount" total_amount ≡ ok (N.add x.0 x.1)))
        (net, tax) x h
        (
          amount-ok _ net_amount net e,
          amount-ok _ tax_amount tax f,
          rw (equal-ok _ (N.add net tax) total same) (amount-ok _ total_amount total g),
        )

  compute_lines-Summed :
      (lines : Option (List (LinePayload F))) (net tax : D) (out : List LineData)
      → compute_lines N lines net tax ≡ ok out
      → Summed N net tax lines
  unfolding compute_lines compute
  compute_lines-Summed none net tax out h = tt
  compute_lines-Summed (some lines) net tax out h =
      let (cs, e, h) = >>=-ok (compute N (some lines) net tax) _ h in
      let (_, e) = refuse-ok (leb (length lines) 0 || ltb 500 (length lines)) _ _ e in
      let (computed, c, e) = >>=-ok (compute_all N 1 lines) _ e in
      let (_, q, e) = >>=-ok (check_sums N computed net tax) _ e in
      let (nets, taxes) = check_sums-ok N computed net tax q in (computed, c, nets, taxes)

  -- A payload that `validate` accepts: its three amounts are readable and the total is exactly the net
  -- amount and the tax; its lines, where it has any, can be computed, their amounts have the net amount
  -- as their sum and their taxes the tax; its NIT is digits and not empty, its date has ten characters
  -- with hyphens after the fourth and the seventh, its environment is "1" or "2"; and it is an invoice,
  -- or a note that names an invoice that is not later, by a CUFE of 96 hex digits, and that has a PIN.
  pub validate-IsValid : (p : InvoicePayload F) → validate N p ≡ ok tt → IsValid N p
  unfolding validate
  validate-IsValid p h =
      let (_, header, h) = >>=-ok (check_header p) _ h in
      let (x, amounts, h) = >>=-ok (check_amounts N p.net_amount p.tax_amount p.total_amount) _ h in
      let (_, kind, h) = >>=-ok (check_type p) _ h in
      let (lines, itemised, h) = >>=-ok (compute_lines N p.lines x.0 x.1) _ h in
      let (_, h) = refuse-ok (bad_test_set p.test_set_id) _ _ h in
      let (dated, issuer) = check_header-ok p header in
      let (net, tax, total) = check_amounts-ok p.net_amount p.tax_amount p.total_amount x amounts in
      let ends = refuse-false (not (is_environment p.environment)) _ h in
      record {
        net = x.0;
        tax = x.1;
        lines = lines;
        amounts = (net, tax);
        total = total;
        itemised = itemised;
        sums = compute_lines-Summed p.lines x.0 x.1 lines itemised;
        issuer = issuer;
        dated = dated;
        environment = is_environment-ok p ends;
        kind = check_type-ok p kind;
      }
