-- ===== src/Tests/Ubl.antt =====
-- The theorems on generated documents at work on one invoice, with amounts in hundredths.
use Prim.Native.Nat.{ℕ, ◌*◌, ◌/◌}
use Prim.Native.String.{◌++◌}
use dian_service.Base.{
  ◌+◌, ◌≡◌, refl, true, false, List, [], ◌∷◌, map, Option, none, some, String, inr, ◌⊎◌, ltb, ℕ_eq,
  arith,
}
use dian_service.Base.Decimal.{decimal}
use dian_service.Base.Int.{pos}
use dian_service.Domain.Errors.{ok}
use dian_service.Ubl.Money.{Decimals, to_amount, require_equal}
use dian_service.Base.Chars.{digit_value}
use dian_service.Base.Decimal.{digits, digit_char}
use dian_service.Base.Strings.{parse_radix, digits_value}
use dian_service.Domain.Nit.{check_digit, digit_of, weighted_sum}
use dian_service.Ubl.Parties.{new_party}
use dian_service.Ubl.Lines.{
  LinePayload, ComputedLine, TaxSubtotalData, tax_subtotals, Groups, subtotal_of, compute_lines,
  compute, compute_all, compute_line, decimal_of, check_sums, grouped, add_to_group,
}
use dian_service.Ubl.Lines.Totals.{IsDecimals, IsBreakdown, tax_subtotals-IsBreakdown}
use dian_service.Ubl.Payload.{
  InvoicePayload, validate, check_header, has_date_form, has_time_form, is_numeric, check_amounts,
  amount, equal, check_type, is_note, is_environment, validate_note_fields, check_reference,
  check_discrepancy, valid_date, date_chars, is_after,
}
use dian_service.Ubl.Payload.Valid.{IsValid, validate-IsValid}
use dian_service.Ubl.Documents.{
  Floats, CommercialDocument, commercial_document, kind_of, invoice_code, generate_invoice_xml,
}
use dian_service.Ubl.Documents.Generated.{IsGenerated, generate_invoice_xml-IsGenerated}

abbrev pub hundredths : Decimals ℕ ℕ
hundredths = record {
  is_finite = λ x. true;
  of_float = some;
  eq = ℕ_eq;
  less = ltb;
  of_int = λ n. 100 * n;
  add = λ a b. a + b;
  sub = λ a b. a;
  mul = λ a b. a * b / 100;
  div = λ a b. a * 100 / b;
  is_negative = λ a. false;
  scale = λ a. 2;
  text = decimal;
  round2 = λ a. a;
  format2 = decimal;
}

hundredths-IsDecimals : IsDecimals hundredths
hundredths-IsDecimals = record {
  add_assoc = λ a b c. omega arith;
  add_comm = λ a b. omega arith;
  zero_add = λ a. omega arith;
  less_total = λ a b h k. ground arith;
}

abbrev line : LinePayload ℕ
line = record {
  description = "Papel";
  quantity = 200;
  unit_price = 5000;
  tax_percent = 1900;
  unit_code = none;
}

abbrev lines : Option (List (LinePayload ℕ))
lines = some (line ∷ record line { tax_percent = 500 } ∷ record line { unit_price = 100 } ∷ [])

abbrev subtotals : List TaxSubtotalData
subtotals = map (subtotal_of hundredths) ((500, 10000, 500) ∷ (1900, 10200, 1938) ∷ [])

abbrev pub payload : InvoicePayload ℕ
payload = record {
  prefix = "FEV";
  number = pos 7;
  issue_date = "2026-01-31";
  issue_time = "10:20:30-05:00";
  company_nit = "900";
  company_name = "Acme";
  customer_id_type = "31";
  customer_id = "800";
  customer_name = "Beta";
  customer_email = "a@b";
  net_amount = 20200;
  tax_amount = 2438;
  total_amount = 22638;
  environment = "2";
  technical_key = none;
  document_type = "invoice";
  test_set_id = none;
  lines = lines;
  billing_reference = none;
  discrepancy = none;
  software_pin = none;
}

abbrev floats : Floats ℕ
floats = record { zero_float = 0; is_positive = λ n. ltb 0 n; text2 = decimal }

abbrev render : String → CommercialDocument → String ⊎ String
render template document = inr (template ++ document.id)

subtotalled : tax_subtotals hundredths lines 20200 2438 ≡ ok subtotals
unfolding tax_subtotals compute compute_all compute_line decimal_of check_sums grouped add_to_group
subtotalled = refl

tax_subtotals-IsBreakdown_example :
    (cs : List (ComputedLine ℕ)) × (groups : Groups hundredths) × (compute hundredths lines 20200
        2438
      ≡ ok cs)
    × IsBreakdown hundredths hundredths-IsDecimals 20200 2438 cs groups
    × (subtotals ≡ map (subtotal_of hundredths) groups)
tax_subtotals-IsBreakdown_example =
    tax_subtotals-IsBreakdown hundredths hundredths-IsDecimals lines 20200 2438 subtotals
      subtotalled

abbrev cufe : String
cufe =
    "0a1b0a1b0a1b0a1b0a1b0a1b0a1b0a1b0a1b0a1b0a1b0a1b0a1b0a1b0a1b0a1b0a1b0a1b0a1b0a1b0a1b0a1b0a1b0a1b"

abbrev note : InvoicePayload ℕ
note = record payload {
  document_type = "credit_note";
  billing_reference = some (record { number = "FEV6"; cufe = cufe; issue_date = "2026-01-30" });
  discrepancy = some (record { code = "2"; description = "Anulacion" });
  software_pin = some "1234";
}

validated : validate hundredths note ≡ ok tt
unfolding validate check_header has_date_form has_time_form is_numeric check_amounts amount
    to_amount equal require_equal check_type is_note is_environment compute_lines compute
    compute_all compute_line decimal_of check_sums validate_note_fields check_reference
    check_discrepancy valid_date date_chars is_after parse_radix digits_value digit_value
validated = refl

validate-IsValid_example : IsValid hundredths note
validate-IsValid_example = validate-IsValid hundredths note validated

-- The code is the text itself, without its digest.
abbrev code : String
code = invoice_code hundredths floats (λ t. t) payload "tk"

generated :
    generate_invoice_xml hundredths floats (λ t. t) render payload "tk"
    ≡ ok ("invoice.xmlFEV7", code)
unfolding generate_invoice_xml validate check_header has_date_form has_time_form is_numeric
    check_amounts amount to_amount equal require_equal check_type is_note is_environment
    compute_lines compute compute_all compute_line decimal_of check_sums tax_subtotals grouped
    add_to_group commercial_document kind_of new_party check_digit digit_of weighted_sum digits
    decimal digit_char
generated = refl

generate_invoice_xml-IsGenerated_example :
    IsValid hundredths payload
    × IsGenerated hundredths floats (λ t. t) render payload "tk" "invoice.xmlFEV7" code
generate_invoice_xml-IsGenerated_example =
    generate_invoice_xml-IsGenerated hundredths floats (λ t. t) render payload "tk"
      "invoice.xmlFEV7" code generated
