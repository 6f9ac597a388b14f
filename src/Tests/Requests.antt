-- ===== src/Tests/Requests.antt =====
-- The use cases at work: a payload of another NIT, and a range that is admitted.
use dian_service.Base.{◌≡◌, refl, some, String, inr, arith, eq_iff}
use dian_service.Base.Int.{pos, sub32, ◌≤ℤ◌}
use dian_service.Domain.Enums.{invoice}
use dian_service.Domain.EnumText.{document_type_of_str}
use dian_service.Domain.Errors.{ok}
use dian_service.Domain.Models.{Tenant, NumberingRange}
use dian_service.Domain.Numbering.Rules.{IsRange}
use dian_service.Application.Issue.{
  Payload, Hashing, issue_invoice, issue_payroll, issue_support_document,
}
use dian_service.Application.Issue.Authorization.{Refuses, foreign-Refuses}
use dian_service.Application.Requests.Ranges.{
  RegisterNumberingRange, checked_range, checked_numbers, checked_resolution, first_counter,
}
use dian_service.Application.Requests.Admitted.{checked_range-IsRange}
use dian_service.Tests.Samples.{Sample, text, sample_json}
use dian_service.Tests.Processing.{outside}

-- A payload that is a NIT only.
abbrev payload : Payload Sample String
payload = record {
  validate = λ p. inr tt;
  nit = λ p. p;
  prefix = λ p. "FE";
  number = λ p. pos 1;
  document_type = λ p. "invoice";
  to_value = λ p. inr (text p);
}

abbrev pub hashing : Hashing Sample
hashing = record { sha256 = λ t. t; to_text = λ v. "" }

abbrev pub issuer : Tenant Sample
issuer = record {
  id = 7;
  tax_id = "900";
  registration_name = "Empresa";
  tax_regime = "R-99-PN";
  address_info = text "";
  reception_email = "recepcion@example.com";
  api_keys = text "";
  created_at = 0;
  updated_at = 0;
}

foreign-Refuses_example :
    Refuses (issue_invoice sample_json hashing outside 10 payload issuer "901" (some "key"))
    × Refuses (issue_payroll sample_json hashing outside 10 payload issuer "901" (some "key"))
    × Refuses
        (issue_support_document sample_json hashing outside 10 payload issuer "901" (some "key"))
foreign-Refuses_example =
    foreign-Refuses sample_json hashing outside 10 payload issuer "901" (some "key")
      (ground (arith, eq_iff "901" "900"))

abbrev registration : RegisterNumberingRange
registration = record {
  document_type = "invoice";
  prefix = " FE ";
  from_number = pos 100;
  to_number = pos 200;
  technical_key = "tk";
  valid_date_from = 10;
  valid_date_to = 1000;
  last_issued_number = some (pos 120);
}

abbrev registered : NumberingRange
registered = record {
  id = 1;
  tenant_id = 7;
  document_type = invoice;
  prefix = "FE";
  from_number = pos 100;
  to_number = pos 200;
  technical_key = "tk";
  valid_date_from = 10;
  valid_date_to = 1000;
  current_counter = pos 120;
}

is_admitted : checked_range 1 7 registration ≡ ok registered
unfolding checked_range checked_numbers checked_resolution first_counter document_type_of_str sub32
is_admitted = refl

checked_range-IsRange_example :
    IsRange registered × (registered.current_counter ≤ℤ registered.to_number)
checked_range-IsRange_example =
    checked_range-IsRange 1 7 registration registered is_admitted
      (record { above = omega arith; below = omega arith }) (omega arith)
