-- ===== src/Application/Engine.antt =====
-- What the processing uses of the crate ubl-engine and of serde's reading of its payload types: an
-- interface over the three payload types. A failure is a text.
use dian_service.Base.{ℕ, List, Option, String, ◌⊎◌}
use dian_service.Base.Int.{ℤ}

pub record Engine (V Invoice Payroll Support : Type 0) : Type 0 where
  -- `serde_json::from_value`
  pub read_invoice : V → String ⊎ Invoice
  pub read_payroll : V → String ⊎ Payroll
  pub read_support : V → String ⊎ Support
  pub company_nit : Invoice → String
  pub employer_nit : Payroll → String
  pub buyer_nit : Support → String
  pub technical_key : Invoice → Option String
  -- The XML and the CUFE or CUDE.
  pub generate_invoice_xml : Invoice → String → String ⊎ (String × String)
  pub generate_payroll_xml : Payroll → String ⊎ (String × String)
  pub generate_support_document_xml : Support → String ⊎ (String × String)
  pub compress_xml_to_zip : String → String → String → ℤ → String ⊎ List ℕ
