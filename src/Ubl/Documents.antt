-- ===== src/Ubl/Documents.antt =====
-- ubl-engine/src/lib.rs: the documents and their codes. A template is rendered by a package, whose
-- failure (`UblError::Template`) is `internal`; `UblError::Validation` is `validation`.
pub mod Generated
use Prim.Native.String.{◌++◌}
use dian_service.Base.{
  suc, Bool, List, Option, none, some, String, ◌⊎◌, inl, inr, ◌==◌, string_eq, if◌then◌else◌,
}
use dian_service.Base.Decimal.{decimal}
use dian_service.Base.Int.{ℤ, pos, negsuc}
use dian_service.Domain.Checks.{◌>>=◌, ◌>>◌}
use dian_service.Domain.Errors.{Result, ok, err, validation, internal, fixed}
use dian_service.Ubl.Cufe.{calculate_cufe_cude, calculate_cune, calculate_cuds}
use dian_service.Ubl.Lines.{LinePayload, LineData, TaxSubtotalData, compute_lines, tax_subtotals}
use dian_service.Ubl.Money.{Decimals, to_amount, format_amount as format_decimal_amount}
use dian_service.Ubl.Parties.{PartyData, new_party}
use dian_service.Ubl.Payload.{
  InvoicePayload, BillingReferencePayload, DiscrepancyPayload, amount, validate,
}
use dian_service.Ubl.Payload.Others.{
  PayrollPayload, SupportDocumentPayload, validate_payroll, validate_support,
}

-- What is used of `f64` itself: 0.00, `> 0.0` and `{:.2}`.
pub record Floats (F : Type 0) : Type 0 where
  pub zero_float : F
  pub is_positive : F → Bool
  pub text2 : F → String

pub record CommercialDocument : Type 0 where
  pub customization_id : String
  pub profile_execution_id : String
  pub id : String
  pub uuid : String
  pub uuid_scheme : String
  pub issue_date : String
  pub issue_time : String
  pub type_code : String
  pub supplier : PartyData
  pub customer : PartyData
  pub lines : List LineData
  pub tax_subtotals : List TaxSubtotalData
  pub net : String
  pub tax : String
  pub total : String
  pub billing_reference : Option BillingReferencePayload
  pub discrepancy : Option DiscrepancyPayload

pub record CommercialInput (F : Type 0) : Type 0 where
  pub customization_id : String
  pub type_code : String
  pub uuid : String
  pub uuid_scheme : String
  pub id : String
  pub issue_date : String
  pub issue_time : String
  pub environment : String
  pub supplier : PartyData
  pub customer : PartyData
  pub lines : Option (List (LinePayload F))
  pub net_amount : F
  pub tax_amount : F
  pub total_amount : F
  pub billing_reference : Option BillingReferencePayload
  pub discrepancy : Option DiscrepancyPayload

-- What the template "payroll.xml" is given.
pub record PayrollContext : Type 0 where
  pub prefix : String
  pub number : ℤ
  pub cune : String
  pub issue_date : String
  pub issue_time : String
  pub employer_nit : String
  pub employer_name : String
  pub employee_id : String
  pub employee_name : String
  pub devengado : String
  pub deducido : String
  pub total : String

-- `format!("{}", number)` of an `i32`.
abbrev pub number_text : ℤ → String
number_text (pos n) = decimal n
number_text (negsuc n) = "-" ++ decimal (suc n)

-- Template, customization, type, scheme and key of a document type.
pub record InvoiceKind : Type 0 where
  pub template : String
  pub customization_id : String
  pub type_code : String
  pub uuid_scheme : String
  pub key : String

abbrev pub or_empty : Option String → String
or_empty none = ""
or_empty (some t) = t

abbrev pub kind_record :
    (template customization_id type_code uuid_scheme key : String) → InvoiceKind
kind_record template customization_id type_code uuid_scheme key = record {
  template = template;
  customization_id = customization_id;
  type_code = type_code;
  uuid_scheme = uuid_scheme;
  key = key;
}

unfoldable pub kind_of : {F : Type 0} → InvoicePayload F → String → Result InvoiceKind
kind_of p technical_key =
    if p.document_type == "invoice"
    then ok (kind_record "invoice.xml" "10" "01" "CUFE-SHA384" technical_key)
    else if p.document_type == "credit_note"
    then ok (kind_record "credit_note.xml" "20" "91" "CUDE-SHA384" (or_empty p.software_pin))
    else if p.document_type == "debit_note"
    then ok (kind_record "debit_note.xml" "30" "92" "CUDE-SHA384" (or_empty p.software_pin))
    else err (validation (fixed ("Tipo de documento no soportado: " ++ p.document_type)))

-- `engine().render(..)?`
abbrev pub rendered : String ⊎ String → Result String
rendered (inl e) = err (internal (fixed e))
rendered (inr xml) = ok xml

module _ {F D : Type 0} (N : Decimals F D) (R : Floats F) where
  unfoldable pub format_amount : F → String
  format_amount value = elim (to_amount N "amount" value) [
    | ok d ↦ format_decimal_amount N d
    | err _ ↦ R.text2 value
  ]

  unfoldable pub commercial_document : CommercialInput F → Result CommercialDocument
  commercial_document i = do
    net ← amount N "net_amount" i.net_amount
    tax ← amount N "tax_amount" i.tax_amount
    total ← amount N "total_amount" i.total_amount
    lines ← compute_lines N i.lines net tax
    subtotals ← tax_subtotals N i.lines net tax
    ok (record {
      customization_id = i.customization_id;
      profile_execution_id = i.environment;
      id = i.id;
      uuid = i.uuid;
      uuid_scheme = i.uuid_scheme;
      issue_date = i.issue_date;
      issue_time = i.issue_time;
      type_code = i.type_code;
      supplier = i.supplier;
      customer = i.customer;
      lines = lines;
      tax_subtotals = subtotals;
      net = format_decimal_amount N net;
      tax = format_decimal_amount N tax;
      total = format_decimal_amount N total;
      billing_reference = i.billing_reference;
      discrepancy = i.discrepancy;
    })

  module _ (sha384 : String → String) where
    unfoldable pub invoice_code : InvoicePayload F → String → String
    invoice_code p key =
        calculate_cufe_cude sha384 (p.prefix ++ number_text p.number) p.issue_date p.issue_time
          (format_amount p.net_amount) "01" (format_amount p.tax_amount) "04"
          (format_amount R.zero_float) "03" (format_amount R.zero_float)
          (format_amount p.total_amount) p.company_nit p.customer_id key p.environment

    abbrev pub invoice_input : InvoicePayload F → InvoiceKind → CommercialInput F
    invoice_input p kind = record {
      customization_id = kind.customization_id;
      type_code = kind.type_code;
      uuid = invoice_code p kind.key;
      uuid_scheme = kind.uuid_scheme;
      id = p.prefix ++ number_text p.number;
      issue_date = p.issue_date;
      issue_time = p.issue_time;
      environment = p.environment;
      supplier = new_party "31" p.company_nit p.company_name;
      customer = new_party p.customer_id_type p.customer_id p.customer_name;
      lines = p.lines;
      net_amount = p.net_amount;
      tax_amount = p.tax_amount;
      total_amount = p.total_amount;
      billing_reference = p.billing_reference;
      discrepancy = p.discrepancy;
    }

    module _ (render : String → CommercialDocument → String ⊎ String) where
      unfoldable pub generate_invoice_xml : InvoicePayload F → String → Result (String × String)
      generate_invoice_xml p technical_key = do
        validate N p
        kind ← kind_of p technical_key
        document ← commercial_document (invoice_input p kind)
        xml ← rendered (render kind.template document)
        ok (xml, invoice_code p kind.key)

      unfoldable pub support_code : SupportDocumentPayload F → String
      support_code p =
          calculate_cuds sha384 (p.prefix ++ number_text p.number) p.issue_date p.issue_time
            (format_amount p.net_amount) (if R.is_positive p.tax_amount then "01" else "00")
            (format_amount p.tax_amount) (format_amount p.total_amount) p.seller_nit p.buyer_nit
            p.software_pin p.environment

      unfoldable pub generate_support_document_xml :
          SupportDocumentPayload F → Result (String × String)
      generate_support_document_xml p = do
        validate_support N p
        document ← commercial_document (record {
          customization_id = "10";
          type_code = "05";
          uuid = support_code p;
          uuid_scheme = "CUDS-SHA384";
          id = p.prefix ++ number_text p.number;
          issue_date = p.issue_date;
          issue_time = p.issue_time;
          environment = p.environment;
          supplier = new_party "31" p.seller_nit p.seller_name;
          customer = new_party "31" p.buyer_nit p.buyer_name;
          lines = p.lines;
          net_amount = p.net_amount;
          tax_amount = p.tax_amount;
          total_amount = p.total_amount;
          billing_reference = none;
          discrepancy = none;
        })
        xml ← rendered (render "invoice.xml" document)
        ok (xml, support_code p)

    unfoldable pub generate_payroll_xml :
        (PayrollContext → String ⊎ String) → PayrollPayload F → Result (String × String)
    generate_payroll_xml render p = do
      validate_payroll N p
      let cune =
          calculate_cune sha384 (p.prefix ++ number_text p.number) p.issue_date p.issue_time
            (format_amount p.devengado) (format_amount p.deducido) (format_amount p.total)
            p.employer_nit p.employee_id "102" p.software_pin p.environment
      xml ← rendered (
          render (record {
            prefix = p.prefix;
            number = p.number;
            cune = cune;
            issue_date = p.issue_date;
            issue_time = p.issue_time;
            employer_nit = p.employer_nit;
            employer_name = p.employer_name;
            employee_id = p.employee_id;
            employee_name = p.employee_name;
            devengado = format_amount p.devengado;
            deducido = format_amount p.deducido;
            total = format_amount p.total;
          }))
      ok (xml, cune)
