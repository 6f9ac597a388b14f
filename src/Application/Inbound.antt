-- ===== src/Application/Inbound.antt =====
-- application/src/inbound.rs: the registration of an invoice that a supplier sent, with its three
-- signatures verified. The verifier is a port, and the XML reader a package.
pub mod Register
pub mod Verified
pub mod Stored
pub mod Registered
use Prim.Native.String.{◌++◌}
use dian_service.Base.{
  ℕ, Bool, true, false, not, List, [], ◌∷◌, Option, none, some, String, ◌⊎◌, inl, inr, ◌==◌,
  string_eq, if◌then◌else◌,
}
use dian_service.Base.Int.{ℤ}
use dian_service.Base.Strings.{contains_text, eq_ignore_case, is_empty}
use dian_service.Base.Xml.{Reader}
use dian_service.Domain.Checks.{◌>>=◌, ◌>>◌, refuse, or_error, map_error}
use dian_service.Domain.Enums.{invoice, dian_accepted}
use dian_service.Domain.Errors.{
  Result, ok, err, DomainError, Message, validation, forbidden, conflict, internal, fixed,
  in_context,
}
use dian_service.Domain.Json.{Json}
use dian_service.Domain.Models.{Tenant}
use dian_service.Domain.Ports.{NewInboundDocument, VerifiedSignature}
use dian_service.Store.Documents.{insert_inbound}
use dian_service.Application.World.{
  Outside, Action, give, port, remote, and_then, or_stop, case_option,
}
use dian_service.Application.Xml.{XmlDoc, parse, text_at}
use dian_service.Application.Xml.Tags.{split_document_id}

pub record InboundRegistered : Type 0 where
  pub document_id : ℕ
  pub parent_document_id : String

-- The verifier, after a number of calls, and the text that the DIAN's certificate has.
pub record InboundVerification : Type 0 where
  pub verifier : ℕ → String → Result VerifiedSignature
  pub dian_signer_subject : String

abbrev pub invalid : {A : Type 0} → String → Result A
invalid m = err (validation (fixed m))

abbrev pub attached_invoice : List String
attached_invoice = "AttachedDocument" ∷ "Attachment" ∷ "ExternalReference" ∷ "Description" ∷ []

abbrev pub attached_response : List String
attached_response =
    "AttachedDocument" ∷ "ParentDocumentLineReference" ∷ "DocumentReference" ∷ "Attachment"
    ∷ "ExternalReference" ∷ "Description" ∷ []

-- `path(SUPPLIER, leaf)` and `path(CUSTOMER, leaf)`.
abbrev pub supplier : String → List String
supplier leaf = "Invoice" ∷ "AccountingSupplierParty" ∷ "Party" ∷ "PartyTaxScheme" ∷ leaf ∷ []

abbrev pub customer : String → List String
customer leaf = "Invoice" ∷ "AccountingCustomerParty" ∷ "Party" ∷ "PartyTaxScheme" ∷ leaf ∷ []

abbrev pub document_response : List String → List String
document_response path = "ApplicationResponse" ∷ "DocumentResponse" ∷ path

abbrev pub not_blank : Option String → Option String
not_blank none = none
not_blank (some v) = if is_empty v then none else some v

-- The error of `XmlDoc::parse` as a validation error.
abbrev pub parsed : {A : Type 0} → String → String ⊎ A → Result A
parsed what (inl e) = err (validation (fixed (what ++ e)))
parsed what (inr a) = ok a

abbrev pub text_or_empty : Option String → String
text_or_empty none = ""
text_or_empty (some t) = t

abbrev pub same_text : Option String → String → Bool
same_text none t = false
same_text (some s) t = s == t

-- What the container holds.
pub record Attached : Type 0 where
  pub container : XmlDoc
  pub invoice_xml : String
  pub response_xml : String

-- What is read of the embedded invoice.
pub record InvoiceIds : Type 0 where
  pub invoice_id : String
  pub cufe : String
  pub sender_nit : String
  pub sender_name : String
  pub receiver_nit : String

pub record InvoiceFacts : Type 0 where
  pub ids : InvoiceIds
  pub receiver_name : String
  pub issue_date : Option String
  pub payable_amount : Option String
  pub prefix : String
  pub number : ℤ

module _ (read : Reader) where
  unfoldable pub required : XmlDoc → List String → String → Result String
  required doc path what =
      or_error (not_blank (text_at read doc path)) (validation (fixed ("No se encontro " ++ what)))

  abbrev pub root_is : String → String → XmlDoc → Result (Unit {0})
  root_is root message doc = refuse (not (doc.root == root)) (validation (fixed message))

  unfoldable pub open_as : String → String → String → String → Result XmlDoc
  open_as what root message xml = do
    doc ← parsed what (parse read xml)
    root_is root message doc
    ok doc

  -- What `register_verified` does before the first signature is verified.
  unfoldable pub attached : String → Result Attached
  attached attached_xml = do
    container ←
        open_as "" "AttachedDocument" "El documento recibido no es un AttachedDocument" attached_xml
    invoice_xml ← required container attached_invoice "la factura embebida en el AttachedDocument"
    response_xml ←
        required container attached_response
          "el ApplicationResponse de la DIAN en el AttachedDocument"
    ok (record { container = container; invoice_xml = invoice_xml; response_xml = response_xml })

  -- The response of the DIAN: it is about this invoice, and accepts it.
  unfoldable pub check_response : XmlDoc → String → Result (Unit {0})
  check_response response cufe = do
    response_code ←
        required response (document_response ("Response" ∷ "ResponseCode" ∷ []))
          "el codigo de respuesta de la DIAN"
    validated_cufe ←
        required response (document_response ("DocumentReference" ∷ "UUID" ∷ []))
          "el CUFE validado por la DIAN"
    refuse (not (response_code == "02")) (
        validation (
          fixed (
            "La DIAN no valido la factura (ResponseCode " ++ response_code ++ "; se esperaba 02)")))
    refuse (not (eq_ignore_case validated_cufe cufe)) (
        validation
          (fixed "El ApplicationResponse de la DIAN corresponde a otra factura (CUFE distinto)"))
    ok tt

  unfoldable pub read_invoice : XmlDoc → Result InvoiceIds
  read_invoice inv = do
    invoice_id ← required inv ("Invoice" ∷ "ID" ∷ []) "el numero de la factura"
    cufe ← required inv ("Invoice" ∷ "UUID" ∷ []) "el CUFE de la factura"
    sender_nit ← required inv (supplier "CompanyID") "el NIT del emisor en la factura"
    sender_name ← required inv (supplier "RegistrationName") "el nombre del emisor en la factura"
    receiver_nit ← required inv (customer "CompanyID") "el NIT del adquirente en la factura"
    ok (record {
      invoice_id = invoice_id;
      cufe = cufe;
      sender_nit = sender_nit;
      sender_name = sender_name;
      receiver_nit = receiver_nit;
    })

  -- The container is about this invoice, and the invoice is for the tenant.
  unfoldable pub check_addressed :
      {V : Type 0} → Tenant V → XmlDoc → InvoiceIds → Result (String × ℤ)
  check_addressed tenant container ids = do
    refuse
        (not (
          same_text (text_at read container ("AttachedDocument" ∷ "ParentDocumentID" ∷ []))
            ids.invoice_id))
        (validation
          (fixed "El ParentDocumentID del contenedor no coincide con el numero de la factura"))
    refuse (not (ids.receiver_nit == tenant.tax_id)) (
        forbidden (
          fixed (
            "El adquirente de la factura (" ++ ids.receiver_nit
            ++ ") no es el tenant autenticado")))
    or_error (split_document_id ids.invoice_id) (
        validation (
          fixed (
            "El numero de factura '" ++ ids.invoice_id
            ++ "' no tiene un consecutivo numerico valido")))

  abbrev pub facts_of : XmlDoc → InvoiceIds → String × ℤ → InvoiceFacts
  facts_of inv ids (prefix, number) = record {
    ids = ids;
    receiver_name = text_or_empty (text_at read inv (customer "RegistrationName"));
    issue_date = text_at read inv ("Invoice" ∷ "IssueDate" ∷ []);
    payable_amount = text_at read inv ("Invoice" ∷ "LegalMonetaryTotal" ∷ "PayableAmount" ∷ []);
    prefix = prefix;
    number = number;
  }

  -- What it does after the three signatures are verified.
  unfoldable pub facts : {V : Type 0} → Tenant V → Attached → Result InvoiceFacts
  facts tenant a = do
    inv ←
        open_as "Factura embebida: " "Invoice" "El documento embebido no es una factura (Invoice)"
          a.invoice_xml
    response ←
        open_as "ApplicationResponse: " "ApplicationResponse"
          "La respuesta embebida no es un ApplicationResponse" a.response_xml
    ids ← read_invoice inv
    check_response response ids.cufe
    parts ← check_addressed tenant a.container ids
    ok (facts_of inv ids parts)
