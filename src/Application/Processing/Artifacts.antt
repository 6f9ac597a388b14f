-- ===== src/Application/Processing/Artifacts.antt =====
-- application/src/processing.rs: `artifacts`, `generate`, `technical_key`, `payload_with_number`. A
-- reason for failing is on the left.
use dian_service.Base.{Option, none, String, ◌⊎◌, inl, inr, ◌==◌, string_eq, if◌then◌else◌}
use dian_service.Domain.Enums.{
  DocumentType, invoice, credit_note, debit_note, payroll, support_document,
}
use dian_service.Domain.Errors.{
  Message, fixed, invalid_payload, signature_failed, store_failed, range_missing, generation_failed,
}
use dian_service.Domain.Json.{Json}
use dian_service.Domain.Models.{Document}
use dian_service.Store.Documents.{find_numbering_range, store_artifacts}
use dian_service.Application.Engine.{Engine}
use dian_service.Application.World.{
  Outside, Action, give, case_option, case_result, case_sum, ◌>>=◌, port, remote,
}

pub record Artifacts : Type 0 where
  pub signed_xml : String
  pub cufe : String
  pub issuer_nit : String

module _ {V : Type 0} where
  -- `document.signed_xml.filter(|_| !document.cufe_cude.is_empty())`
  unfoldable pub already_signed : Document V → Option String
  already_signed d = if d.cufe_cude == "" then none else d.signed_xml

  -- `f(a)?` where the value is computed with no call.
  abbrev pub or_reason :
      {A B : Type 0} → Message ⊎ A → (A → Action V (Message ⊎ B)) → Action V (Message ⊎ B)
  or_reason x f = case_sum x (λ reason. give (inl reason)) f

-- The XML that an engine function gave, or why it failed.
abbrev pub generated : String → String ⊎ (String × String) → Message ⊎ (String × String)
generated what (inl e) = inl (generation_failed what e)
generated what (inr x) = inr x

module _ {V Invoice Payroll Support : Type 0} (J : Json V)
    (E : Engine V Invoice Payroll Support) where
  unfoldable pub payload_with_number : {P : Type 0} → (V → String ⊎ P) → Document V → Message ⊎ P
  payload_with_number read d =
      elim (read (
        J.set (J.set d.payload "prefix" (J.of_str d.prefix)) "number"
          (J.of_int d.document_number))) [
            | inl e ↦ inl (invalid_payload d.document_type e)
            | inr p ↦ inr p
          ]

  abbrev payload_field :
      {P : Type 0} → (V → String ⊎ P) → (P → String) → Document V → Message ⊎ String
  payload_field read nit d = elim (payload_with_number read d) [
    | inl e ↦ inl e
    | inr p ↦ inr (nit p)
  ]

  unfoldable pub issuer_nit_of : Document V → Message ⊎ String
  issuer_nit_of d = elim d.document_type [
    | invoice ↦ payload_field E.read_invoice E.company_nit d
    | credit_note ↦ payload_field E.read_invoice E.company_nit d
    | debit_note ↦ payload_field E.read_invoice E.company_nit d
    | payroll ↦ payload_field E.read_payroll E.employer_nit d
    | support_document ↦ payload_field E.read_support E.buyer_nit d
  ]

module _ {V Invoice Payroll Support : Type 0} (J : Json V) (E : Engine V Invoice Payroll Support)
    (O : Outside V) where
  unfoldable pub technical_key : Document V → Invoice → Action V (Message ⊎ String)
  technical_key d p =
      case_option d.numbering_range_id
        (case_option (E.technical_key p)
          (give (inl (fixed "Document has no numbering range nor legacy technical_key")))
          (λ key. give (inr key)))
        (λ range_id. port O (λ n s. (find_numbering_range s range_id, s)) >>= λ found.
          case_option found (give (inl (range_missing range_id)))
            (λ range. give (inr range.technical_key)))

  abbrev note_xml : Document V → Message ⊎ (String × String)
  note_xml d = elim (payload_with_number J E E.read_invoice d) [
    | inl e ↦ inl e
    | inr p ↦ generated "Note generation failed" (E.generate_invoice_xml p "")
  ]

  unfoldable pub generate_as : DocumentType → Document V → Action V (Message ⊎ (String × String))
  generate_as invoice d = or_reason (payload_with_number J E E.read_invoice d) (λ p.
      technical_key d p >>= λ key.
      or_reason key
        (λ k. give (generated "Invoice generation failed" (E.generate_invoice_xml p k))))
  generate_as credit_note d = give (note_xml d)
  generate_as debit_note d = give (note_xml d)
  generate_as payroll d =
      or_reason (payload_with_number J E E.read_payroll d)
        (λ p. give (generated "Payroll generation failed" (E.generate_payroll_xml p)))
  generate_as support_document d = or_reason (payload_with_number J E E.read_support d) (λ p.
      give (generated "Support document generation failed" (E.generate_support_document_xml p)))

  unfoldable pub generate : Document V → Action V (Message ⊎ (String × String))
  generate d = generate_as d.document_type d

  unfoldable pub store_signed :
      Document V → String → String → String → String → Action V (Message ⊎ Artifacts)
  store_signed d nit cufe unsigned_xml signed_xml =
      port O (λ n. store_artifacts d.id cufe unsigned_xml signed_xml) >>= λ stored.
      case_result stored
        (λ _. give (inr (record { signed_xml = signed_xml; cufe = cufe; issuer_nit = nit })))
        (λ e. give (inl (store_failed e)))

  unfoldable pub sign_new : Document V → String → Action V (Message ⊎ Artifacts)
  sign_new d nit = generate d >>= λ g. or_reason g (λ x.
      remote O (λ n. O.sign n d.tenant_id x.0) >>= λ signed.
      case_result signed (λ signed_xml. store_signed d nit x.1 x.0 signed_xml)
        (λ e. give (inl (signature_failed e))))

  unfoldable pub artifacts : Document V → Action V (Message ⊎ Artifacts)
  artifacts d = or_reason (issuer_nit_of J E d) (λ nit.
      case_option (already_signed d) (sign_new d nit) (λ signed_xml.
        give (inr (record { signed_xml = signed_xml; cufe = d.cufe_cude; issuer_nit = nit }))))
