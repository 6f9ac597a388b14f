-- ===== src/Application/Issue/Payloads.antt =====
-- application/src/issue.rs with the invoices and notes of ubl-engine.
use dian_service.Base.{
  ℕ, ◌≡◌, refl, Option, some, String, ◌⊎◌, inl, inr, ◌==◌, string_eq, eq_iff, Sum-cases, Bool-cases,
  lookup,
}
use dian_service.Domain.Enums.{DocumentType, invoice, credit_note, debit_note, pending}
use dian_service.Domain.Errors.{Result, ok, err, DomainError, forbidden, foreign_nit, Result-cases}
use dian_service.Domain.Json.{Json}
use dian_service.Domain.Models.{Tenant, Document, NewJob}
use dian_service.Domain.Numbering.Rules.{next_number-requested}
use dian_service.Domain.Ports.{IssueOutcome, IssuedDocument, NewOutboundDocument, created}
use dian_service.Store.State.{State}
use dian_service.Store.Documents.{issued_document, issue_outbound}
use dian_service.Store.Issuing.{issue_outbound-Issued}
use dian_service.Store.History.Numbers.{Issued-there}
use dian_service.Application.World.{World, Outside, Action, give, port}
use dian_service.Application.Issue.{
  Payload, Hashing, require_issuer, authorized, issue, issue_invoice, type_of, idempotency,
  store_document,
}
use dian_service.Ubl.Money.{Decimals}
use dian_service.Ubl.Payload.{InvoicePayload, validate}
use dian_service.Ubl.Payload.Valid.{IsValid, validate-IsValid}

-- The `validate` of a payload, whose error is shown as a text.
abbrev pub validated : (DomainError → String) → Result (Unit {0}) → String ⊎ Unit {0}
validated shown_as (ok _) = inr tt
validated shown_as (err e) = inl (shown_as e)

-- `InvoicePayload` as the use case has it; `to_value` is serde's.
unfoldable pub invoice_payload :
    {F D V : Type 0}
    → Decimals F D
    → (DomainError → String)
    → (InvoicePayload F → String ⊎ V)
    → Payload V (InvoicePayload F)
invoice_payload N shown_as to_value = record {
  validate = λ p. validated shown_as (validate N p);
  nit = λ p. p.company_nit;
  prefix = λ p. p.prefix;
  number = λ p. p.number;
  document_type = λ p. p.document_type;
  to_value = to_value;
}

-- The types of the documents that a payload is for.
abbrev pub TypeOf : String → DocumentType → Type 0
TypeOf t invoice = t ≡ "invoice"
TypeOf t credit_note = t ≡ "credit_note"
TypeOf t debit_note = t ≡ "debit_note"
TypeOf t _ = ⊥

type_of-TypeOf :
    {F D : Type 0} (N : Decimals F D) (p : InvoicePayload F)
    → IsValid N p
    → TypeOf p.document_type (type_of p.document_type)
unfolding type_of
type_of-TypeOf N p v = elim v.kind [
  | inl e ↦ rw e refl
  | inr (inl e, _) ↦ rw e refl
  | inr (inr e, _) ↦ rw e refl
]

validated-ok :
    (shown_as : DomainError → String) (r : Result (Unit {0}))
    → validated shown_as r ≡ inr tt
    → r ≡ ok tt
validated-ok shown_as (ok tt) h = refl
validated-ok shown_as (err e) h = cc

require_issuer-cases :
    {V : Type 0} (tenant : Tenant V) (nit role : String)
    → ((nit ≡ tenant.tax_id) × (require_issuer tenant nit role ≡ ok tt))
      ⊎ (require_issuer tenant nit role ≡ err (forbidden (foreign_nit role)))
unfolding require_issuer
require_issuer-cases tenant nit role = elim (Bool-cases (nit == tenant.tax_id)) [
  | inl e ↦ inl ((eq_iff nit tenant.tax_id).0 e, rw e refl)
  | inr e ↦ inr (rw e refl)
]

module _ {V P : Type 0} (J : Json V) (H : Hashing V) (O : Outside V) (attempts : ℕ)
    (Q : Payload V P) where
  authorized-ok :
      (tenant : Tenant V) (p : P) (role : String) (rest : Action V (Result IssueOutcome))
      (w : World V) (outcome : IssueOutcome)
      → (authorized J H O attempts Q tenant p role rest w).0 ≡ ok outcome
      → (Q.validate p ≡ inr tt)
        × (Q.nit p ≡ tenant.tax_id)
        × (authorized J H O attempts Q tenant p role rest w ≡ rest w)
  unfolding authorized give
  authorized-ok tenant p role rest w outcome = elim (Sum-cases (Q.validate p)) [
    | inl (e, bad) ↦ rw bad (λ h. cc)
    | inr (tt, good) ↦ elim (require_issuer-cases tenant (Q.nit p) role) [
      | inl (same, e) ↦ rw (good, e) (λ h. (refl, same, refl))
      | inr e ↦ rw (good, e) (λ h. cc)
    ]
  ]

module _ {F D V : Type 0} (N : Decimals F D) (J : Json V) (H : Hashing V) (O : Outside V)
    (attempts : ℕ) (shown_as : DomainError → String)
    (to_value : InvoicePayload F → String ⊎ V) where
  -- What the store holds of an invoice or note that was issued as new.
  pub record IsStored (tenant : Tenant V) (p : InvoicePayload F) (i : IssuedDocument) (s : State V)
      : Type 0 where
    pub document : Document V
    pub there : lookup i.document_id s.documents ≡ some document
    pub tenant_id : document.tenant_id ≡ tenant.id
    pub type : TypeOf p.document_type document.document_type
    pub prefix : document.prefix ≡ p.prefix
    pub number : document.document_number ≡ p.number
    pub told : i.document_number ≡ p.number
    pub payload : to_value p ≡ inr document.payload
    pub waiting : document.status ≡ pending

  stored :
      (tenant : Tenant V) (p : InvoicePayload F) (v : V) (now : ℕ) (d : NewOutboundDocument V)
      (job : NewJob V) (s : State V) (i : IssuedDocument)
      → to_value p ≡ inr v
      → (d.tenant_id ≡ tenant.id)
        × TypeOf p.document_type d.document_type
        × (d.prefix ≡ p.prefix)
        × (d.payload ≡ v)
      → d.requested_number ≡ some p.number
      → (issue_outbound now d job s).0 ≡ ok (created i)
      → IsStored tenant p i (issue_outbound now d job s).1
  stored tenant p v now d job s i e (id, type, prefix, value) asked h =
      let g = issue_outbound-Issued now d job s i h in
      let same =
        next_number-requested g.range p.number now i.document_number (rw asked at g.granted) in
      record {
        document = issued_document now d g.range i.document_number;
        there = rw g.own_id (Issued-there now d job s i g);
        tenant_id = id;
        type = type;
        prefix = prefix;
        number = same;
        told = same;
        payload = rw value e;
        waiting = refl;
      }

  issue-IsStored :
      (tenant : Tenant V) (p : InvoicePayload F) (key : Option String) (w : World V)
      (i : IssuedDocument)
      → TypeOf p.document_type (type_of p.document_type)
      → (issue J H O attempts
          (invoice_payload N shown_as to_value)
          tenant
          (type_of p.document_type)
          p.prefix
          (some p.number)
          p
          key
          w).0
        ≡ ok (created i)
      → IsStored tenant p i
          (issue J H O attempts
            (invoice_payload N shown_as to_value)
            tenant
            (type_of p.document_type)
            p.prefix
            (some p.number)
            p
            key
            w).1.store
  unfolding issue give invoice_payload store_document port
  issue-IsStored tenant p key w i type = elim (Sum-cases (to_value p)) [
    | inl (e, bad) ↦ rw (bad, issue, invoice_payload) (λ h. cc)
    | inr (v, good) ↦ elim (Result-cases (idempotency H key (type_of p.document_type) v)) [
      | inl (k, e) ↦
          rw (good, issue, invoice_payload)
            (rw e (stored tenant p v _ _ _ _ i good (refl, type, refl, refl) refl))
      | inr (x, e) ↦ rw (good, issue, invoice_payload) (rw e (λ h. cc))
    ]
  ]

  -- If an invoice or a note is issued as new, its payload is valid and its NIT is the tenant's, and the
  -- store holds the document under the id that is answered: of the tenant, of the type that the payload
  -- says, with the payload's prefix, its number, which is the number answered, and its value, and
  -- waiting for transmission.
  pub issue_invoice-IsValid :
      (tenant : Tenant V) (p : InvoicePayload F) (key : Option String) (w : World V)
      (i : IssuedDocument)
      → (issue_invoice J H O attempts (invoice_payload N shown_as to_value) tenant p key w).0
        ≡ ok (created i)
      → IsValid N p
        × (p.company_nit ≡ tenant.tax_id)
        × IsStored tenant p i
            (issue_invoice J H O attempts
              (invoice_payload N shown_as to_value)
              tenant
              p
              key
              w).1.store
  unfolding issue_invoice invoice_payload
  issue_invoice-IsValid tenant p key w i h =
      let (valid, same, done_as) =
        authorized-ok J H O attempts (invoice_payload N shown_as to_value) tenant p "emisor" _ w
          (created i) h in
      let v = validate-IsValid N p (validated-ok shown_as (validate N p) valid) in
      (
        v,
        same,
        rw done_as (issue-IsStored tenant p key w i (type_of-TypeOf N p v) (rw done_as at h)),
      )
