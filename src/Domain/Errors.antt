-- ===== src/Domain/Errors.antt =====
-- core-domain/src/ports.rs: `DomainError`. A message that the code builds by `format!` is kept as its
-- template with the arguments; a fixed text is kept as it is.
use dian_service.Base.{ℕ, ◌≡◌, refl, ◌⊎◌, inl, inr, String}
use dian_service.Base.Int.{ℤ}
use dian_service.Domain.Enums.{DocumentType, DocumentStatus, JobKind}

mutual
  pub data DomainError : Type 0 where
    database not_found conflict validation forbidden crypto soap queue internal :
        Message → DomainError

  pub data Message : Type 0 where
    fixed : String → Message
    -- `Display` of an error: its kind, then its message.
    shown : DomainError → Message
    -- numbering.rs
    not_in_force : String → ℕ → ℕ → Message
    exhausted : String → ℤ → Message
    not_next : ℤ → String → ℤ → Message
    -- testing.rs
    has_active_job : ℕ → JobKind → Message
    job_id : ℕ → Message
    document_id : ℕ → Message
    delivery_id : ℕ → Message
    no_range : String → DocumentType → Message
    document_exists : String → ℤ → Message
    tenant_exists : String → Message
    job_does_not_apply : DocumentStatus → JobKind → Message
    -- processing.rs
    invalid_payload : DocumentType → String → Message
    signature_failed : DomainError → Message
    store_failed : DomainError → Message
    range_load_failed : DomainError → Message
    range_missing : ℕ → Message
    generation_failed : String → String → Message
    compression_failed : String → Message
    dian_reports : String → String → Message
    polling_exhausted : ℕ → Message → Message
    -- issue.rs
    foreign_nit : String → Message
    key_length : ℕ → Message
    payload_error : String → Message
    -- application/src/webhooks.rs
    http_status : ℕ → Message
    bad_url : String → Message
    too_many_webhooks : ℕ → Message
    webhook_id : ℕ → Message
    -- admin.rs
    text_length : String → ℕ → Message
    bad_document_type : String → Message
    tenant_id : ℕ → Message
    api_key_id : ℕ → Message
    dead_job_id : ℕ → Message
    dead_delivery_id : ℕ → Message
    -- inbound.rs: `{}: {}`
    in_context : String → Message → Message

pub data Result {ℓ} (A : Type ℓ) : Type ℓ where
  ok : A → Result A
  err : DomainError → Result A

pub Result-cases {ℓ} :
    {A : Type ℓ} (r : Result A) → ((a : A) × (r ≡ ok a)) ⊎ ((e : DomainError) × (r ≡ err e))
Result-cases (ok a) = inl (a, refl)
Result-cases (err e) = inr (e, refl)
