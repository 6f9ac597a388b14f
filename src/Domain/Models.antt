-- ===== src/Domain/Models.antt =====
-- core-domain/src/models.rs, jobs.rs, admin.rs and ports.rs: the records. A `Uuid` and an instant are
-- numbers (an instant counts from an epoch before every instant in use); `V` is the type of JSON
-- values. Attempt counters, `i32` in the code, are never negative and are numbers.
use dian_service.Base.{ℕ, Option, none, some, String}
use dian_service.Base.Int.{ℤ}
use dian_service.Domain.Enums.{
  CertificateStatus, DocumentType, DocumentStatus, EventStatus, WebhookSubscriptionStatus,
  Direction, JobKind,
}
use dian_service.Domain.Errors.{Message}

pub record Tenant (V : Type 0) : Type 0 where
  pub id : ℕ
  pub tax_id : String
  pub registration_name : String
  pub tax_regime : String
  pub address_info : V
  pub reception_email : String
  pub api_keys : V
  pub created_at : ℕ
  pub updated_at : ℕ

pub record Certificate : Type 0 where
  pub id : ℕ
  pub tenant_id : ℕ
  pub vault_reference_path : String
  pub thumbprint : String
  pub expiration_date : ℕ
  pub status : CertificateStatus

pub record NumberingRange : Type 0 where
  pub id : ℕ
  pub tenant_id : ℕ
  pub document_type : DocumentType
  pub prefix : String
  pub from_number : ℤ
  pub to_number : ℤ
  pub technical_key : String
  pub valid_date_from : ℕ
  pub valid_date_to : ℕ
  pub current_counter : ℤ

pub record Document (V : Type 0) : Type 0 where
  pub id : ℕ
  pub tenant_id : ℕ
  pub direction : Direction
  pub issuer_nit : String
  pub document_type : DocumentType
  pub prefix : String
  pub document_number : ℤ
  pub numbering_range_id : Option ℕ
  pub cufe_cude : String
  pub payload : V
  pub original_xml : Option String
  pub signed_xml : Option String
  pub pdf_url : Option String
  pub status : DocumentStatus
  pub created_at : ℕ

pub record DianEvent : Type 0 where
  pub id : ℕ
  pub document_id : ℕ
  pub event_status : EventStatus
  pub dian_response_code : Option String
  pub dian_response_message : Option Message
  pub soap_trace_id : Option String
  pub xml_response : Option String
  pub created_at : ℕ

pub record Webhook : Type 0 where
  pub id : ℕ
  pub tenant_id : ℕ
  pub target_url : String
  pub webhook_secret : String
  pub event_type : String
  pub subscription_status : WebhookSubscriptionStatus

-- `DianEvent::new`, with the fresh id and the time of the call as arguments.
unfoldable pub new_event : ℕ → ℕ → ℕ → EventStatus → String → Message → DianEvent
new_event id now document_id status code message = record {
  id = id;
  document_id = document_id;
  event_status = status;
  dian_response_code = some code;
  dian_response_message = some message;
  soap_trace_id = none;
  xml_response = none;
  created_at = now;
}

-- jobs.rs
pub record Job (V : Type 0) : Type 0 where
  pub id : ℕ
  pub kind : JobKind
  pub document_id : ℕ
  pub payload : V
  pub attempts : ℕ
  pub max_attempts : ℕ

pub record NewJob (V : Type 0) : Type 0 where
  pub id : ℕ
  pub kind : JobKind
  pub document_id : ℕ
  pub payload : V
  pub max_attempts : ℕ
  pub run_at : ℕ

pub record QueueDepth : Type 0 where
  pub ready : ℕ
  pub scheduled : ℕ
  pub running : ℕ
  pub dead : ℕ

-- admin.rs
pub record NewTenant : Type 0 where
  pub id : ℕ
  pub tax_id : String
  pub registration_name : String
  pub tax_regime : String
  pub reception_email : String

pub record ApiKeyRecord : Type 0 where
  pub id : ℕ
  pub tenant_id : ℕ
  pub name : String
  pub prefix : String
  pub key_hash : String
  pub created_at : ℕ
  pub revoked_at : Option ℕ

pub record DeadJob : Type 0 where
  pub id : ℕ
  pub kind : JobKind
  pub document_id : ℕ
  pub tenant_id : ℕ
  pub attempts : ℕ
  pub last_error : Option Message
  pub failed_at : ℕ

pub record DeadDelivery : Type 0 where
  pub id : ℕ
  pub tenant_id : ℕ
  pub webhook_id : ℕ
  pub event_type : String
  pub attempts : ℕ
  pub last_error : Option Message
  pub last_status_code : Option ℕ
  pub failed_at : ℕ

pub record AuditEntry (V : Type 0) : Type 0 where
  pub action : String
  pub tenant_id : Option ℕ
  pub subject_id : Option ℕ
  pub details : V
