-- ===== src/Domain/Ports.antt =====
-- core-domain/src/ports.rs: what the ports exchange.
use dian_service.Base.{ℕ, Bool, Option, none, some, String}
use dian_service.Base.Int.{ℤ}
use dian_service.Domain.Enums.{DocumentType, DocumentStatus}
use dian_service.Domain.Errors.{Message}
use dian_service.Domain.Models.{DianEvent, NewJob}

pub record DianResponse : Type 0 where
  pub status_code : String
  pub message : String
  pub xml_response : Option String
  pub soap_trace_id : Option String

pub record IdempotencyKey : Type 0 where
  pub key : String
  pub request_hash : String

pub record NewOutboundDocument (V : Type 0) : Type 0 where
  pub id : ℕ
  pub tenant_id : ℕ
  pub document_type : DocumentType
  pub prefix : String
  pub requested_number : Option ℤ
  pub payload : V
  pub idempotency : Option IdempotencyKey

pub record IssuedDocument : Type 0 where
  pub document_id : ℕ
  pub document_number : ℤ

pub data IssueOutcome : Type 0 where
  created replayed : IssuedDocument → IssueOutcome

pub record NewInboundDocument (V : Type 0) : Type 0 where
  pub id : ℕ
  pub tenant_id : ℕ
  pub issuer_nit : String
  pub document_type : DocumentType
  pub prefix : String
  pub document_number : ℤ
  pub cufe : String
  pub payload : V
  pub signed_xml : String
  pub status : DocumentStatus

pub record VerifiedSignature : Type 0 where
  pub signer_subject : String

pub data JobOutcome : Type 0 where
  complete : ℕ → JobOutcome
  bury : ℕ → Message → JobOutcome

pub record Transition (V : Type 0) : Type 0 where
  pub document_id : ℕ
  pub to : DocumentStatus
  pub event : Option DianEvent
  pub job : Option JobOutcome
  pub follow_up : Option (NewJob V)

module _ {V : Type 0} where
  unfoldable pub new_transition : ℕ → DocumentStatus → Transition V
  new_transition document_id to = record {
    document_id = document_id;
    to = to;
    event = none;
    job = none;
    follow_up = none;
  }

  unfoldable pub with_event : Transition V → DianEvent → Transition V
  with_event t event = record t { event = some event }

  unfoldable pub with_job : Transition V → JobOutcome → Transition V
  with_job t outcome = record t { job = some outcome }

  unfoldable pub with_follow_up : Transition V → NewJob V → Transition V
  with_follow_up t job = record t { follow_up = some job }

pub record WebhookDelivery (V : Type 0) : Type 0 where
  pub id : ℕ
  pub tenant_id : ℕ
  pub event_type : String
  pub details : V
  pub attempts : ℕ
  pub max_attempts : ℕ
  pub created_at : ℕ
  pub target_url : String
  pub secret : String
  pub active : Bool
