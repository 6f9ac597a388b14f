-- ===== src/Domain/Enums.antt =====
-- core-domain/src/models.rs: the enums that `text_enum!` defines. The derived `==` compares the
-- positions of the variants.
use dian_service.Base.{ℕ, ◌≡◌, ◌↔◌, true, arith, nat_eq, Eq}

pub data CertificateStatus : Type 0 where
  active expired revoked : CertificateStatus

pub data DocumentType : Type 0 where
  invoice credit_note debit_note support_document payroll : DocumentType

pub data DocumentStatus : Type 0 where
  draft pending sent_dian dian_accepted dian_rejected contingency_pending contingency_sent
        processing_failed :
      DocumentStatus

pub data EventStatus : Type 0 where
  sent accepted rejected error : EventStatus

pub data WebhookSubscriptionStatus : Type 0 where
  active inactive : WebhookSubscriptionStatus

pub data Direction : Type 0 where
  outbound inbound : Direction

pub data JobKind : Type 0 where
  transmit poll_status : JobKind

pub data JobStatus : Type 0 where
  queued running done dead : JobStatus

abbrev certificate_status_index : CertificateStatus → ℕ
certificate_status_index CertificateStatus.active = 0
certificate_status_index CertificateStatus.expired = 1
certificate_status_index CertificateStatus.revoked = 2

pub certificate_status_index_iff :
    (a b : CertificateStatus)
    → (nat_eq (certificate_status_index a) (certificate_status_index b) ≡ true) ↔ (a ≡ b)
certificate_status_index_iff a b = ground arith

instance abbrev pub certificate_status_eq : Eq CertificateStatus
certificate_status_eq = record {
  test = λ a b. nat_eq (certificate_status_index a) (certificate_status_index b);
  correct = certificate_status_index_iff;
}

abbrev document_type_index : DocumentType → ℕ
document_type_index DocumentType.invoice = 0
document_type_index DocumentType.credit_note = 1
document_type_index DocumentType.debit_note = 2
document_type_index DocumentType.support_document = 3
document_type_index DocumentType.payroll = 4

pub document_type_index_iff :
    (a b : DocumentType) → (nat_eq (document_type_index a) (document_type_index b) ≡ true) ↔ (a ≡ b)
document_type_index_iff a b = ground arith

instance abbrev pub document_type_eq : Eq DocumentType
document_type_eq = record {
  test = λ a b. nat_eq (document_type_index a) (document_type_index b);
  correct = document_type_index_iff;
}

abbrev document_status_index : DocumentStatus → ℕ
document_status_index DocumentStatus.draft = 0
document_status_index DocumentStatus.pending = 1
document_status_index DocumentStatus.sent_dian = 2
document_status_index DocumentStatus.dian_accepted = 3
document_status_index DocumentStatus.dian_rejected = 4
document_status_index DocumentStatus.contingency_pending = 5
document_status_index DocumentStatus.contingency_sent = 6
document_status_index DocumentStatus.processing_failed = 7

pub document_status_index_iff :
    (a b : DocumentStatus)
    → (nat_eq (document_status_index a) (document_status_index b) ≡ true) ↔ (a ≡ b)
document_status_index_iff a b = ground arith

instance abbrev pub document_status_eq : Eq DocumentStatus
document_status_eq = record {
  test = λ a b. nat_eq (document_status_index a) (document_status_index b);
  correct = document_status_index_iff;
}

abbrev event_status_index : EventStatus → ℕ
event_status_index EventStatus.sent = 0
event_status_index EventStatus.accepted = 1
event_status_index EventStatus.rejected = 2
event_status_index EventStatus.error = 3

pub event_status_index_iff :
    (a b : EventStatus) → (nat_eq (event_status_index a) (event_status_index b) ≡ true) ↔ (a ≡ b)
event_status_index_iff a b = ground arith

instance abbrev pub event_status_eq : Eq EventStatus
event_status_eq = record {
  test = λ a b. nat_eq (event_status_index a) (event_status_index b);
  correct = event_status_index_iff;
}

abbrev subscription_status_index : WebhookSubscriptionStatus → ℕ
subscription_status_index WebhookSubscriptionStatus.active = 0
subscription_status_index WebhookSubscriptionStatus.inactive = 1

pub subscription_status_index_iff :
    (a b : WebhookSubscriptionStatus)
    → (nat_eq (subscription_status_index a) (subscription_status_index b) ≡ true) ↔ (a ≡ b)
subscription_status_index_iff a b = ground arith

instance abbrev pub subscription_status_eq : Eq WebhookSubscriptionStatus
subscription_status_eq = record {
  test = λ a b. nat_eq (subscription_status_index a) (subscription_status_index b);
  correct = subscription_status_index_iff;
}

abbrev direction_index : Direction → ℕ
direction_index Direction.outbound = 0
direction_index Direction.inbound = 1

pub direction_index_iff :
    (a b : Direction) → (nat_eq (direction_index a) (direction_index b) ≡ true) ↔ (a ≡ b)
direction_index_iff a b = ground arith

instance abbrev pub direction_eq : Eq Direction
direction_eq = record {
  test = λ a b. nat_eq (direction_index a) (direction_index b);
  correct = direction_index_iff;
}

abbrev job_kind_index : JobKind → ℕ
job_kind_index JobKind.transmit = 0
job_kind_index JobKind.poll_status = 1

pub job_kind_index_iff :
    (a b : JobKind) → (nat_eq (job_kind_index a) (job_kind_index b) ≡ true) ↔ (a ≡ b)
job_kind_index_iff a b = ground arith

instance abbrev pub job_kind_eq : Eq JobKind
job_kind_eq = record {
  test = λ a b. nat_eq (job_kind_index a) (job_kind_index b);
  correct = job_kind_index_iff;
}

abbrev job_status_index : JobStatus → ℕ
job_status_index JobStatus.queued = 0
job_status_index JobStatus.running = 1
job_status_index JobStatus.done = 2
job_status_index JobStatus.dead = 3

pub job_status_index_iff :
    (a b : JobStatus) → (nat_eq (job_status_index a) (job_status_index b) ≡ true) ↔ (a ≡ b)
job_status_index_iff a b = ground arith

instance abbrev pub job_status_eq : Eq JobStatus
job_status_eq = record {
  test = λ a b. nat_eq (job_status_index a) (job_status_index b);
  correct = job_status_index_iff;
}
