-- ===== src/Domain/EnumText/RoundTrip.antt =====
-- `as_str` and `from_str` of each enum are inverse to each other.
use dian_service.Base.{◌≡◌, refl, ◌↔◌, Option, some, String, arith, eq_iff}
use dian_service.Domain.Enums.{
  CertificateStatus, DocumentType, DocumentStatus, EventStatus, WebhookSubscriptionStatus,
  Direction, JobKind, JobStatus,
}
use dian_service.Domain.EnumText.{
  certificate_status_str, certificate_status_of_str, document_type_str, document_type_of_str,
  document_status_str, document_status_of_str, event_status_str, event_status_of_str,
  subscription_status_str, subscription_status_of_str, direction_str, direction_of_str,
  job_kind_str, job_kind_of_str, job_status_str, job_status_of_str,
}

-- `from_str` reads exactly the texts that `as_str` writes, each as its own variant.
abbrev pub ReadsWritten : {A : Type 0} → (A → String) → (String → Option A) → Type 0
ReadsWritten {A} as_str from_str = (t : String) (a : A) → (from_str t ≡ some a) ↔ (t ≡ as_str a)

certificate_status_of_str-certificate_status_str :
    (a : CertificateStatus) → certificate_status_of_str (certificate_status_str a) ≡ some a
unfolding certificate_status_of_str certificate_status_str
certificate_status_of_str-certificate_status_str CertificateStatus.active = refl
certificate_status_of_str-certificate_status_str _ = refl

certificate_status_written :
    (t : String) (a : CertificateStatus)
    → certificate_status_of_str t ≡ some a
    → t ≡ certificate_status_str a
unfolding certificate_status_of_str certificate_status_str
certificate_status_written t CertificateStatus.active h =
    ground (arith, eq_iff t "active", eq_iff t "expired", eq_iff t "revoked")
certificate_status_written t _ h =
    ground (arith, eq_iff t "active", eq_iff t "expired", eq_iff t "revoked")

certificate_status_ReadsWritten : ReadsWritten certificate_status_str certificate_status_of_str
certificate_status_ReadsWritten t a =
    (certificate_status_written t a, λ e. rw e (certificate_status_of_str-certificate_status_str a))

document_type_of_str-document_type_str :
    (a : DocumentType) → document_type_of_str (document_type_str a) ≡ some a
unfolding document_type_of_str document_type_str
document_type_of_str-document_type_str DocumentType.invoice = refl
document_type_of_str-document_type_str _ = refl

document_type_written :
    (t : String) (a : DocumentType) → document_type_of_str t ≡ some a → t ≡ document_type_str a
unfolding document_type_of_str document_type_str
document_type_written t DocumentType.invoice h = ground (
  arith,
  eq_iff t "invoice",
  eq_iff t "credit_note",
  eq_iff t "debit_note",
  eq_iff t "support_document",
  eq_iff t "payroll",
)
document_type_written t _ h = ground (
  arith,
  eq_iff t "invoice",
  eq_iff t "credit_note",
  eq_iff t "debit_note",
  eq_iff t "support_document",
  eq_iff t "payroll",
)

document_type_ReadsWritten : ReadsWritten document_type_str document_type_of_str
document_type_ReadsWritten t a =
    (document_type_written t a, λ e. rw e (document_type_of_str-document_type_str a))

document_status_of_str-document_status_str :
    (a : DocumentStatus) → document_status_of_str (document_status_str a) ≡ some a
unfolding document_status_of_str document_status_str
document_status_of_str-document_status_str DocumentStatus.draft = refl
document_status_of_str-document_status_str _ = refl

document_status_written :
    (t : String) (a : DocumentStatus)
    → document_status_of_str t ≡ some a
    → t ≡ document_status_str a
unfolding document_status_of_str document_status_str
document_status_written t DocumentStatus.draft h = ground (
  arith,
  eq_iff t "draft",
  eq_iff t "pending",
  eq_iff t "sent_dian",
  eq_iff t "dian_accepted",
  eq_iff t "dian_rejected",
  eq_iff t "contingency_pending",
  eq_iff t "contingency_sent",
  eq_iff t "processing_failed",
)
document_status_written t _ h = ground (
  arith,
  eq_iff t "draft",
  eq_iff t "pending",
  eq_iff t "sent_dian",
  eq_iff t "dian_accepted",
  eq_iff t "dian_rejected",
  eq_iff t "contingency_pending",
  eq_iff t "contingency_sent",
  eq_iff t "processing_failed",
)

document_status_ReadsWritten : ReadsWritten document_status_str document_status_of_str
document_status_ReadsWritten t a =
    (document_status_written t a, λ e. rw e (document_status_of_str-document_status_str a))

event_status_of_str-event_status_str :
    (a : EventStatus) → event_status_of_str (event_status_str a) ≡ some a
unfolding event_status_of_str event_status_str
event_status_of_str-event_status_str EventStatus.sent = refl
event_status_of_str-event_status_str _ = refl

event_status_written :
    (t : String) (a : EventStatus) → event_status_of_str t ≡ some a → t ≡ event_status_str a
unfolding event_status_of_str event_status_str
event_status_written t EventStatus.sent h =
    ground (arith, eq_iff t "sent", eq_iff t "accepted", eq_iff t "rejected", eq_iff t "error")
event_status_written t _ h =
    ground (arith, eq_iff t "sent", eq_iff t "accepted", eq_iff t "rejected", eq_iff t "error")

event_status_ReadsWritten : ReadsWritten event_status_str event_status_of_str
event_status_ReadsWritten t a =
    (event_status_written t a, λ e. rw e (event_status_of_str-event_status_str a))

subscription_status_of_str-subscription_status_str :
    (a : WebhookSubscriptionStatus)
    → subscription_status_of_str (subscription_status_str a) ≡ some a
unfolding subscription_status_of_str subscription_status_str
subscription_status_of_str-subscription_status_str WebhookSubscriptionStatus.active = refl
subscription_status_of_str-subscription_status_str _ = refl

subscription_status_written :
    (t : String) (a : WebhookSubscriptionStatus)
    → subscription_status_of_str t ≡ some a
    → t ≡ subscription_status_str a
unfolding subscription_status_of_str subscription_status_str
subscription_status_written t WebhookSubscriptionStatus.active h =
    ground (arith, eq_iff t "active", eq_iff t "inactive")
subscription_status_written t _ h = ground (arith, eq_iff t "active", eq_iff t "inactive")

subscription_status_ReadsWritten : ReadsWritten subscription_status_str subscription_status_of_str
subscription_status_ReadsWritten t a = (
  subscription_status_written t a,
  λ e. rw e (subscription_status_of_str-subscription_status_str a),
)

direction_of_str-direction_str : (a : Direction) → direction_of_str (direction_str a) ≡ some a
unfolding direction_of_str direction_str
direction_of_str-direction_str Direction.outbound = refl
direction_of_str-direction_str _ = refl

direction_written : (t : String) (a : Direction) → direction_of_str t ≡ some a → t ≡ direction_str a
unfolding direction_of_str direction_str
direction_written t Direction.outbound h = ground (arith, eq_iff t "outbound", eq_iff t "inbound")
direction_written t _ h = ground (arith, eq_iff t "outbound", eq_iff t "inbound")

direction_ReadsWritten : ReadsWritten direction_str direction_of_str
direction_ReadsWritten t a = (direction_written t a, λ e. rw e (direction_of_str-direction_str a))

job_kind_of_str-job_kind_str : (a : JobKind) → job_kind_of_str (job_kind_str a) ≡ some a
unfolding job_kind_of_str job_kind_str
job_kind_of_str-job_kind_str JobKind.transmit = refl
job_kind_of_str-job_kind_str _ = refl

job_kind_written : (t : String) (a : JobKind) → job_kind_of_str t ≡ some a → t ≡ job_kind_str a
unfolding job_kind_of_str job_kind_str
job_kind_written t JobKind.transmit h = ground (arith, eq_iff t "transmit", eq_iff t "poll_status")
job_kind_written t _ h = ground (arith, eq_iff t "transmit", eq_iff t "poll_status")

job_kind_ReadsWritten : ReadsWritten job_kind_str job_kind_of_str
job_kind_ReadsWritten t a = (job_kind_written t a, λ e. rw e (job_kind_of_str-job_kind_str a))

job_status_of_str-job_status_str : (a : JobStatus) → job_status_of_str (job_status_str a) ≡ some a
unfolding job_status_of_str job_status_str
job_status_of_str-job_status_str JobStatus.queued = refl
job_status_of_str-job_status_str _ = refl

job_status_written :
    (t : String) (a : JobStatus) → job_status_of_str t ≡ some a → t ≡ job_status_str a
unfolding job_status_of_str job_status_str
job_status_written t JobStatus.queued h =
    ground (arith, eq_iff t "queued", eq_iff t "running", eq_iff t "done", eq_iff t "dead")
job_status_written t _ h =
    ground (arith, eq_iff t "queued", eq_iff t "running", eq_iff t "done", eq_iff t "dead")

job_status_ReadsWritten : ReadsWritten job_status_str job_status_of_str
job_status_ReadsWritten t a =
    (job_status_written t a, λ e. rw e (job_status_of_str-job_status_str a))

-- Every enum of the domain reads back exactly the texts that it writes: an unknown text is refused,
-- and no two variants share one.
pub enums-ReadsWritten :
    ReadsWritten certificate_status_str certificate_status_of_str
    × ReadsWritten document_type_str document_type_of_str
    × ReadsWritten document_status_str document_status_of_str
    × ReadsWritten event_status_str event_status_of_str
    × ReadsWritten subscription_status_str subscription_status_of_str
    × ReadsWritten direction_str direction_of_str
    × ReadsWritten job_kind_str job_kind_of_str
    × ReadsWritten job_status_str job_status_of_str
enums-ReadsWritten = (
  certificate_status_ReadsWritten, document_type_ReadsWritten, document_status_ReadsWritten,
  event_status_ReadsWritten, subscription_status_ReadsWritten, direction_ReadsWritten,
  job_kind_ReadsWritten, job_status_ReadsWritten,
)
