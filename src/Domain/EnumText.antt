-- ===== src/Domain/EnumText.antt =====
-- core-domain/src/models.rs: the texts of the enums. For an enum `T`, `text_enum!` makes `as_str` (here
-- `t_str`) and `from_str` (here `t_of_str`, with `none` for `UnknownVariant`).
pub mod RoundTrip
use dian_service.Base.{Option, some, none, String, str_eq, if◌then◌else◌}
use dian_service.Domain.Enums.{
  CertificateStatus, DocumentType, DocumentStatus, EventStatus, WebhookSubscriptionStatus,
  Direction, JobKind, JobStatus,
}

unfoldable pub certificate_status_str : CertificateStatus → String
certificate_status_str CertificateStatus.active = "active"
certificate_status_str CertificateStatus.expired = "expired"
certificate_status_str CertificateStatus.revoked = "revoked"

unfoldable pub certificate_status_of_str : String → Option CertificateStatus
certificate_status_of_str value =
    if str_eq value "active"
    then some CertificateStatus.active
    else if str_eq value "expired"
    then some CertificateStatus.expired
    else if str_eq value "revoked"
    then some CertificateStatus.revoked
    else none

unfoldable pub document_type_str : DocumentType → String
document_type_str DocumentType.invoice = "invoice"
document_type_str DocumentType.credit_note = "credit_note"
document_type_str DocumentType.debit_note = "debit_note"
document_type_str DocumentType.support_document = "support_document"
document_type_str DocumentType.payroll = "payroll"

unfoldable pub document_type_of_str : String → Option DocumentType
document_type_of_str value =
    if str_eq value "invoice"
    then some DocumentType.invoice
    else if str_eq value "credit_note"
    then some DocumentType.credit_note
    else if str_eq value "debit_note"
    then some DocumentType.debit_note
    else if str_eq value "support_document"
    then some DocumentType.support_document
    else if str_eq value "payroll"
    then some DocumentType.payroll
    else none

unfoldable pub document_status_str : DocumentStatus → String
document_status_str DocumentStatus.draft = "draft"
document_status_str DocumentStatus.pending = "pending"
document_status_str DocumentStatus.sent_dian = "sent_dian"
document_status_str DocumentStatus.dian_accepted = "dian_accepted"
document_status_str DocumentStatus.dian_rejected = "dian_rejected"
document_status_str DocumentStatus.contingency_pending = "contingency_pending"
document_status_str DocumentStatus.contingency_sent = "contingency_sent"
document_status_str DocumentStatus.processing_failed = "processing_failed"

unfoldable pub document_status_of_str : String → Option DocumentStatus
document_status_of_str value =
    if str_eq value "draft"
    then some DocumentStatus.draft
    else if str_eq value "pending"
    then some DocumentStatus.pending
    else if str_eq value "sent_dian"
    then some DocumentStatus.sent_dian
    else if str_eq value "dian_accepted"
    then some DocumentStatus.dian_accepted
    else if str_eq value "dian_rejected"
    then some DocumentStatus.dian_rejected
    else if str_eq value "contingency_pending"
    then some DocumentStatus.contingency_pending
    else if str_eq value "contingency_sent"
    then some DocumentStatus.contingency_sent
    else if str_eq value "processing_failed"
    then some DocumentStatus.processing_failed
    else none

unfoldable pub event_status_str : EventStatus → String
event_status_str EventStatus.sent = "sent"
event_status_str EventStatus.accepted = "accepted"
event_status_str EventStatus.rejected = "rejected"
event_status_str EventStatus.error = "error"

unfoldable pub event_status_of_str : String → Option EventStatus
event_status_of_str value =
    if str_eq value "sent"
    then some EventStatus.sent
    else if str_eq value "accepted"
    then some EventStatus.accepted
    else if str_eq value "rejected"
    then some EventStatus.rejected
    else if str_eq value "error"
    then some EventStatus.error
    else none

unfoldable pub subscription_status_str : WebhookSubscriptionStatus → String
subscription_status_str WebhookSubscriptionStatus.active = "active"
subscription_status_str WebhookSubscriptionStatus.inactive = "inactive"

unfoldable pub subscription_status_of_str : String → Option WebhookSubscriptionStatus
subscription_status_of_str value =
    if str_eq value "active"
    then some WebhookSubscriptionStatus.active
    else if str_eq value "inactive"
    then some WebhookSubscriptionStatus.inactive
    else none

unfoldable pub direction_str : Direction → String
direction_str Direction.outbound = "outbound"
direction_str Direction.inbound = "inbound"

unfoldable pub direction_of_str : String → Option Direction
direction_of_str value =
    if str_eq value "outbound"
    then some Direction.outbound
    else if str_eq value "inbound"
    then some Direction.inbound
    else none

unfoldable pub job_kind_str : JobKind → String
job_kind_str JobKind.transmit = "transmit"
job_kind_str JobKind.poll_status = "poll_status"

unfoldable pub job_kind_of_str : String → Option JobKind
job_kind_of_str value =
    if str_eq value "transmit"
    then some JobKind.transmit
    else if str_eq value "poll_status"
    then some JobKind.poll_status
    else none

unfoldable pub job_status_str : JobStatus → String
job_status_str JobStatus.queued = "queued"
job_status_str JobStatus.running = "running"
job_status_str JobStatus.done = "done"
job_status_str JobStatus.dead = "dead"

unfoldable pub job_status_of_str : String → Option JobStatus
job_status_of_str value =
    if str_eq value "queued"
    then some JobStatus.queued
    else if str_eq value "running"
    then some JobStatus.running
    else if str_eq value "done"
    then some JobStatus.done
    else if str_eq value "dead"
    then some JobStatus.dead
    else none
