-- ===== src/Application/Processing/Transmission.antt =====
-- application/src/processing.rs: `transmit` and `transmission_failed`. What `attached_document` signs
-- is only logged, so its call is left out.
use dian_service.Base.{
  ℕ, ◌+◌, Bool, true, false, ◌&&◌, not, List, Option, none, some, String, ◌==◌, if◌then◌else◌, ltb,
}
use dian_service.Domain.Enums.{
  DocumentStatus, EventStatus, pending, dian_accepted, dian_rejected, sent_dian,
  contingency_pending, document_status_eq,
}
use dian_service.Domain.Errors.{Result, DomainError, Message, fixed, shown, compression_failed}
use dian_service.Domain.Jobs.{is_last_attempt, new_poll_status}
use dian_service.Domain.Json.{Json}
use dian_service.Domain.Models.{Document, Job}
use dian_service.Domain.Ports.{
  DianResponse, new_transition, with_event, with_job, with_follow_up, complete, bury,
}
use dian_service.Store.Documents.{find_document, record_event}
use dian_service.Store.Queue.{complete as complete_job, bury as bury_job, retry, release}
use dian_service.Application.Resilience.{can_execute, record_success, record_failure}
use dian_service.Application.Engine.{Engine}
use dian_service.Application.World.{
  Outside, Action, give, case_option, case_result, case_sum, ◌>>=◌, ◌>>◌, and_then, port,
  on_breaker, remote, send, utc_now,
}
use dian_service.Application.Processing.{
  ProcessorConfig, is_accepted, span, test_set_id, is_habilitacion, retry_delay, transition, event,
  event_of, fail,
}
use dian_service.Application.Processing.Artifacts.{Artifacts, artifacts}

abbrev pub is_none : Option String → Bool
is_none none = true
is_none (some x) = false

module _ {V : Type 0} (O : Outside V) where
  -- `can_execute`, with the breaker's cooldown.
  unfoldable pub may_execute : Bool → Action V (Bool × ℕ)
  may_execute is_hab =
      on_breaker O is_hab (λ now b. let (go, c) = can_execute now b in ((go, b.cooldown), c))

  unfoldable pub report_success : Bool → Action V (Unit {0})
  report_success is_hab = on_breaker O is_hab (λ now b. (tt, record_success b))

  unfoldable pub report_failure : Bool → Action V (Unit {0})
  report_failure is_hab = on_breaker O is_hab (λ now b. (tt, record_failure now b))

  -- Back to the queue until the breaker may let a request through.
  unfoldable pub release_for : Job V → ℕ → Action V (Result (Unit {0}))
  release_for job cooldown =
      utc_now O >>= λ now. port O (λ _. release job.id (now + span cooldown 0))

  -- `find_document(job.document_id)`; a job without a document is buried.
  unfoldable pub with_document :
      Job V → (Document V → Action V (Result (Unit {0}))) → Action V (Result (Unit {0}))
  with_document job rest = port O (λ _ s. (find_document s job.document_id, s)) >>= λ found.
      case_option found (port O (λ _. bury_job job.id (fixed "document not found"))) rest

module _ {V : Type 0} (J : Json V) (O : Outside V) (c : ProcessorConfig) where
  unfoldable pub retry_later : Job V → Message → Action V (Result (Unit {0}))
  retry_later job message = do
    now ← utc_now O
    delay ← retry_delay J O c job.attempts
    port O (λ _. retry job.id (now + delay) message)

  unfoldable pub transmission_failed :
      Job V → Document V → DomainError → Action V (Result (Unit {0}))
  transmission_failed job d error = do
    report_failure O (is_habilitacion J d)
    e ← event J O c d.id EventStatus.error "HTTP_ERROR" (shown error)
    (if is_last_attempt job
        then transition J O c job (
            with_job (with_event (new_transition d.id contingency_pending) e)
              (bury job.id (shown error)))
        else and_then (port O (λ _. record_event e)) (λ _. retry_later job (shown error)))

  -- The document ends as the DIAN says.
  unfoldable pub conclude :
      Job V
      → Document V
      → DocumentStatus
      → EventStatus
      → DianResponse
      → Action V (Result (Unit {0}))
  conclude job d to status response = do
    e ← event_of J O c d.id status response
    transition J O c job (with_job (with_event (new_transition d.id to) e) (complete job.id))

  unfoldable pub sent_async : Job V → Document V → String → Action V (Result (Unit {0}))
  sent_async job d key = do
    report_success O (is_habilitacion J d)
    now ← utc_now O
    e ←
        event J O c d.id EventStatus.sent "SENT_ASYNC"
          (fixed "Enviado asincronamente para habilitacion")
    λ w.
        transition J O c job
          (with_follow_up
            (with_job
              (with_event (new_transition d.id sent_dian) (record e { soap_trace_id = some key }))
              (complete job.id))
            (new_poll_status J (O.new_id w.calls 1) d.id key c.poll_max_attempts
              (now + span c.poll_initial_delay 0)))
          w

  unfoldable pub send_async : Job V → Document V → String → List ℕ → Action V (Result (Unit {0}))
  send_async job d test_set zip =
      send O zip (λ n. O.send_test_set_async n d.tenant_id zip test_set (is_habilitacion J d))
      >>= λ r. case_result r (sent_async job d) (transmission_failed job d)

  unfoldable pub answered : Job V → Document V → DianResponse → Action V (Result (Unit {0}))
  answered job d response = do
    report_success O (is_habilitacion J d)
    (if is_accepted response.status_code
        then conclude job d dian_accepted EventStatus.accepted response
        else conclude job d dian_rejected EventStatus.rejected response)

  unfoldable pub send_sync : Job V → Document V → List ℕ → Action V (Result (Unit {0}))
  send_sync job d zip =
      send O zip (λ n. O.send_bill_sync n d.tenant_id zip (is_habilitacion J d)) >>= λ r.
      case_result r (answered job d) (transmission_failed job d)

  -- Whether an earlier attempt reached the DIAN: `Some` of its answer if it accepted the document.
  unfoldable pub accepted_before : Job V → Document V → String → Action V (Option DianResponse)
  accepted_before job d cufe =
      if ltb 1 job.attempts && is_none (test_set_id J d)
      then (remote O (λ n. O.get_status n d.tenant_id cufe (is_habilitacion J d)) >>= λ r.
          case_result r
            (λ status. give (if is_accepted status.status_code then some status else none))
            (λ e. give none))
      else give none

module _ {V Invoice Payroll Support : Type 0} (J : Json V) (E : Engine V Invoice Payroll Support)
    (O : Outside V) (c : ProcessorConfig) where
  unfoldable pub deliver : Job V → Document V → Artifacts → Action V (Result (Unit {0}))
  deliver job d a =
      case_sum (E.compress_xml_to_zip a.signed_xml a.issuer_nit d.prefix d.document_number)
        (λ e. fail J O c job d (compression_failed e))
        (λ zip.
          case_option (test_set_id J d) (send_sync J O c job d zip)
            (λ test_set. send_async J O c job d test_set zip))

  unfoldable pub transmit_signed : Job V → Document V → Artifacts → Action V (Result (Unit {0}))
  transmit_signed job d a = accepted_before J O c job d a.cufe >>= λ before.
      case_option before (deliver job d a) (λ status. do
        report_success O (is_habilitacion J d)
        conclude J O c job d dian_accepted EventStatus.accepted status)

  unfoldable pub transmit_pending : Job V → Document V → Action V (Result (Unit {0}))
  transmit_pending job d = may_execute O (is_habilitacion J d) >>= λ go.
      if not go.0
      then release_for O job go.1
      else artifacts J E O d >>= λ signed.
          case_sum signed (fail J O c job d) (transmit_signed job d)

  unfoldable pub transmit : Job V → Action V (Result (Unit {0}))
  transmit job = with_document O job (λ d.
      if not (d.status == pending)
      then port O (λ _. complete_job job.id)
      else transmit_pending job d)
