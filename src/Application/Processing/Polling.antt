-- ===== src/Application/Processing/Polling.antt =====
-- application/src/processing.rs: `poll`, `process` and `requeue_contingency`.
use dian_service.Base.{ℕ, not, String, ◌==◌, string_eq, if◌then◌else◌}
use dian_service.Base.Int.{ℤ}
use dian_service.Domain.Enums.{
  EventStatus, JobKind, sent_dian, dian_accepted, dian_rejected, document_status_eq,
}
use dian_service.Domain.Errors.{Result, Message, fixed, shown, dian_reports, polling_exhausted}
use dian_service.Domain.Jobs.{is_last_attempt, zip_key}
use dian_service.Domain.Json.{Json}
use dian_service.Domain.Models.{Document, Job}
use dian_service.Domain.Ports.{DianResponse}
use dian_service.Store.Documents.{record_event}
use dian_service.Store.Queue.{
  complete as complete_job, bury as bury_job, requeue_contingency as requeue_store,
}
use dian_service.Application.Engine.{Engine}
use dian_service.Application.World.{
  Outside, Action, case_option, case_result, ◌>>=◌, ◌>>◌, and_then, port, remote,
}
use dian_service.Application.Processing.{
  ProcessorConfig, is_accepted, rejected_code, is_habilitacion, event,
}
use dian_service.Application.Processing.Transmission.{
  may_execute, report_success, report_failure, release_for, with_document, retry_later, conclude,
  transmit,
}

module _ {V : Type 0} (J : Json V) (O : Outside V) (c : ProcessorConfig) where
  unfoldable pub poll_exhausted : Job V → Document V → Message → Action V (Result (Unit {0}))
  poll_exhausted job d reason = do
    e ← event J O c d.id EventStatus.error "POLLING_EXHAUSTED" reason
    and_then (port O (λ _. record_event e)) (λ _. port O (λ _. bury_job job.id reason))

  -- No final answer: the job is buried on its last attempt, and tried again before.
  unfoldable pub poll_again : Job V → Document V → Message → Action V (Result (Unit {0}))
  poll_again job d outcome =
      if is_last_attempt job
      then poll_exhausted job d (polling_exhausted job.attempts outcome)
      else retry_later J O c job outcome

  unfoldable pub poll_answered : Job V → Document V → DianResponse → Action V (Result (Unit {0}))
  poll_answered job d response = do
    report_success O (is_habilitacion J d)
    (if is_accepted response.status_code
        then conclude J O c job d dian_accepted EventStatus.accepted response
        else if response.status_code == rejected_code
        then conclude J O c job d dian_rejected EventStatus.rejected response
        else poll_again job d (dian_reports response.status_code response.message))

  unfoldable pub poll_for : Job V → Document V → String → Action V (Result (Unit {0}))
  poll_for job d key = may_execute O (is_habilitacion J d) >>= λ go.
      if not go.0
      then release_for O job go.1
      else remote O (λ n. O.get_status_zip n d.tenant_id key (is_habilitacion J d)) >>= λ r.
          case_result r (poll_answered job d)
            (λ e. do report_failure O (is_habilitacion J d); poll_again job d (shown e))

  unfoldable pub poll : Job V → Action V (Result (Unit {0}))
  poll job = with_document O job (λ d.
      if not (d.status == sent_dian)
      then port O (λ _. complete_job job.id)
      else case_option (zip_key J job)
          (port O (λ _. bury_job job.id (fixed "poll job without zip_key"))) (poll_for job d))

  unfoldable pub requeue_contingency : ℤ → Action V (Result ℕ)
  requeue_contingency limit =
      port O (λ n. requeue_store J (O.new_id n) (O.utc n) limit c.transmit_max_attempts)

module _ {V Invoice Payroll Support : Type 0} (J : Json V) (E : Engine V Invoice Payroll Support)
    (O : Outside V) (c : ProcessorConfig) where
  unfoldable pub process : Job V → Action V (Result (Unit {0}))
  process job = elim job.kind [
    | JobKind.transmit ↦ transmit J E O c job
    | JobKind.poll_status ↦ poll J O c job
  ]
