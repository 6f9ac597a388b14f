-- ===== src/Application/Processing/Frames.antt =====
-- What the processing of a job may change: a relation between stores that every call it makes
-- respects is respected by the whole processing, on all of its branches and with other tasks at work.
use dian_service.Base.{ℕ, Bool, String, ◌⊎◌, List, ltb, ◌==◌, ◌&&◌, string_eq, not}
use dian_service.Domain.Enums.{
  DocumentStatus, DocumentType, EventStatus, JobKind, sent_dian, pending, document_status_eq,
  invoice, credit_note, debit_note, payroll, support_document,
}
use dian_service.Domain.Errors.{Result, DomainError, Message}
use dian_service.Domain.Jobs.{is_last_attempt, zip_key}
use dian_service.Domain.Json.{Json}
use dian_service.Domain.Models.{Document, DianEvent, Job}
use dian_service.Domain.Ports.{Transition, DianResponse}
use dian_service.Store.State.{State, StoredJob, change_job}
use dian_service.Store.Documents.{store_artifacts, record_event}
use dian_service.Store.Transitions.{apply_transition}
use dian_service.Store.Queue.{complete, bury, retry, release}
use dian_service.Application.Engine.{Engine}
use dian_service.Application.World.{Outside, Action, port}
use dian_service.Application.World.Logic.{
  IsFrame, Respects, Respects-if, Respects-option, Respects-result, Respects-sum, Respects-give,
  Respects-bind, Respects-and_then, Respects-port, Respects-on_breaker, Respects-remote,
  Respects-send, Respects-utc_now,
}
use dian_service.Application.Processing.{
  ProcessorConfig, transition, fail, retry_delay, event, event_of, is_accepted, test_set_id,
  rejected_code,
}
use dian_service.Application.Processing.Artifacts.{
  Artifacts, artifacts, generate, generate_as, technical_key, sign_new, store_signed, or_reason,
  already_signed,
}
use dian_service.Application.Processing.Transmission.{
  may_execute, report_success, report_failure, release_for, with_document, retry_later, is_none,
  transmission_failed, conclude, sent_async, send_async, answered, send_sync, accepted_before,
  deliver, transmit_signed, transmit_pending, transmit,
}
use dian_service.Application.Processing.Polling.{
  poll_exhausted, poll_again, poll_answered, poll_for, poll, process,
}

-- The calls that processing the job `id` makes, and the other tasks, respect the relation.
pub record Allows {V : Type 0} (J : Json V) (O : Outside V) (id : ℕ)
    (P : State V → State V → Type 0) : Type 0 where
  pub frame : IsFrame P
  pub others : (n : ℕ) (s : State V) → P s (O.others n s)
  pub moves :
      (fresh : ℕ → ℕ) (now : ℕ) (t : Transition V) (s : State V)
      → P s (apply_transition J fresh now t s).1
  pub signs :
      (document : ℕ) (cufe original_xml signed_xml : String) (s : State V)
      → P s (store_artifacts document cufe original_xml signed_xml s).1
  pub logs : (e : DianEvent) (s : State V) → P s (record_event e s).1
  pub changes : (f : StoredJob V → StoredJob V) (s : State V) → P s (change_job id f s).1

module _ {V : Type 0} (J : Json V) (O : Outside V) (c : ProcessorConfig) (job : Job V)
    (P : State V → State V → Type 0) (L : Allows J O job.id P) where
  complete-Respects : Respects P (port O (λ _. complete job.id))
  unfolding complete
  complete-Respects = Respects-port P L.frame O _ L.others (λ _ s. L.changes _ s)

  bury-Respects : (m : Message) → Respects P (port O (λ _. bury job.id m))
  unfolding bury
  bury-Respects m = Respects-port P L.frame O _ L.others (λ _ s. L.changes _ s)

  record_event-Respects : (e : DianEvent) → Respects P (port O (λ _. record_event e))
  record_event-Respects e = Respects-port P L.frame O _ L.others (λ _ s. L.logs e s)

  transition-Respects : (t : Transition V) → Respects P (transition J O c job t)
  unfolding transition
  transition-Respects t =
      Respects-and_then P L.frame _ _
        (Respects-port P L.frame O _ L.others (λ n s. L.moves _ _ t s))
        (λ moved. Respects-if P L.frame moved _ _ (Respects-give P L.frame _) complete-Respects)

  event-Respects :
      (document : ℕ) (status : EventStatus) (code : String) (message : Message)
      → Respects P (event J O c document status code message)
  unfolding event
  event-Respects document status code message w = L.frame.same w.store

  event_of-Respects :
      (document : ℕ) (status : EventStatus) (r : DianResponse)
      → Respects P (event_of J O c document status r)
  unfolding event_of
  event_of-Respects document status r w = L.frame.same w.store

  fail-Respects : (d : Document V) (reason : Message) → Respects P (fail J O c job d reason)
  unfolding fail
  fail-Respects d reason =
      Respects-bind P L.frame _ _ (event-Respects _ _ _ _) (λ e. transition-Respects _)

  release_for-Respects : (cooldown : ℕ) → Respects P (release_for O job cooldown)
  unfolding release_for release
  release_for-Respects cooldown =
      Respects-bind P L.frame _ _ (Respects-utc_now P L.frame O)
        (λ now. Respects-port P L.frame O _ L.others (λ _ s. L.changes _ s))

  with_document-Respects :
      (rest : Document V → Action V (Result (Unit {0})))
      → ((d : Document V) → Respects P (rest d))
      → Respects P (with_document O job rest)
  unfolding with_document
  with_document-Respects rest h =
      Respects-bind P L.frame _ _ (Respects-port P L.frame O _ L.others (λ _ s. L.frame.same s))
        (λ found. Respects-option P L.frame found _ _ (bury-Respects _) h)

  retry_later-Respects : (message : Message) → Respects P (retry_later J O c job message)
  unfolding retry_later retry_delay retry
  retry_later-Respects message = Respects-bind P L.frame _ _ (Respects-utc_now P L.frame O) (λ now.
      Respects-bind P L.frame _ _ (Respects-remote P L.frame O _)
        (λ delay. Respects-port P L.frame O _ L.others (λ _ s. L.changes _ s)))

  may_execute-Respects : (is_hab : Bool) → Respects P (may_execute O is_hab)
  unfolding may_execute
  may_execute-Respects is_hab = Respects-on_breaker P L.frame O is_hab _

  report_success-Respects : (is_hab : Bool) → Respects P (report_success O is_hab)
  unfolding report_success
  report_success-Respects is_hab = Respects-on_breaker P L.frame O is_hab _

  report_failure-Respects : (is_hab : Bool) → Respects P (report_failure O is_hab)
  unfolding report_failure
  report_failure-Respects is_hab = Respects-on_breaker P L.frame O is_hab _

  transmission_failed-Respects :
      (d : Document V) (error : DomainError) → Respects P (transmission_failed J O c job d error)
  unfolding transmission_failed
  transmission_failed-Respects d error =
      Respects-bind P L.frame _ _ (report_failure-Respects _) (λ _.
        Respects-bind P L.frame _ _ (event-Respects _ _ _ _) (λ e.
          Respects-if P L.frame (is_last_attempt job) _ _ (transition-Respects _) (
            Respects-and_then P L.frame _ _ (record_event-Respects e)
              (λ _. retry_later-Respects _))))

  conclude-Respects :
      (d : Document V) (to : DocumentStatus) (status : EventStatus) (r : DianResponse)
      → Respects P (conclude J O c job d to status r)
  unfolding conclude
  conclude-Respects d to status r =
      Respects-bind P L.frame _ _ (event_of-Respects _ _ _) (λ e. transition-Respects _)

  sent_async-Respects : (d : Document V) (key : String) → Respects P (sent_async J O c job d key)
  unfolding sent_async
  sent_async-Respects d key = Respects-bind P L.frame _ _ (report_success-Respects _) (λ _.
      Respects-bind P L.frame _ _ (Respects-utc_now P L.frame O) (λ now.
        Respects-bind P L.frame _ _ (event-Respects _ _ _ _) (λ e w. transition-Respects _ w)))

  answered-Respects : (d : Document V) (r : DianResponse) → Respects P (answered J O c job d r)
  unfolding answered
  answered-Respects d r = Respects-bind P L.frame _ _ (report_success-Respects _) (λ _.
      Respects-if P L.frame (is_accepted r.status_code) _ _ (conclude-Respects _ _ _ _)
        (conclude-Respects _ _ _ _))

  send_async-Respects :
      (d : Document V) (test_set : String) (zip : List ℕ)
      → Respects P (send_async J O c job d test_set zip)
  unfolding send_async
  send_async-Respects d test_set zip =
      Respects-bind P L.frame _ _ (Respects-send P L.frame O zip _) (λ r.
        Respects-result P L.frame r _ _ (sent_async-Respects d) (transmission_failed-Respects d))

  send_sync-Respects : (d : Document V) (zip : List ℕ) → Respects P (send_sync J O c job d zip)
  unfolding send_sync
  send_sync-Respects d zip =
      Respects-bind P L.frame _ _ (Respects-send P L.frame O zip _) (λ r.
        Respects-result P L.frame r _ _ (answered-Respects d) (transmission_failed-Respects d))

  accepted_before-Respects :
      (d : Document V) (cufe : String) → Respects P (accepted_before J O c job d cufe)
  unfolding accepted_before
  accepted_before-Respects d cufe =
      Respects-if P L.frame (ltb 1 job.attempts && is_none (test_set_id J d)) _ _
        (Respects-bind P L.frame _ _ (Respects-remote P L.frame O _) (λ r.
          Respects-result P L.frame r _ _ (λ _. Respects-give P L.frame _)
            (λ _. Respects-give P L.frame _)))
        (Respects-give P L.frame _)

  poll_exhausted-Respects :
      (d : Document V) (reason : Message) → Respects P (poll_exhausted J O c job d reason)
  unfolding poll_exhausted
  poll_exhausted-Respects d reason =
      Respects-bind P L.frame _ _ (event-Respects _ _ _ _)
        (λ e. Respects-and_then P L.frame _ _ (record_event-Respects e) (λ _. bury-Respects _))

  poll_again-Respects :
      (d : Document V) (outcome : Message) → Respects P (poll_again J O c job d outcome)
  unfolding poll_again
  poll_again-Respects d outcome =
      Respects-if P L.frame (is_last_attempt job) _ _ (poll_exhausted-Respects d _)
        (retry_later-Respects outcome)

  poll_answered-Respects :
      (d : Document V) (r : DianResponse) → Respects P (poll_answered J O c job d r)
  unfolding poll_answered
  poll_answered-Respects d r = Respects-bind P L.frame _ _ (report_success-Respects _) (λ _.
      Respects-if P L.frame (is_accepted r.status_code) _ _ (conclude-Respects _ _ _ _) (
        Respects-if P L.frame (r.status_code == rejected_code) _ _ (conclude-Respects _ _ _ _)
          (poll_again-Respects d _)))

  poll_for-Respects : (d : Document V) (key : String) → Respects P (poll_for J O c job d key)
  unfolding poll_for
  poll_for-Respects d key = Respects-bind P L.frame _ _ (may_execute-Respects _) (λ go.
      Respects-if P L.frame (not go.0) _ _ (release_for-Respects go.1) (
        Respects-bind P L.frame _ _ (Respects-remote P L.frame O _) (λ r.
          Respects-result P L.frame r _ _ (poll_answered-Respects d) (λ e.
            Respects-bind P L.frame _ _ (report_failure-Respects _)
              (λ _. poll_again-Respects d _)))))

  poll-Respects : Respects P (poll J O c job)
  unfolding poll
  poll-Respects = with_document-Respects _ (λ d.
      Respects-if P L.frame (not (d.status == sent_dian)) _ _ complete-Respects
        (Respects-option P L.frame (zip_key J job) _ _ (bury-Respects _) (poll_for-Respects d)))

module _ {V Invoice Payroll Support : Type 0} (J : Json V) (E : Engine V Invoice Payroll Support)
    (O : Outside V) (c : ProcessorConfig) (job : Job V) (P : State V → State V → Type 0)
    (L : Allows J O job.id P) where
  technical_key-Respects : (d : Document V) (p : Invoice) → Respects P (technical_key J E O d p)
  unfolding technical_key
  technical_key-Respects d p =
      Respects-option P L.frame d.numbering_range_id _ _
        (Respects-option P L.frame (E.technical_key p) _ _ (Respects-give P L.frame _)
          (λ _. Respects-give P L.frame _))
        (λ range_id.
          Respects-bind P L.frame _ _ (Respects-port P L.frame O _ L.others (λ _ s. L.frame.same s))
            (λ found.
              Respects-option P L.frame found _ _ (Respects-give P L.frame _)
                (λ _. Respects-give P L.frame _)))

  or_reason-Respects :
      {A B : Type 0} (x : Message ⊎ A) (f : A → Action V (Message ⊎ B))
      → ((a : A) → Respects P (f a))
      → Respects P (or_reason x f)
  or_reason-Respects x f h = Respects-sum P L.frame x _ _ (λ _. Respects-give P L.frame _) h

  generated-Respects : (t : DocumentType) (d : Document V) → Respects P (generate_as J E O t d)
  unfolding generate_as
  generated-Respects invoice d = or_reason-Respects _ _ (λ p.
      Respects-bind P L.frame _ _ (technical_key-Respects d p)
        (λ key. or_reason-Respects key _ (λ _. Respects-give P L.frame _)))
  generated-Respects credit_note d = Respects-give P L.frame _
  generated-Respects debit_note d = Respects-give P L.frame _
  generated-Respects payroll d = or_reason-Respects _ _ (λ _. Respects-give P L.frame _)
  generated-Respects support_document d = or_reason-Respects _ _ (λ _. Respects-give P L.frame _)

  sign_new-Respects : (d : Document V) (nit : String) → Respects P (sign_new J E O d nit)
  unfolding sign_new store_signed generate
  sign_new-Respects d nit = Respects-bind P L.frame _ _ (generated-Respects d.document_type d) (λ g.
      or_reason-Respects g _ (λ x.
        Respects-bind P L.frame _ _ (Respects-remote P L.frame O _) (λ signed.
          Respects-result P L.frame signed _ _
            (λ signed_xml.
              Respects-bind P L.frame _ _
                (Respects-port P L.frame O _ L.others (λ _ s. L.signs d.id x.1 x.0 signed_xml s))
                (λ stored.
                  Respects-result P L.frame stored _ _ (λ _. Respects-give P L.frame _)
                    (λ _. Respects-give P L.frame _)))
            (λ _. Respects-give P L.frame _))))

  artifacts-Respects : (d : Document V) → Respects P (artifacts J E O d)
  unfolding artifacts
  artifacts-Respects d = or_reason-Respects _ _ (λ nit.
      Respects-option P L.frame (already_signed d) _ _ (sign_new-Respects d nit)
        (λ _. Respects-give P L.frame _))

  deliver-Respects : (d : Document V) (a : Artifacts) → Respects P (deliver J E O c job d a)
  unfolding deliver
  deliver-Respects d a =
      Respects-sum P L.frame _ _ _ (λ _. fail-Respects J O c job P L d _)
        (λ zip.
          Respects-option P L.frame (test_set_id J d) _ _ (send_sync-Respects J O c job P L d zip)
            (λ test_set. send_async-Respects J O c job P L d test_set zip))

  transmit_signed-Respects :
      (d : Document V) (a : Artifacts) → Respects P (transmit_signed J E O c job d a)
  unfolding transmit_signed
  transmit_signed-Respects d a =
      Respects-bind P L.frame _ _ (accepted_before-Respects J O c job P L d a.cufe) (λ before.
        Respects-option P L.frame before _ _ (deliver-Respects d a) (λ status.
          Respects-bind P L.frame _ _ (report_success-Respects J O c job P L _)
            (λ _. conclude-Respects J O c job P L d _ _ status)))

  transmit_pending-Respects : (d : Document V) → Respects P (transmit_pending J E O c job d)
  unfolding transmit_pending
  transmit_pending-Respects d =
      Respects-bind P L.frame _ _ (may_execute-Respects J O c job P L _) (λ go.
        Respects-if P L.frame (not go.0) _ _ (release_for-Respects J O c job P L go.1) (
          Respects-bind P L.frame _ _ (artifacts-Respects d) (λ signed.
            Respects-sum P L.frame signed _ _ (fail-Respects J O c job P L d)
              (transmit_signed-Respects d))))

  transmit-Respects : Respects P (transmit J E O c job)
  unfolding transmit
  transmit-Respects = with_document-Respects J O c job P L _ (λ d.
      Respects-if P L.frame (not (d.status == pending)) _ _ (complete-Respects J O c job P L)
        (transmit_pending-Respects d))

  -- The whole processing of a job respects what its calls respect.
  pub process-Respects : Respects P (process J E O c job)
  unfolding process
  process-Respects = by_kind job.kind
    where
      by_kind :
          (k : JobKind)
          → Respects P (elim k [
            | JobKind.transmit ↦ transmit J E O c job
            | JobKind.poll_status ↦ poll J O c job
          ])
      by_kind JobKind.transmit = transmit-Respects
      by_kind JobKind.poll_status = poll-Respects J O c job P L
