-- ===== src/Application/Processing/Endings.antt =====
-- How the processing of a job ends when it succeeds: the last call is a retry, a release or the
-- closing of the job, on every branch. What all of these bring about, the processing brings about.
use dian_service.Base.{
  ℕ, ◌≡◌, refl, true, false, not, arith, none, some, String, inl, inr, List, ◌==◌, string_eq,
}
use dian_service.Domain.Enums.{
  DocumentStatus, EventStatus, pending, sent_dian, dian_accepted, dian_rejected,
  contingency_pending, processing_failed, document_status_eq,
}
use dian_service.Domain.Errors.{DomainError, Message}
use dian_service.Domain.Jobs.{is_last_attempt, zip_key}
use dian_service.Domain.Json.{Json}
use dian_service.Domain.Lifecycle.{can_transition_to}
use dian_service.Domain.Models.{Document, DianEvent, Job, NewJob}
use dian_service.Domain.Ports.{
  Transition, DianResponse, JobOutcome, new_transition, with_event, with_job, with_follow_up,
  complete,
}
use dian_service.Store.State.{State}
use dian_service.Store.Documents.{find_document}
use dian_service.Store.Outcome.{Closes}
use dian_service.Store.Queue.{retry, release, complete as complete_job, bury as bury_job}
use dian_service.Application.Engine.{Engine}
use dian_service.Application.World.{World, Outside, port}
use dian_service.Application.World.Logic.{
  Ends, EndsIn-if, EndsIn-option, Ends-if, Ends-option, Ends-result, Ends-sum, Ends-bind,
  Ends-and_then, EndsIn, EndsIn-read,
}
use dian_service.Application.Processing.{
  ProcessorConfig, transition, fail, is_accepted, rejected_code, test_set_id,
}
use dian_service.Application.Processing.Artifacts.{Artifacts}
use dian_service.Application.Processing.Transmission.{
  release_for, with_document, retry_later, transmission_failed, conclude, sent_async, send_async,
  answered, send_sync, deliver, transmit_signed, transmit_pending, transmit,
}
use dian_service.Application.Processing.Polling.{
  poll_exhausted, poll_again, poll_answered, poll_for, poll,
}

-- Every way to end brings `G` about; `Mine` says which documents the transitions may be of.
pub record Finishes {V : Type 0} (J : Json V) (O : Outside V) (c : ProcessorConfig) (job : Job V)
    (Mine : ℕ → Type 0) (G : State V → Type 0) : Type 0 where
  pub retried : (run_at : ℕ) (m : Message) → Ends G (port O (λ _. retry job.id run_at m))
  pub released : (run_at : ℕ) → Ends G (port O (λ _. release job.id run_at))
  pub moved :
      (t : Transition V)
      → Closes job.id t.job
      → can_transition_to pending t.to ≡ true
      → Mine t.document_id
      → Ends G (transition J O c job t)

module _ {V : Type 0} (J : Json V) (O : Outside V) (c : ProcessorConfig) (job : Job V)
    (Mine : ℕ → Type 0) (G : State V → Type 0) (F : Finishes J O c job Mine G) where
  -- The transitions as the code builds them.
  moved-Ends :
      (id : ℕ) (to : DocumentStatus) (e : DianEvent) (o : JobOutcome)
      → Closes job.id (some o)
      → can_transition_to pending to ≡ true
      → Mine id
      → Ends G (transition J O c job (with_job (with_event (new_transition id to) e) o))
  unfolding with_job with_event new_transition
  moved-Ends id to e o closes allowed mine = F.moved _ closes allowed mine

  sent-Ends :
      (id : ℕ) (e : DianEvent) (j : NewJob V)
      → Mine id
      → Ends G (
          transition J O c job (
            with_follow_up
              (with_job (with_event (new_transition id sent_dian) e) (complete job.id))
              j))
  unfolding with_job with_event new_transition with_follow_up can_transition_to
  sent-Ends id e j mine = F.moved _ (inl refl) refl mine

  fail-Ends : (d : Document V) (reason : Message) → Mine d.id → Ends G (fail J O c job d reason)
  unfolding fail can_transition_to
  fail-Ends d reason mine =
      Ends-bind G _ _ (λ e. moved-Ends d.id processing_failed e _ (inl refl) refl mine)

  release_for-Ends : (cooldown : ℕ) → Ends G (release_for O job cooldown)
  unfolding release_for
  release_for-Ends cooldown = Ends-bind G _ _ (λ now. F.released _)

  retry_later-Ends : (m : Message) → Ends G (retry_later J O c job m)
  unfolding retry_later
  retry_later-Ends m = Ends-bind G _ _ (λ now. Ends-bind G _ _ (λ delay. F.retried _ m))

  transmission_failed-Ends :
      (d : Document V) (error : DomainError)
      → Mine d.id
      → Ends G (transmission_failed J O c job d error)
  unfolding transmission_failed can_transition_to
  transmission_failed-Ends d error mine = Ends-bind G _ _ (λ _. Ends-bind G _ _ (λ e.
      Ends-if G (is_last_attempt job) _ _
        (λ _. moved-Ends d.id contingency_pending e _ (inr (_, refl)) refl mine)
        (λ _. Ends-and_then G _ _ (λ _. retry_later-Ends _))))

  conclude-Ends :
      (d : Document V) (to : DocumentStatus) (status : EventStatus) (r : DianResponse)
      → can_transition_to pending to ≡ true
      → Mine d.id
      → Ends G (conclude J O c job d to status r)
  unfolding conclude
  conclude-Ends d to status r allowed mine =
      Ends-bind G _ _ (λ e. moved-Ends d.id to e _ (inl refl) allowed mine)

  accepted-Ends :
      (d : Document V) (r : DianResponse)
      → Mine d.id
      → Ends G (conclude J O c job d dian_accepted EventStatus.accepted r)
  unfolding can_transition_to
  accepted-Ends d r mine = conclude-Ends d dian_accepted EventStatus.accepted r refl mine

  rejected-Ends :
      (d : Document V) (r : DianResponse)
      → Mine d.id
      → Ends G (conclude J O c job d dian_rejected EventStatus.rejected r)
  unfolding can_transition_to
  rejected-Ends d r mine = conclude-Ends d dian_rejected EventStatus.rejected r refl mine

  sent_async-Ends :
      (d : Document V) (key : String) → Mine d.id → Ends G (sent_async J O c job d key)
  unfolding sent_async
  sent_async-Ends d key mine =
      Ends-bind G _ _
        (λ _. Ends-bind G _ _ (λ now. Ends-bind G _ _ (λ e w. sent-Ends d.id _ _ mine w)))

  answered-Ends : (d : Document V) (r : DianResponse) → Mine d.id → Ends G (answered J O c job d r)
  unfolding answered
  answered-Ends d r mine = Ends-bind G _ _ (λ _.
      Ends-if G (is_accepted r.status_code) _ _ (λ _. accepted-Ends d r mine)
        (λ _. rejected-Ends d r mine))

  send_async-Ends :
      (d : Document V) (test_set : String) (zip : List ℕ)
      → Mine d.id
      → Ends G (send_async J O c job d test_set zip)
  unfolding send_async
  send_async-Ends d test_set zip mine = Ends-bind G _ _ (λ r.
      Ends-result G r _ _ (λ key. sent_async-Ends d key mine)
        (λ e. transmission_failed-Ends d e mine))

  send_sync-Ends : (d : Document V) (zip : List ℕ) → Mine d.id → Ends G (send_sync J O c job d zip)
  unfolding send_sync
  send_sync-Ends d zip mine = Ends-bind G _ _ (λ r.
      Ends-result G r _ _ (λ a. answered-Ends d a mine) (λ e. transmission_failed-Ends d e mine))

  module _ (buries : (m : Message) → Ends G (port O (λ _. bury_job job.id m))) where
    poll_again-Ends : (d : Document V) (outcome : Message) → Ends G (poll_again J O c job d outcome)
    unfolding poll_again poll_exhausted
    poll_again-Ends d outcome =
        Ends-if G (is_last_attempt job) _ _
          (λ _. Ends-bind G _ _ (λ e. Ends-and_then G _ _ (λ _. buries _)))
          (λ _. retry_later-Ends outcome)

    poll_answered-Ends :
        (d : Document V) (r : DianResponse) → Mine d.id → Ends G (poll_answered J O c job d r)
    unfolding poll_answered
    poll_answered-Ends d r mine = Ends-bind G _ _ (λ _.
        Ends-if G (is_accepted r.status_code) _ _ (λ _. accepted-Ends d r mine)
          (λ _.
            Ends-if G (r.status_code == rejected_code) _ _ (λ _. rejected-Ends d r mine)
              (λ _. poll_again-Ends d _)))

    poll_for-Ends : (d : Document V) (key : String) → Mine d.id → Ends G (poll_for J O c job d key)
    unfolding poll_for
    poll_for-Ends d key mine = Ends-bind G _ _ (λ go.
        Ends-if G (not go.0) _ _ (λ _. release_for-Ends go.1)
          (λ _. Ends-bind G _ _ (λ r.
            Ends-result G r _ _ (λ a. poll_answered-Ends d a mine)
              (λ e. Ends-bind G _ _ (λ _. poll_again-Ends d _)))))

    pub poll-Ends :
        Ends G (port O (λ _. complete_job job.id))
        → ((d : Document V) → Mine d.id)
        → Ends G (poll J O c job)
    unfolding poll with_document
    poll-Ends completes mine = Ends-bind G _ _ (λ found. Ends-option G found _ _ (buries _) (λ d.
        Ends-if G (not (d.status == sent_dian)) _ _ (λ _. completes)
          (λ _.
            Ends-option G (zip_key J job) _ _ (buries _) (λ key. poll_for-Ends d key (mine d)))))

module _ {V Invoice Payroll Support : Type 0} (J : Json V) (E : Engine V Invoice Payroll Support)
    (O : Outside V) (c : ProcessorConfig) (job : Job V) (Mine : ℕ → Type 0) (G : State V → Type 0)
    (F : Finishes J O c job Mine G) where
  deliver-Ends : (d : Document V) (a : Artifacts) → Mine d.id → Ends G (deliver J E O c job d a)
  unfolding deliver
  deliver-Ends d a mine =
      Ends-sum G _ _ _ (λ _. fail-Ends J O c job Mine G F d _ mine)
        (λ zip.
          Ends-option G (test_set_id J d) _ _ (send_sync-Ends J O c job Mine G F d zip mine)
            (λ test_set. send_async-Ends J O c job Mine G F d test_set zip mine))

  transmit_signed-Ends :
      (d : Document V) (a : Artifacts) → Mine d.id → Ends G (transmit_signed J E O c job d a)
  unfolding transmit_signed
  transmit_signed-Ends d a mine = Ends-bind G _ _ (λ before.
      Ends-option G before _ _ (deliver-Ends d a mine)
        (λ status. Ends-bind G _ _ (λ _. accepted-Ends J O c job Mine G F d status mine)))

  transmit_pending-Ends : (d : Document V) → Mine d.id → Ends G (transmit_pending J E O c job d)
  unfolding transmit_pending
  transmit_pending-Ends d mine = Ends-bind G _ _ (λ go.
      Ends-if G (not go.0) _ _ (λ _. release_for-Ends J O c job Mine G F go.1)
        (λ _. Ends-bind G _ _ (λ signed.
          Ends-sum G signed _ _ (λ reason. fail-Ends J O c job Mine G F d reason mine)
            (λ a. transmit_signed-Ends d a mine))))

  -- Given that nothing is to be done where the document is missing or not pending.
  pub transmit-EndsIn :
      (v : World V) (b : Unit {0})
      → ((w : World V) (m : Message)
          → w.store ≡ O.others v.calls v.store
          → find_document w.store job.document_id ≡ none
          → EndsIn G w b (port O (λ _. bury_job job.id m)))
      → ((w : World V) (d : Document V)
          → w.store ≡ O.others v.calls v.store
          → find_document w.store job.document_id ≡ some d
          → (d.status == pending) ≡ false
          → EndsIn G w b (port O (λ _. complete_job job.id)))
      → ((d : Document V)
          → find_document (O.others v.calls v.store) job.document_id ≡ some d
          → Mine d.id)
      → EndsIn G v b (transmit J E O c job)
  unfolding transmit with_document
  transmit-EndsIn v b gone moved_on mine = EndsIn-read G O v b _ _ (λ w same.
      EndsIn-option G w b (find_document w.store job.document_id) _ _ (gone w _ same) (λ d found.
        EndsIn-if G w b (not (d.status == pending)) _ _
          (λ other. moved_on w d same found (ground (arith, other)))
          (λ _. transmit_pending-Ends d (mine d (rw same at found)) w b)))
