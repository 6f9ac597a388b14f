-- ===== src/Store/Transitions.antt =====
-- core-domain/src/testing.rs, `apply_transition`.
use dian_service.Base.{
  ℕ, suc, Bool, true, false, ◌&&◌, ◌||◌, not, List, [], ◌∷◌, ◌++◌, Option, none, some, String,
  lookup, insert, adjust, keep, map, ◌==◌, ℕ_eq, string_eq, if◌then◌else◌,
}
use dian_service.Domain.Enums.{DocumentStatus, JobStatus, active, subscription_status_eq}
use dian_service.Domain.EnumText.{document_type_str}
use dian_service.Domain.Errors.{Result, ok, err, Message, not_found, document_id}
use dian_service.Domain.Json.{Json}
use dian_service.Domain.Lifecycle.{can_transition_to}
use dian_service.Domain.Models.{Document, DianEvent, NewJob, Webhook}
use dian_service.Domain.Notify.{event_for, notification_data, event_all, max_delivery_attempts}
use dian_service.Domain.Ports.{Transition, JobOutcome, complete, bury}
use dian_service.Store.State.{State, StoredJob, StoredDelivery, insert_job, change_job, ◌>>◌}

abbrev pub listens : ℕ → String → Webhook → Bool
listens tenant_id event_type w =
    w.tenant_id == tenant_id
    && w.subscription_status == active
    && (w.event_type == event_type || w.event_type == event_all)

module _ {V : Type 0} where
  abbrev pub done_job : StoredJob V → StoredJob V
  done_job j = record j { status = JobStatus.done }

  abbrev pub dead_job : Message → StoredJob V → StoredJob V
  dead_job error j = record j { status = JobStatus.dead; last_error = some error }

  abbrev pub new_delivery : ℕ → ℕ → ℕ → ℕ → String → V → StoredDelivery V
  new_delivery id now webhook document event_type details = record {
    id = id;
    webhook_id = webhook;
    document_id = document;
    event_type = event_type;
    details = details;
    status = "queued";
    attempts = 0;
    max_attempts = max_delivery_attempts;
    run_at = now;
    locked_until = none;
    last_error = none;
    last_status_code = none;
    created_at = now;
  }

  -- One delivery for each target; `fresh i` is the `i`-th fresh id.
  unfoldable pub enqueue_deliveries : (ℕ → ℕ) → ℕ → ℕ → ℕ → String → V → List ℕ → State V → State V
  enqueue_deliveries fresh i now document event_type details [] s = s
  enqueue_deliveries fresh i now document event_type details (w ∷ ws) s =
      enqueue_deliveries fresh (suc i) now document event_type details ws (record s {
        deliveries =
            insert (fresh i) (new_delivery (fresh i) now w document event_type details)
              s.deliveries;
      })

  unfoldable pub set_status : ℕ → DocumentStatus → State V → State V
  set_status id to s = record s {
    documents = adjust id (λ d. record d { status = to }) s.documents;
  }

  unfoldable pub push_event : Option DianEvent → State V → State V
  push_event none s = s
  push_event (some e) s = record s { events = s.events ++ e ∷ [] }

  unfoldable pub close_job : Option JobOutcome → State V → Result (Unit {0}) × State V
  close_job none s = (ok tt, s)
  close_job (some (complete id)) s = change_job id done_job s
  close_job (some (bury id error)) s = change_job id (dead_job error) s

  unfoldable pub enqueue_follow_up : Option (NewJob V) → State V → Result (Unit {0}) × State V
  enqueue_follow_up none s = (ok tt, s)
  enqueue_follow_up (some j) s = insert_job j s

  -- The job of the transition and its follow-up, once the status has changed.
  unfoldable pub finish : Transition V → State V → Result Bool × State V
  finish t = do close_job t.job; enqueue_follow_up t.follow_up; λ u. (ok true, u)

module _ {V : Type 0} (J : Json V) where
  -- The notifications of a change to `to`; `d` is the document as it was before.
  unfoldable pub notify : (ℕ → ℕ) → ℕ → Document V → DocumentStatus → State V → State V
  notify fresh now d to s = elim (event_for to) [
    | none ↦ s
    | some event_type ↦
        enqueue_deliveries fresh 0 now d.id event_type
          (notification_data J (record {
            document_id = d.id;
            document_type = document_type_str d.document_type;
            prefix = d.prefix;
            number = d.document_number;
            status = to;
            cufe = some d.cufe_cude;
          }))
          (map (λ w. w.id) (keep (listens d.tenant_id event_type) s.webhooks)) s
  ]

  unfoldable pub apply_transition : (ℕ → ℕ) → ℕ → Transition V → State V → Result Bool × State V
  apply_transition fresh now t s = elim (lookup t.document_id s.documents) [
    | none ↦ (err (not_found (document_id t.document_id)), s)
    | some d ↦
        if not (can_transition_to d.status t.to)
        then (ok false, s)
        else finish t
            (push_event t.event (notify fresh now d t.to (set_status t.document_id t.to s)))
  ]
