-- ===== src/Store/Frame.antt =====
-- What the parts of the store's operations leave as it was.
use dian_service.Base.{
  ℕ, suc, ◌≡◌, refl, ◌∙◌, List, [], ◌∷◌, Option, none, some, String, arith, inl, inr, Option-cases,
}
use dian_service.Domain.Enums.{DocumentStatus}
use dian_service.Domain.Json.{Json}
use dian_service.Domain.Notify.{event_for}
use dian_service.Domain.Models.{Document, DianEvent, NewJob}
use dian_service.Domain.Ports.{JobOutcome, complete, bury}
use dian_service.Store.State.{State, StoredJob, insert_job, change_job}
use dian_service.Store.Transitions.{
  enqueue_deliveries, push_event, close_job, enqueue_follow_up, notify,
}

module _ {V : Type 0} where
  -- The same documents, ranges and used keys: what jobs and notifications never touch.
  pub record SameDocuments (s t : State V) : Type 0 where
    pub documents : t.documents ≡ s.documents
    pub ranges : t.ranges ≡ s.ranges
    pub idempotency : t.idempotency ≡ s.idempotency

  pub SameDocuments-trans :
      {s t u : State V} → SameDocuments s t → SameDocuments t u → SameDocuments s u
  SameDocuments-trans h k = record {
    documents = k.documents ∙ h.documents;
    ranges = k.ranges ∙ h.ranges;
    idempotency = k.idempotency ∙ h.idempotency;
  }

  pub insert_job-SameDocuments : (j : NewJob V) (s : State V) → SameDocuments s (insert_job j s).1
  unfolding insert_job
  insert_job-SameDocuments j s = ground arith

  pub change_job-SameDocuments :
      (id : ℕ) (f : StoredJob V → StoredJob V) (s : State V) → SameDocuments s (change_job id f s).1
  unfolding change_job
  change_job-SameDocuments id f s = ground arith

  pub close_job-SameDocuments :
      (o : Option JobOutcome) (s : State V) → SameDocuments s (close_job o s).1
  unfolding close_job
  close_job-SameDocuments none s = record { documents = refl; ranges = refl; idempotency = refl }
  close_job-SameDocuments (some (complete id)) s = change_job-SameDocuments id _ s
  close_job-SameDocuments (some (bury id error)) s = change_job-SameDocuments id _ s

  pub enqueue_follow_up-SameDocuments :
      (o : Option (NewJob V)) (s : State V) → SameDocuments s (enqueue_follow_up o s).1
  unfolding enqueue_follow_up
  enqueue_follow_up-SameDocuments none s = record {
    documents = refl;
    ranges = refl;
    idempotency = refl;
  }
  enqueue_follow_up-SameDocuments (some j) s = insert_job-SameDocuments j s

  pub push_event-SameDocuments :
      (o : Option DianEvent) (s : State V) → SameDocuments s (push_event o s)
  unfolding push_event
  push_event-SameDocuments none s = record { documents = refl; ranges = refl; idempotency = refl }
  push_event-SameDocuments (some e) s = record {
    documents = refl;
    ranges = refl;
    idempotency = refl;
  }

  -- Deliveries are all that a notification adds.
  pub record SameButDeliveries (s t : State V) : Type 0 where
    pub documents : t.documents ≡ s.documents
    pub ranges : t.ranges ≡ s.ranges
    pub idempotency : t.idempotency ≡ s.idempotency
    pub jobs : t.jobs ≡ s.jobs
    pub events : t.events ≡ s.events
    pub webhooks : t.webhooks ≡ s.webhooks

  pub enqueue_deliveries-SameButDeliveries :
      (fresh : ℕ → ℕ) (i now document : ℕ) (event_type : String) (details : V) (ws : List ℕ)
      (s : State V)
      → SameButDeliveries s (enqueue_deliveries fresh i now document event_type details ws s)
  unfolding enqueue_deliveries
  enqueue_deliveries-SameButDeliveries fresh i now document event_type details [] s = ground arith
  enqueue_deliveries-SameButDeliveries fresh i now document event_type details (w ∷ ws) s =
      let h =
        enqueue_deliveries-SameButDeliveries fresh (suc i) now document event_type details ws _ in
      record {
        documents = h.documents;
        ranges = h.ranges;
        idempotency = h.idempotency;
        jobs = h.jobs;
        events = h.events;
        webhooks = h.webhooks;
      }

module _ {V : Type 0} (J : Json V) where
  pub notify-SameButDeliveries :
      (fresh : ℕ → ℕ) (now : ℕ) (d : Document V) (to : DocumentStatus) (s : State V)
      → SameButDeliveries s (notify J fresh now d to s)
  unfolding notify
  notify-SameButDeliveries fresh now d to s = elim (Option-cases (event_for to)) [
    | inl e ↦ rw (e, notify) (ground arith)
    | inr (x, e) ↦ rw (e, notify) (enqueue_deliveries-SameButDeliveries fresh 0 now d.id x _ _ s)
  ]
