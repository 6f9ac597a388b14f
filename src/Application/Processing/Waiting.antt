-- ===== src/Application/Processing/Waiting.antt =====
-- No document is forgotten: while it waits for transmission its job is in the queue.
use dian_service.Base.{
  ℕ, ◌≡◌, refl, sym, ap, ◌∙◌, inl, inr, true, false, none, some, arith, lookup, lookup-adjust,
  Keyed, lookup-Keyed, Option-cases, ◌==◌,
}
use dian_service.Domain.Enums.{DocumentStatus, pending, queued, document_status_eq}
use dian_service.Domain.Errors.{ok, err}
use dian_service.Domain.Json.{Json}
use dian_service.Domain.Lifecycle.{can_transition_to}
use dian_service.Domain.Models.{Document, Job}
use dian_service.Domain.Ports.{Transition}
use dian_service.Store.State.{State, StoredJob, change_job}
use dian_service.Store.Documents.{find_document}
use dian_service.Store.Frame.{change_job-SameDocuments}
use dian_service.Store.Outcome.{Applied, Refused}
use dian_service.Store.Queue.{retry, release, complete, bury}
use dian_service.Application.Engine.{Engine}
use dian_service.Application.World.{World, Outside, port}
use dian_service.Application.World.Logic.{EndsIn, Ends-port}
use dian_service.Application.Processing.{ProcessorConfig}
use dian_service.Application.Processing.Transmission.{transmit}
use dian_service.Application.Processing.Endings.{Finishes, transmit-EndsIn}
use dian_service.Application.Processing.Outcomes.{transition-Ends}

module _ {V : Type 0} where
  pub record Queued (id : ℕ) (s : State V) : Type 0 where
    pub job : StoredJob V
    pub there : lookup id s.jobs ≡ some job
    pub waits : job.status ≡ queued

  -- If the document is pending, the job is in the queue.
  abbrev pub NotForgotten : ℕ → ℕ → State V → Type 0
  NotForgotten document id s =
      (d : Document V) → lookup document s.documents ≡ some d → d.status ≡ pending → Queued id s

  change_job-Queued :
      (id : ℕ) (f : StoredJob V → StoredJob V) (s : State V) (a : Unit {0})
      → ((j : StoredJob V) → (f j).status ≡ queued)
      → (change_job id f s).0 ≡ ok a
      → Queued id (change_job id f s).1
  unfolding change_job
  change_job-Queued id f s a waits h = elim (Option-cases (lookup id s.jobs)) [
    | inl e ↦ absurd (clash (rw (e, change_job) at h))
    | inr (j, e) ↦
        rw (e, change_job)
          (record {
            job = f j;
            there = ground (arith, lookup-adjust id id f s.jobs, e);
            waits = waits j;
          })
  ]
    where
      clash : {x : _} → (err x ≡ ok a) → ⊥
      clash e = cc

module _ {V : Type 0} (J : Json V) (O : Outside V) (c : ProcessorConfig) (job : Job V)
    (alone : (n : ℕ) (s : State V)
      → lookup job.document_id (O.others n s).documents ≡ lookup job.document_id s.documents) where
  Goal : State V → Type 0
  Goal = NotForgotten job.document_id job.id

  abbrev Own : ℕ → Type 0
  Own id = id ≡ job.document_id

  -- The document of the job is not pending, now and after any change of the job.
  close-EndsIn :
      (f : StoredJob V → StoredJob V) (w : World V) (b : Unit {0})
      → ((d : Document V)
          → lookup job.document_id w.store.documents ≡ some d
          → d.status ≡ pending
          → ⊥)
      → EndsIn Goal w b (port O (λ _. change_job job.id f))
  unfolding Goal port
  close-EndsIn f w b away h d e p =
      absurd (away d (sym (alone w.calls w.store) ∙ (ap (lookup job.document_id) (sym same) ∙ e)) p)
    where
      same :
          (change_job job.id f (O.others w.calls w.store)).1.documents
          ≡ (O.others w.calls w.store).documents
      same = (change_job-SameDocuments job.id f (O.others w.calls w.store)).documents

  allowed_elsewhere : {to : DocumentStatus} → can_transition_to pending to ≡ true → to ≡ pending → ⊥
  unfolding can_transition_to
  allowed_elsewhere h e = ground (arith, h, e)

  module _ (t : Transition V) (allowed : can_transition_to pending t.to ≡ true)
      (mine : t.document_id ≡ job.document_id) (fresh : ℕ → ℕ) (now : ℕ) where
    -- After the transition the document has the new status.
    Applied-away :
        (s u : State V)
        → Applied J fresh now t s u
        → (d : Document V) → lookup job.document_id u.documents ≡ some d
        → d.status ≡ pending
        → ⊥
    Applied-away s u h d e p = allowed_elsewhere allowed (moved (rw mine e))
      where
        moved : lookup t.document_id u.documents ≡ some d → t.to ≡ pending
        moved e = let h' = h.moved_to in cc

    -- A document that refused it was not pending.
    Refused-away :
        (s u : State V)
        → Refused J fresh now t s u
        → (d : Document V) → lookup job.document_id u.documents ≡ some d
        → d.status ≡ pending
        → ⊥
    Refused-away s u h d e p = clash (rw mine (rw h.unchanged at e))
      where
        clash : lookup t.document_id s.documents ≡ some d → ⊥
        clash e = let f = h.found in let r = h.refused in cc

  Own-Finishes : Finishes J O c job Own Goal
  unfolding Goal retry release complete
  Own-Finishes = record {
    retried = λ run_at m.
        Ends-port Goal O _ (λ n s a h d e p. change_job-Queued job.id _ s a (λ j. refl) h);
    released = λ run_at.
        Ends-port Goal O _ (λ n s a h d e p. change_job-Queued job.id _ s a (λ j. refl) h);
    moved = λ t closes allowed mine.
        transition-Ends J O c job Goal t
          (λ fresh now s u h d e p. absurd (Applied-away t allowed mine fresh now s u h d e p))
          (λ fresh now s w b h.
            close-EndsIn _ w b (Refused-away t allowed mine fresh now s w.store h));
  }

module _ {V Invoice Payroll Support : Type 0} (J : Json V) (E : Engine V Invoice Payroll Support)
    (O : Outside V) (c : ProcessorConfig) (job : Job V) where
  -- After a transmission that returns `Ok`, the document is no longer pending or its job is in the
  -- queue again: no document waits for ever, if the other tasks leave this one document alone and each
  -- document is stored under its own id.
  pub transmit-NotForgotten :
      (w : World V)
      → ((n : ℕ) (s : State V)
          → lookup job.document_id (O.others n s).documents ≡ lookup job.document_id s.documents)
      → Keyed (λ d. d.id) w.store.documents
      → (transmit J E O c job w).0 ≡ ok tt
      → NotForgotten job.document_id job.id (transmit J E O c job w).1.store
  unfolding Goal complete bury find_document
  transmit-NotForgotten w alone keyed =
      transmit-EndsIn J E O c job (Own J O c job alone) (Goal J O c job alone)
        (Own-Finishes J O c job alone) w tt
        (λ v m same missing. close-EndsIn J O c job alone _ v tt (λ d e p. clash (sym missing ∙ e)))
        (λ v d same found other.
          close-EndsIn J O c job alone _ v tt (λ x e p. not_pending d x (sym found ∙ e) other p))
        (λ d found.
          lookup-Keyed (λ d. d.id) job.document_id d w.store.documents keyed
            (rw (alone w.calls w.store) at found))
    where
      clash : {A : Type 0} {a : A} → none ≡ some a → ⊥
      clash e = cc

      not_pending :
          (d x : Document V)
          → some d ≡ some x
          → (d.status == pending) ≡ false
          → x.status ≡ pending
          → ⊥
      not_pending d x e other p =
          let same : d ≡ x = cc in let yes_no : true ≡ false = rw (same, p) at other in cc
