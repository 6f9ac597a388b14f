-- ===== src/Store/History/Documents.antt =====
-- Every operation moves the documents along the diagram and keeps each under its own id.
use dian_service.Base.{
  ℕ, suc, ◌≡◌, refl, inl, inr, Bool-cases, true, List, [], ◌∷◌, some, arith, lookup, adjust,
  lookup-adjust, Keyed, values-Keyed, All, All-keep, All-take, All-map, All-mono, Option-cases,
  nat_eq, ◌==◌,
}
use dian_service.Base.Int.{ℤ}
use dian_service.Domain.Enums.{
  DocumentStatus, JobKind, transmit, poll_status, pending, contingency_pending, document_status_eq,
  document_status_index_iff,
}
use dian_service.Domain.Errors.{Result-cases}
use dian_service.Domain.Json.{Json}
use dian_service.Domain.Lifecycle.Graph.{◌⟶*◌, here, next, requeue}
use dian_service.Domain.Models.{Document, NewJob, AuditEntry}
use dian_service.Domain.Jobs.{new_transmit}
use dian_service.Store.State.{State, StoredJob, insert_job, has_active_job}
use dian_service.Store.Transitions.{set_status}
use dian_service.Store.Queue.{
  contingency_candidates, requeue_all, requeue_contingency, claim_all, claim, start,
}
use dian_service.Store.Deliveries.{claim_each, claim_deliveries, begin_delivery}
use dian_service.Store.Admin.{
  job_applies, status_for, revive, retry_job_of, retry_dead_job, dead_only,
}
use dian_service.Store.Frame.{insert_job-SameDocuments}
use dian_service.Store.Evolution.{with_status, Evolves, Evolves-refl, Evolves-of_eq, Evolves-trans}
use dian_service.Store.Operations.{set_status-Evolves}

held_back :
    {V : Type 0} (d : Document V) → (d.status == contingency_pending) ≡ true → d.status ⟶* pending
held_back d e =
    rw ((document_status_index_iff d.status contingency_pending).0 e) (next here requeue)

revived_status :
    (kind : JobKind) (status : DocumentStatus)
    → job_applies kind status ≡ true
    → status ⟶* status_for kind status
unfolding job_applies
revived_status poll_status status h = here
revived_status transmit pending h = here
revived_status transmit contingency_pending h = next here requeue
revived_status transmit _ h = cc

module _ {V : Type 0} where
  -- A document that may wait for transmission (again).
  abbrev MayWait : State V → ℕ → Type 0
  MayWait s id = (d : Document V) × (lookup id s.documents ≡ some d) × (d.status ⟶* pending)

  candidates-MayWait :
      (limit : ℤ) (s : State V)
      → Keyed (λ d. d.id) s.documents
      → All (MayWait s) (contingency_candidates limit s)
  unfolding contingency_candidates
  candidates-MayWait limit s keyed = All-take (MayWait s) _ _ (
      All-keep _ _ (λ id _ h. h)
        (All-map (MayWait s) (λ d. d.id) _
          (All-keep _ _ (λ d e h. (d, h, held_back d e))
            (values-Keyed (λ d. d.id) s.documents keyed))))

  -- Whoever may wait may wait after another document was sent to wait.
  set_status-MayWait : (s : State V) (id k : ℕ) → MayWait s k → MayWait (set_status id pending s) k
  unfolding set_status
  set_status-MayWait s id k (d, e, w) = elim (Bool-cases (nat_eq id k)) [
    | inl same ↦ (with_status d pending, rw (lookup-adjust id k _ s.documents, same, e), here)
    | inr other ↦ (d, rw (lookup-adjust id k _ s.documents, other) e, w)
  ]

  MayWait-of_eq : (s t : State V) (k : ℕ) → t.documents ≡ s.documents → MayWait s k → MayWait t k
  MayWait-of_eq s t k e h = (h.0, rw e h.1, h.2)

  claim_all-documents :
      (until : ℕ) (ids : List ℕ) (s : State V) → (claim_all until ids s).1.documents ≡ s.documents
  unfolding claim_all
  claim_all-documents until [] s = refl
  claim_all-documents until (id ∷ ids) s =
      ground
        (arith, claim_all-documents until ids (record s { jobs = adjust id (start until) s.jobs }))

  claim_each-documents :
      (until : ℕ) (ids : List ℕ) (s : State V) → (claim_each until ids s).1.documents ≡ s.documents
  unfolding claim_each
  claim_each-documents until [] s = refl
  claim_each-documents until (id ∷ ids) s = ground (
    arith,
    claim_each-documents until ids
        (record s { deliveries = adjust id (begin_delivery until) s.deliveries }),
  )

  pub claim-documents :
      (now : ℕ) (limit : ℤ) (lease : ℕ) (s : State V)
      → (claim now limit lease s).1.documents ≡ s.documents
  unfolding claim
  claim-documents now limit lease s = claim_all-documents _ _ s

  pub claim_deliveries-documents :
      (now : ℕ) (limit : ℤ) (lease : ℕ) (s : State V)
      → (claim_deliveries now limit lease s).1.documents ≡ s.documents
  unfolding claim_deliveries
  claim_deliveries-documents now limit lease s = claim_each-documents _ _ s

  revive-Evolves :
      (now id : ℕ) (j : StoredJob V) (d : Document V) (audit : AuditEntry V) (s : State V)
      → lookup j.document_id s.documents ≡ some d
      → job_applies j.kind d.status ≡ true
      → Evolves s.documents (revive now j id (status_for j.kind d.status) audit s).documents
  unfolding revive
  revive-Evolves now id j d audit s found applies =
      set_status-Evolves s j.document_id d (status_for j.kind d.status) found
        (revived_status j.kind d.status applies)

  retry_job_of-Evolves :
      (now id : ℕ) (j : StoredJob V) (d : Document V) (audit : AuditEntry V) (s : State V)
      → lookup j.document_id s.documents ≡ some d
      → Evolves s.documents (retry_job_of now id j d audit s).1.documents
  unfolding retry_job_of
  retry_job_of-Evolves now id j d audit s found = elim (Bool-cases (job_applies j.kind d.status)) [
    | inr no_use ↦ rw no_use (Evolves-refl s.documents)
    | inl applies ↦ elim (Bool-cases (has_active_job s j.document_id j.kind)) [
      | inl busy ↦ rw (applies, busy) (Evolves-refl s.documents)
      | inr free ↦ rw (applies, free) (revive-Evolves now id j d audit s found applies)
    ]
  ]

  pub retry_dead_job-Evolves :
      (now id : ℕ) (audit : AuditEntry V) (s : State V)
      → Evolves s.documents (retry_dead_job now id audit s).1.documents
  unfolding retry_dead_job
  retry_dead_job-Evolves now id audit s = elim (Option-cases (dead_only (lookup id s.jobs))) [
    | inl e ↦ rw (e, retry_dead_job) (Evolves-refl s.documents)
    | inr (j, e) ↦ elim (Option-cases (lookup j.document_id s.documents)) [
      | inl missing ↦ rw (e, retry_dead_job) (rw missing (Evolves-refl s.documents))
      | inr (d, found) ↦
          rw (e, retry_dead_job) (rw found (retry_job_of-Evolves now id j d audit s found))
    ]
  ]

module _ {V : Type 0} (J : Json V) where
  requeue_all-Evolves :
      (fresh : ℕ → ℕ) (i now max_attempts : ℕ) (ids : List ℕ) (s : State V)
      → All (MayWait s) ids
      → Evolves s.documents (requeue_all J fresh i now max_attempts ids s).1.documents
  unfolding requeue_all
  requeue_all-Evolves fresh i now max_attempts [] s h = Evolves-refl s.documents
  requeue_all-Evolves fresh i now max_attempts (id ∷ ids) s ((d, e, w), h) =
      elim (Result-cases (insert_job job u).0) [
        | inr (_, failed) ↦ rw (failed, requeue_all) step
        | inl (_, done) ↦
            rw (done, requeue_all)
              (Evolves-trans step (
                requeue_all-Evolves fresh (suc i) now max_attempts ids t
                  (All-mono ids (λ k m. MayWait-of_eq u t k same (set_status-MayWait s id k m)) h)))
      ]
    where
      job : NewJob V
      job = new_transmit J (fresh i) now id max_attempts

      u : State V
      u = set_status id pending s

      t : State V
      t = (insert_job job u).1

      same : t.documents ≡ u.documents
      same = (insert_job-SameDocuments job u).documents

      step : Evolves s.documents t.documents
      step = Evolves-trans (set_status-Evolves s id d pending e w) (Evolves-of_eq same)

  pub requeue_contingency-Evolves :
      (fresh : ℕ → ℕ) (now : ℕ) (limit : ℤ) (max_attempts : ℕ) (s : State V)
      → Keyed (λ d. d.id) s.documents
      → Evolves s.documents (requeue_contingency J fresh now limit max_attempts s).1.documents
  unfolding requeue_contingency
  requeue_contingency-Evolves fresh now limit max_attempts s keyed =
      requeue_all-Evolves fresh 0 now max_attempts (contingency_candidates limit s) s
        (candidates-MayWait limit s keyed)
