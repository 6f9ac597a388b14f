-- ===== src/Store/History/Keys.antt =====
-- An idempotency key that was used is never forgotten.
use dian_service.Base.{
  ℕ, suc, ◌≡◌, refl, inl, inr, Bool-cases, List, [], ◌∷◌, Option, none, some, String, arith, lookup,
  adjust, values, any, Option-cases, ◌==◌, string_eq, ℕ_eq, eq_iff, if◌then◌else◌,
}
use dian_service.Base.Int.{ℤ}
use dian_service.Domain.Errors.{ok, err, Result-cases, validation, fixed}
use dian_service.Domain.Json.{Json}
use dian_service.Domain.Lifecycle.{can_transition_to}
use dian_service.Domain.Jobs.{new_transmit}
use dian_service.Domain.Enums.{DocumentStatus}
use dian_service.Domain.Models.{NewJob, NumberingRange}
use dian_service.Domain.Ports.{
  NewOutboundDocument, IssuedDocument, IdempotencyKey, created, replayed, Transition,
}
use dian_service.Store.State.{State, UsedKey, insert_job}
use dian_service.Store.Documents.{
  find_key, put_key, replay, numbered, remember, issue_number, issue_outbound, issued_as,
  insert_inbound, store_artifacts, record_event, same_outbound,
}
use dian_service.Store.Transitions.{apply_transition, set_status}
use dian_service.Store.Queue.{
  claim, claim_all, start, complete, retry, release, bury, requeue_all, requeue_contingency,
  contingency_candidates,
}
use dian_service.Store.Deliveries.{
  create_webhook, delete_webhook, claim_each, claim_deliveries, begin_delivery, complete_delivery,
  retry_delivery, bury_delivery,
}
use dian_service.Store.Admin.{
  create_tenant, create_api_key, revoke_api_key, activate_certificate, add_numbering_range,
  retry_dead_job, retry_job_of, revive, retry_dead_delivery,
}
use dian_service.Store.Frame.{
  SameDocuments-trans, insert_job-SameDocuments, change_job-SameDocuments,
}
use dian_service.Store.Operations.{finish-SameDocuments, moved, new_cases}
use dian_service.Store.Issuing.{issue_outbound-Issued, used}
use dian_service.Store.History.{
  Call, issue, receive, keep_artifacts, log, move, claims, completes, retries, releases, buries,
  requeues, subscribe, unsubscribe, claims_deliveries, delivered, delivery_failed, delivery_dead,
  add_tenant, add_key, revoke_key, activate, add_range, retry_job, redeliver, step, run,
}

-- A key that was not used yet takes the place of no other one.
put_key-keeps :
    (tenant : ℕ) (key : String) (x q : UsedKey) (us : List UsedKey)
    → find_key q.tenant_id q.key us ≡ none
    → find_key tenant key us ≡ some x
    → find_key tenant key (put_key q us) ≡ some x
unfolding find_key put_key
put_key-keeps tenant key x q [] new h = cc
put_key-keeps tenant key x q (u ∷ us) new h = ground (arith, put_key-keeps tenant key x q us)

module _ {V : Type 0} where
  claim_all-idempotency :
      (until : ℕ) (ids : List ℕ) (s : State V)
      → (claim_all until ids s).1.idempotency ≡ s.idempotency
  unfolding claim_all
  claim_all-idempotency until [] s = refl
  claim_all-idempotency until (id ∷ ids) s =
      ground (
        arith,
        claim_all-idempotency until ids (record s { jobs = adjust id (start until) s.jobs }),
      )

  claim_each-idempotency :
      (until : ℕ) (ids : List ℕ) (s : State V)
      → (claim_each until ids s).1.idempotency ≡ s.idempotency
  unfolding claim_each
  claim_each-idempotency until [] s = refl
  claim_each-idempotency until (id ∷ ids) s = ground (
    arith,
    claim_each-idempotency until ids
        (record s { deliveries = adjust id (begin_delivery until) s.deliveries }),
  )

module _ {V : Type 0} (J : Json V) where
  requeue_all-idempotency :
      (fresh : ℕ → ℕ) (i now max_attempts : ℕ) (ids : List ℕ) (s : State V)
      → (requeue_all J fresh i now max_attempts ids s).1.idempotency ≡ s.idempotency
  unfolding requeue_all set_status
  requeue_all-idempotency fresh i now max_attempts [] s = refl
  requeue_all-idempotency fresh i now max_attempts (id ∷ ids) s =
      let job = new_transmit J (fresh i) now id max_attempts in
      let u = set_status id DocumentStatus.pending s in
      ground (
        arith,
        (insert_job-SameDocuments job u).idempotency,
        requeue_all-idempotency fresh (suc i) now max_attempts ids (insert_job job u).1,
      )

  apply_transition-idempotency :
      (fresh : ℕ → ℕ) (now : ℕ) (t : Transition V) (s : State V)
      → (apply_transition J fresh now t s).1.idempotency ≡ s.idempotency
  unfolding apply_transition set_status
  apply_transition-idempotency fresh now t s =
      elim (Option-cases (lookup t.document_id s.documents)) [
        | inl missing ↦ rw (missing, apply_transition) refl
        | inr (d, found) ↦ elim (Bool-cases (can_transition_to d.status t.to)) [
          | inl allowed ↦
              rw (found, apply_transition)
                (rw allowed
                  (SameDocuments-trans (moved J fresh now t d s)
                    (finish-SameDocuments t _)).idempotency)
          | inr refused ↦ rw (found, apply_transition) (rw refused refl)
        ]
      ]

module _ {V : Type 0} (tenant : ℕ) (key : String) (x : UsedKey) where
  -- The key is used, with this request and answer.
  abbrev Known : State V → Type 0
  Known s = find_key tenant key s.idempotency ≡ some x

  Known-eq : (s t : State V) → t.idempotency ≡ s.idempotency → Known s → Known t
  Known-eq s t e h = rw e h

  -- A request that is not answered at once has a key that was not used.
  remember-Known :
      (d : NewOutboundDocument V) (i : IssuedDocument) (o : Option IdempotencyKey) (s : State V)
      → replay d.tenant_id o s.idempotency ≡ none
      → Known s
      → Known (remember d i o s)
  unfolding remember replay
  remember-Known d i none s new h = h
  remember-Known d i (some k) s new h =
      put_key-keeps tenant key x (used d.tenant_id k i) s.idempotency (unused new) h
    where
      unused :
          replay d.tenant_id (some k) s.idempotency ≡ none
          → find_key d.tenant_id k.key s.idempotency ≡ none
      unused e = ground (arith, e)

  issue_number-Known :
      (now : ℕ) (d : NewOutboundDocument V) (job : NewJob V) (range : NumberingRange) (number : ℤ)
      (s : State V)
      → replay d.tenant_id d.idempotency s.idempotency ≡ none
      → Known s
      → Known (issue_number now d job range number s).1
  unfolding issue_number numbered
  issue_number-Known now d job range number s new h =
      elim (Bool-cases
        (any (same_outbound d.tenant_id d.document_type d.prefix number) (values s.documents))) [
          | inl taken ↦ rw (taken, issue_number) h
          | inr free ↦ elim (Result-cases (insert_job job t).0) [
            | inl (_, e) ↦
                rw (free, issue_number)
                  (rw e (
                    remember-Known d (issued_as d number) d.idempotency (insert_job job t).1
                      (rw same new) (Known-eq s (insert_job job t).1 same h)))
            | inr (_, e) ↦ rw (free, issue_number) (rw e (Known-eq s (insert_job job t).1 same h))
          ]
        ]
    where
      t : State V
      t = numbered now d range number s

      same : (insert_job job t).1.idempotency ≡ s.idempotency
      same = (insert_job-SameDocuments job t).idempotency

  issue_outbound-Known :
      (now : ℕ) (d : NewOutboundDocument V) (job : NewJob V) (s : State V)
      → Known s
      → Known (issue_outbound now d job s).1
  unfolding issue_outbound
  issue_outbound-Known now d job s h =
      elim (Option-cases (replay d.tenant_id d.idempotency s.idempotency)) [
        | inl new ↦
            rw (new, issue_outbound)
              (new_cases Known now d job s h
                (λ range number _ _. issue_number-Known now d job range number s new h))
        | inr (_, known) ↦ rw (known, issue_outbound) h
      ]

module _ {V : Type 0} (J : Json V) where
  step-idempotency :
      (tenant : ℕ) (key : String) (x : UsedKey) (c : Call V) (s : State V)
      → Known tenant key x s
      → Known tenant key x (step J c s)
  unfolding step complete retry release bury record_event create_webhook delete_webhook
      complete_delivery retry_delivery bury_delivery create_tenant create_api_key revoke_api_key
      activate_certificate add_numbering_range retry_dead_delivery claim claim_deliveries
      requeue_contingency insert_inbound store_artifacts retry_dead_job retry_job_of revive
      set_status
  step-idempotency tenant key x (issue now d job) s h =
      issue_outbound-Known tenant key x now d job s h
  step-idempotency tenant key x (receive now n) s h = ground (arith, h)
  step-idempotency tenant key x (keep_artifacts id a b c) s h = ground (arith, h)
  step-idempotency tenant key x (log event) s h = h
  step-idempotency tenant key x (move fresh now t) s h =
      rw (apply_transition-idempotency J fresh now t s) h
  step-idempotency tenant key x (claims now limit lease) s h = rw (claim_all-idempotency _ _ s) h
  step-idempotency tenant key x (completes id) s h =
      rw ((change_job-SameDocuments id _ s).idempotency) h
  step-idempotency tenant key x (retries id run_at error) s h =
      rw ((change_job-SameDocuments id _ s).idempotency) h
  step-idempotency tenant key x (releases id run_at) s h =
      rw ((change_job-SameDocuments id _ s).idempotency) h
  step-idempotency tenant key x (buries id error) s h =
      rw ((change_job-SameDocuments id _ s).idempotency) h
  step-idempotency tenant key x (requeues fresh now limit max_attempts) s h =
      rw (requeue_all-idempotency J fresh 0 now max_attempts (contingency_candidates limit s) s) h
  step-idempotency tenant key x (subscribe w) s h = h
  step-idempotency tenant key x (unsubscribe t id) s h = ground (arith, h)
  step-idempotency tenant key x (claims_deliveries now limit lease) s h =
      rw (claim_each-idempotency _ _ s) h
  step-idempotency tenant key x (delivered id status_code) s h = ground (arith, h)
  step-idempotency tenant key x (delivery_failed id run_at error status_code) s h =
      ground (arith, h)
  step-idempotency tenant key x (delivery_dead id error status_code) s h = ground (arith, h)
  step-idempotency tenant key x (add_tenant now n audit) s h = ground (arith, h)
  step-idempotency tenant key x (add_key k audit) s h = h
  step-idempotency tenant key x (revoke_key now t id audit) s h = ground (arith, h)
  step-idempotency tenant key x (activate c audit) s h = h
  step-idempotency tenant key x (add_range r audit) s h = ground (arith, h)
  step-idempotency tenant key x (retry_job now id audit) s h = ground (arith, h)
  step-idempotency tenant key x (redeliver now id audit) s h = ground (arith, h)

  run-Known :
      (tenant : ℕ) (key : String) (x : UsedKey) (cs : List (Call V)) (s : State V)
      → Known tenant key x s
      → Known tenant key x (run J cs s)
  unfolding run
  run-Known tenant key x [] s h = h
  run-Known tenant key x (c ∷ cs) s h =
      run-Known tenant key x cs (step J c s) (step-idempotency tenant key x c s h)

  replayed_as :
      (tenant : ℕ) (k l : IdempotencyKey) (i : IssuedDocument) (s : State V)
      → Known tenant k.key (used tenant k i) s
      → l.key ≡ k.key
      → replay tenant (some l) s.idempotency
        ≡ some (
            if l.request_hash == k.request_hash
            then ok (replayed i)
            else err
                (validation (fixed "La clave de idempotencia ya se uso con un cuerpo distinto")))
  unfolding replay
  replayed_as tenant k l i s h e =
      rw (e, replay)
        (rw h (
          ground
            (arith, eq_iff l.request_hash k.request_hash, eq_iff k.request_hash l.request_hash)))

  -- A request that repeats the tenant and the idempotency key of an issued one, after any operations on
  -- the store in between, changes nothing: with the same hash it gets the first answer again, with
  -- another one it is refused.
  pub issue_outbound-again :
      (s : State V) (now again : ℕ) (d e : NewOutboundDocument V) (job other : NewJob V)
      (i : IssuedDocument) (k l : IdempotencyKey) (cs : List (Call V))
      → d.idempotency ≡ some k
      → (issue_outbound now d job s).0 ≡ ok (created i)
      → e.tenant_id ≡ d.tenant_id
      → e.idempotency ≡ some l
      → l.key ≡ k.key
      → issue_outbound again e other (run J (issue now d job ∷ cs) s) ≡ (
        if l.request_hash == k.request_hash
            then ok (replayed i)
            else err
                (validation (fixed "La clave de idempotencia ya se uso con un cuerpo distinto")),
        run J (issue now d job ∷ cs) s,
      )
  unfolding issue_outbound run step
  issue_outbound-again s now again d e job other i k l cs first h tenant key same =
      rw (known, issue_outbound) refl
    where
      there : Known d.tenant_id k.key (used d.tenant_id k i) (run J (issue now d job ∷ cs) s)
      there =
          run-Known d.tenant_id k.key (used d.tenant_id k i) cs _
            ((issue_outbound-Issued now d job s i h).remembered k first)

      known :
          replay e.tenant_id e.idempotency (run J (issue now d job ∷ cs) s).idempotency
          ≡ some (
              if l.request_hash == k.request_hash
              then ok (replayed i)
              else err
                  (validation (fixed "La clave de idempotencia ya se uso con un cuerpo distinto")))
      known =
          rw (tenant, key)
            (replayed_as d.tenant_id k l i (run J (issue now d job ∷ cs) s) there same)
