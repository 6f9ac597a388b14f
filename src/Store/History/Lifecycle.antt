-- ===== src/Store/History/Lifecycle.antt =====
-- After any history each document is there, is the same document, and its status has followed the
-- diagram; a final status is the last one.
use dian_service.Base.{ℕ, ◌≡◌, refl, true, List, [], ◌∷◌, some, arith, lookup, Keyed}
use dian_service.Domain.Enums.{DocumentStatus}
use dian_service.Domain.Json.{Json}
use dian_service.Domain.Lifecycle.{is_terminal}
use dian_service.Domain.Lifecycle.Graph.{◌⟶*◌, here, next, terminal_stuck}
use dian_service.Domain.Models.{Document}
use dian_service.Store.State.{State}
use dian_service.Store.Documents.{record_event}
use dian_service.Store.Queue.{complete, retry, release, bury}
use dian_service.Store.Deliveries.{
  create_webhook, delete_webhook, complete_delivery, retry_delivery, bury_delivery,
}
use dian_service.Store.Admin.{
  create_tenant, create_api_key, revoke_api_key, activate_certificate, add_numbering_range,
  retry_dead_delivery,
}
use dian_service.Store.Frame.{change_job-SameDocuments}
use dian_service.Store.Evolution.{Evolves, Evolves-refl, Evolves-of_eq, Evolves-trans}
use dian_service.Store.Operations.{
  issue_outbound-Evolves, insert_inbound-Evolves, store_artifacts-Evolves, apply_transition-Evolves,
}
use dian_service.Store.History.Documents.{
  claim-documents, claim_deliveries-documents, retry_dead_job-Evolves, requeue_contingency-Evolves,
}
use dian_service.Store.History.{
  Call, issue, receive, keep_artifacts, log, move, claims, completes, retries, releases, buries,
  requeues, subscribe, unsubscribe, claims_deliveries, delivered, delivery_failed, delivery_dead,
  add_tenant, add_key, revoke_key, activate, add_range, retry_job, redeliver, step, HasNewIds, run,
  HaveNewIds,
}

module _ {V : Type 0} (J : Json V) where
  step-Evolves :
      (c : Call V) (s : State V)
      → HasNewIds J c s
      → Keyed (λ d. d.id) s.documents
      → Evolves s.documents (step J c s).documents
  unfolding step complete retry release bury record_event create_webhook delete_webhook
      complete_delivery retry_delivery bury_delivery create_tenant create_api_key revoke_api_key
      activate_certificate add_numbering_range retry_dead_delivery
  step-Evolves (issue now d job) s new keyed = issue_outbound-Evolves now d job s new
  step-Evolves (receive now n) s new keyed = insert_inbound-Evolves now n s new
  step-Evolves (keep_artifacts id a b c) s new keyed = store_artifacts-Evolves id a b c s
  step-Evolves (log event) s new keyed = Evolves-refl s.documents
  step-Evolves (move fresh now t) s new keyed = apply_transition-Evolves J fresh now t s
  step-Evolves (claims now limit lease) s new keyed =
      Evolves-of_eq (claim-documents now limit lease s)
  step-Evolves (completes id) s new keyed =
      Evolves-of_eq (change_job-SameDocuments id _ s).documents
  step-Evolves (retries id run_at error) s new keyed =
      Evolves-of_eq (change_job-SameDocuments id _ s).documents
  step-Evolves (releases id run_at) s new keyed =
      Evolves-of_eq (change_job-SameDocuments id _ s).documents
  step-Evolves (buries id error) s new keyed =
      Evolves-of_eq (change_job-SameDocuments id _ s).documents
  step-Evolves (requeues fresh now limit max_attempts) s new keyed =
      requeue_contingency-Evolves J fresh now limit max_attempts s keyed
  step-Evolves (subscribe w) s new keyed = Evolves-refl s.documents
  step-Evolves (unsubscribe tenant id) s new keyed = Evolves-of_eq (ground arith)
  step-Evolves (claims_deliveries now limit lease) s new keyed =
      Evolves-of_eq (claim_deliveries-documents now limit lease s)
  step-Evolves (delivered id status_code) s new keyed = Evolves-of_eq (ground arith)
  step-Evolves (delivery_failed id run_at error status_code) s new keyed =
      Evolves-of_eq (ground arith)
  step-Evolves (delivery_dead id error status_code) s new keyed = Evolves-of_eq (ground arith)
  step-Evolves (add_tenant now n audit) s new keyed = Evolves-of_eq (ground arith)
  step-Evolves (add_key key audit) s new keyed = Evolves-refl s.documents
  step-Evolves (revoke_key now tenant id audit) s new keyed = Evolves-of_eq (ground arith)
  step-Evolves (activate c audit) s new keyed = Evolves-refl s.documents
  step-Evolves (add_range r audit) s new keyed = Evolves-of_eq (ground arith)
  step-Evolves (retry_job now id audit) s new keyed = retry_dead_job-Evolves now id audit s
  step-Evolves (redeliver now id audit) s new keyed = Evolves-of_eq (ground arith)

  -- After any operations of the ports, in any order, given new ids for new documents: each document
  -- that was there is there under its id with the same tenant, direction, issuer, type, prefix,
  -- number, range, payload and date, and its status has moved along edges of the diagram only; every
  -- document is still stored under its own id, once.
  pub run-Evolves :
      (cs : List (Call V)) (s : State V)
      → HaveNewIds J cs s
      → Keyed (λ d. d.id) s.documents
      → Evolves s.documents (run J cs s).documents
  unfolding run
  run-Evolves [] s new keyed = Evolves-refl s.documents
  run-Evolves (c ∷ cs) s new keyed =
      let one = step-Evolves c s new.0 keyed in
      Evolves-trans one (run-Evolves cs (step J c s) new.1 (one.keyed keyed))

stays_terminal : {s t : DocumentStatus} → is_terminal s ≡ true → s ⟶* t → t ≡ s
stays_terminal h here = refl
stays_terminal h (next p e) = absurd (terminal_stuck (rw (stays_terminal h p) h) e)

module _ {V : Type 0} (J : Json V) where
  -- A document that was accepted, rejected or has failed keeps that status in every history.
  pub run-terminal :
      (cs : List (Call V)) (s : State V) (id : ℕ) (d : Document V)
      → HaveNewIds J cs s
      → Keyed (λ d. d.id) s.documents
      → lookup id s.documents ≡ some d
      → is_terminal d.status ≡ true
      → (e : Document V) × (lookup id (run J cs s).documents ≡ some e) × (e.status ≡ d.status)
  run-terminal cs s id d new keyed found final =
      let (e, there, f) = (run-Evolves J cs s new keyed).keeps id d found in
      (e, there, stays_terminal final f.status)
