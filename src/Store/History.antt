-- ===== src/Store/History.antt =====
-- Histories of a store: the operations of its ports in any order, with any arguments.
mod Documents
pub mod Keys
pub mod Lifecycle
pub mod Numbers
use dian_service.Base.{ℕ, ◌≡◌, List, [], ◌∷◌, Option, none, some, String, lookup}
use dian_service.Base.Int.{ℤ}
use dian_service.Domain.Errors.{Message}
use dian_service.Domain.Json.{Json}
use dian_service.Domain.Models.{
  Certificate, NumberingRange, DianEvent, Webhook, NewJob, NewTenant, ApiKeyRecord, AuditEntry,
}
use dian_service.Domain.Ports.{NewOutboundDocument, NewInboundDocument, Transition}
use dian_service.Store.State.{State}
use dian_service.Store.Documents.{issue_outbound, insert_inbound, store_artifacts, record_event}
use dian_service.Store.Transitions.{apply_transition}
use dian_service.Store.Queue.{claim, complete, retry, release, bury, requeue_contingency}
use dian_service.Store.Deliveries.{
  create_webhook, delete_webhook, claim_deliveries, complete_delivery, retry_delivery,
  bury_delivery,
}
use dian_service.Store.Admin.{
  create_tenant, create_api_key, revoke_api_key, activate_certificate, add_numbering_range,
  retry_dead_job, retry_dead_delivery,
}

-- The calls that can change the store.
pub data Call (V : Type 0) : Type 0 where
  issue : (now : ℕ) → NewOutboundDocument V → NewJob V → Call V
  receive : (now : ℕ) → NewInboundDocument V → Call V
  keep_artifacts : (id : ℕ) → String → String → String → Call V
  log : DianEvent → Call V
  move : (fresh : ℕ → ℕ) (now : ℕ) → Transition V → Call V
  claims : (now : ℕ) (limit : ℤ) (lease : ℕ) → Call V
  completes : (id : ℕ) → Call V
  retries : (id run_at : ℕ) → Message → Call V
  releases : (id run_at : ℕ) → Call V
  buries : (id : ℕ) → Message → Call V
  requeues : (fresh : ℕ → ℕ) (now : ℕ) (limit : ℤ) (max_attempts : ℕ) → Call V
  subscribe : Webhook → Call V
  unsubscribe : (tenant id : ℕ) → Call V
  claims_deliveries : (now : ℕ) (limit : ℤ) (lease : ℕ) → Call V
  delivered : (id status_code : ℕ) → Call V
  delivery_failed : (id run_at : ℕ) → Message → Option ℕ → Call V
  delivery_dead : (id : ℕ) → Message → Option ℕ → Call V
  add_tenant : (now : ℕ) → NewTenant → AuditEntry V → Call V
  add_key : ApiKeyRecord → AuditEntry V → Call V
  revoke_key : (now tenant id : ℕ) → AuditEntry V → Call V
  activate : Certificate → AuditEntry V → Call V
  add_range : NumberingRange → AuditEntry V → Call V
  retry_job : (now id : ℕ) → AuditEntry V → Call V
  redeliver : (now id : ℕ) → AuditEntry V → Call V

module _ {V : Type 0} (J : Json V) where
  unfoldable pub step : Call V → State V → State V
  step (issue now d job) s = (issue_outbound now d job s).1
  step (receive now n) s = (insert_inbound now n s).1
  step (keep_artifacts id cufe original_xml signed_xml) s =
      (store_artifacts id cufe original_xml signed_xml s).1
  step (log event) s = (record_event event s).1
  step (move fresh now t) s = (apply_transition J fresh now t s).1
  step (claims now limit lease) s = (claim now limit lease s).1
  step (completes id) s = (complete id s).1
  step (retries id run_at error) s = (retry id run_at error s).1
  step (releases id run_at) s = (release id run_at s).1
  step (buries id error) s = (bury id error s).1
  step (requeues fresh now limit max_attempts) s =
      (requeue_contingency J fresh now limit max_attempts s).1
  step (subscribe w) s = (create_webhook w s).1
  step (unsubscribe tenant id) s = (delete_webhook tenant id s).1
  step (claims_deliveries now limit lease) s = (claim_deliveries now limit lease s).1
  step (delivered id status_code) s = (complete_delivery id status_code s).1
  step (delivery_failed id run_at error status_code) s =
      (retry_delivery id run_at error status_code s).1
  step (delivery_dead id error status_code) s = (bury_delivery id error status_code s).1
  step (add_tenant now n audit) s = (create_tenant J now n audit s).1
  step (add_key key audit) s = (create_api_key key audit s).1
  step (revoke_key now tenant id audit) s = (revoke_api_key now tenant id audit s).1
  step (activate c audit) s = (activate_certificate c audit s).1
  step (add_range r audit) s = (add_numbering_range r audit s).1
  step (retry_job now id audit) s = (retry_dead_job now id audit s).1
  step (redeliver now id audit) s = (retry_dead_delivery now id audit s).1

  -- `Uuid::new_v4` gives a new document an id that no document has.
  abbrev pub HasNewIds : Call V → State V → Type 0
  HasNewIds (issue now d job) s = lookup d.id s.documents ≡ none
  HasNewIds (receive now n) s = lookup n.id s.documents ≡ none
  HasNewIds _ s = Unit

  unfoldable pub run : List (Call V) → State V → State V
  run [] s = s
  run (c ∷ cs) s = run cs (step c s)

  abbrev pub HaveNewIds : List (Call V) → State V → Type 0
  HaveNewIds [] s = Unit
  HaveNewIds (c ∷ cs) s = HasNewIds c s × HaveNewIds cs (step c s)
