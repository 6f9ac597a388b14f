-- ===== src/Store/State.antt =====
-- core-domain/src/testing.rs: the store that the ports work on, and `State`'s own methods. One mutex
-- guards the store, so an operation is one step; an operation that fails half-way keeps what it has
-- written, so it returns its result and the store. The time and fresh ids are arguments.
use dian_service.Base.{
  ℕ, Bool, true, false, ◌&&◌, List, Option, none, some, String, Dict, lookup, insert, adjust,
  values, any, ◌==◌, ℕ_eq, if◌then◌else◌,
}
use dian_service.Domain.Enums.{JobKind, JobStatus, job_kind_eq}
use dian_service.Domain.Errors.{
  Result, ok, err, Message, conflict, not_found, has_active_job as still_active, job_id,
}
use dian_service.Domain.Models.{
  Tenant, Certificate, NumberingRange, Document, DianEvent, Webhook, NewJob, ApiKeyRecord,
  AuditEntry,
}
use dian_service.Domain.Ports.{IssuedDocument}

pub record StoredJob (V : Type 0) : Type 0 where
  pub id : ℕ
  pub kind : JobKind
  pub document_id : ℕ
  pub payload : V
  pub status : JobStatus
  pub attempts : ℕ
  pub max_attempts : ℕ
  pub run_at : ℕ
  pub locked_until : Option ℕ
  pub last_error : Option Message

-- `status` is "queued", "running", "delivered" or "dead".
pub record StoredDelivery (V : Type 0) : Type 0 where
  pub id : ℕ
  pub webhook_id : ℕ
  pub document_id : ℕ
  pub event_type : String
  pub details : V
  pub status : String
  pub attempts : ℕ
  pub max_attempts : ℕ
  pub run_at : ℕ
  pub locked_until : Option ℕ
  pub last_error : Option Message
  pub last_status_code : Option ℕ
  pub created_at : ℕ

-- A used idempotency key: tenant and key, then the hash of the request and what it issued.
pub record UsedKey : Type 0 where
  pub tenant_id : ℕ
  pub key : String
  pub request_hash : String
  pub issued : IssuedDocument

pub record State (V : Type 0) : Type 0 where
  pub tenants : List (Tenant V)
  pub certificates : List Certificate
  pub ranges : Dict NumberingRange
  pub documents : Dict (Document V)
  pub events : List DianEvent
  pub jobs : Dict (StoredJob V)
  pub idempotency : List UsedKey
  pub webhooks : List Webhook
  pub deliveries : Dict (StoredDelivery V)
  pub api_keys : List ApiKeyRecord
  pub audit : List (AuditEntry V)

-- `Queued | Running`
abbrev pub is_active : JobStatus → Bool
is_active JobStatus.queued = true
is_active JobStatus.running = true
is_active _ = false

module _ {V : Type 0} where
  abbrev pub active_for : ℕ → JobKind → StoredJob V → Bool
  active_for document_id kind j =
      j.document_id == document_id && j.kind == kind && is_active j.status

  unfoldable pub has_active_job : State V → ℕ → JobKind → Bool
  has_active_job s document_id kind = any (active_for document_id kind) (values s.jobs)

  abbrev pub stored : NewJob V → StoredJob V
  stored j = record {
    id = j.id;
    kind = j.kind;
    document_id = j.document_id;
    payload = j.payload;
    status = JobStatus.queued;
    attempts = 0;
    max_attempts = j.max_attempts;
    run_at = j.run_at;
    locked_until = none;
    last_error = none;
  }

  unfoldable pub insert_job : NewJob V → State V → Result (Unit {0}) × State V
  insert_job j s =
      if has_active_job s j.document_id j.kind
      then (err (conflict (still_active j.document_id j.kind)), s)
      else (ok tt, record s { jobs = insert j.id (stored j) s.jobs })

  -- `job_mut(id)?` and a change of the job that it gives.
  unfoldable pub change_job :
      ℕ → (StoredJob V → StoredJob V) → State V → Result (Unit {0}) × State V
  change_job id f s = elim (lookup id s.jobs) [
    | none ↦ (err (not_found (job_id id)), s)
    | some _ ↦ (ok tt, record s { jobs = adjust id f s.jobs })
  ]

  -- The rest of an operation runs if this part succeeded, on the store as this part left it.
  infixl 5 ◌>>=◌ ◌>>◌
  abbrev pub ◌>>=◌ :
      {A B : Type 0}
      → (State V → Result A × State V)
      → (A → State V → Result B × State V)
      → State V
      → Result B × State V
  ◌>>=◌ m f s = elim (m s).0 [ ok a ↦ f a (m s).1 | err e ↦ (err e, (m s).1) ]

  abbrev pub ◌>>◌ :
      {A B : Type 0}
      → (State V → Result A × State V)
      → (State V → Result B × State V)
      → State V
      → Result B × State V
  ◌>>◌ m k = m >>= λ _. k
