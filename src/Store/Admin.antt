-- ===== src/Store/Admin.antt =====
-- core-domain/src/testing.rs, `impl AdminRepository`, `TenantRepository` and `CertificateRepository`
-- for `InMemoryStore`.
use dian_service.Base.{
  ℕ, Bool, true, false, ◌&&◌, not, List, [], ◌∷◌, ◌++◌, Option, none, some, String, lookup, insert,
  adjust, values, keep, find, map, take, any, ◌==◌, ℕ_eq, string_eq, ltb, if◌then◌else◌,
}
use dian_service.Base.Int.{ℤ, pos_part}
use dian_service.Domain.Enums.{
  CertificateStatus, DocumentStatus, JobKind, JobStatus, transmit, poll_status, document_type_eq,
  document_status_eq, job_kind_eq, job_status_eq, certificate_status_eq,
}
use dian_service.Domain.Errors.{
  Result, ok, err, conflict, not_found, fixed, tenant_exists, document_id, job_does_not_apply,
}
use dian_service.Domain.Json.{Json}
use dian_service.Domain.Models.{
  Tenant, Certificate, NumberingRange, Document, NewTenant, ApiKeyRecord, DeadJob, DeadDelivery,
  AuditEntry,
}
use dian_service.Store.State.{State, StoredJob, StoredDelivery, has_active_job}
use dian_service.Store.Transitions.{set_status}

abbrev pub is_revoked : ApiKeyRecord → Bool
is_revoked k = elim k.revoked_at [ none ↦ false | some _ ↦ true ]

-- `iter_mut().find(..)` and the change of the key that it finds.
unfoldable pub revoke_first : ℕ → ℕ → ℕ → List ApiKeyRecord → List ApiKeyRecord
revoke_first now tenant id [] = []
revoke_first now tenant id (k ∷ ks) =
    if k.id == id && k.tenant_id == tenant && not (is_revoked k)
    then record k { revoked_at = some now } ∷ ks
    else k ∷ revoke_first now tenant id ks

abbrev pub revoke_active : ℕ → Certificate → Certificate
revoke_active tenant c =
    if c.tenant_id == tenant && c.status == CertificateStatus.active
    then record c { status = CertificateStatus.revoked }
    else c

abbrev pub overlaps : NumberingRange → NumberingRange → Bool
overlaps new r =
    r.tenant_id == new.tenant_id
    && r.document_type == new.document_type
    && r.prefix == new.prefix
    && ltb r.valid_date_from new.valid_date_to
    && ltb new.valid_date_from r.valid_date_to

-- Whether a dead job of the kind may run again on a document in the state.
unfoldable pub job_applies : JobKind → DocumentStatus → Bool
job_applies transmit DocumentStatus.pending = true
job_applies transmit DocumentStatus.contingency_pending = true
job_applies poll_status DocumentStatus.sent_dian = true
job_applies _ _ = false

-- The state in which the document is left.
abbrev pub status_for : JobKind → DocumentStatus → DocumentStatus
status_for transmit status = DocumentStatus.pending
status_for poll_status status = status

module _ {V : Type 0} where
  unfoldable pub find_by_api_key_hash : State V → String → Option (Tenant V)
  find_by_api_key_hash s hash =
      elim (find (λ k. k.key_hash == hash && not (is_revoked k)) s.api_keys) [
        | none ↦ none
        | some k ↦ find (λ t. t.id == k.tenant_id) s.tenants
      ]

  unfoldable pub find_active_certificate : State V → ℕ → Option Certificate
  find_active_certificate s tenant =
      find (λ c. c.tenant_id == tenant && c.status == CertificateStatus.active) s.certificates

  unfoldable pub find_tenant : State V → ℕ → Option (Tenant V)
  find_tenant s id = find (λ t. t.id == id) s.tenants

  unfoldable pub create_api_key :
      ApiKeyRecord → AuditEntry V → State V → Result (Unit {0}) × State V
  create_api_key key audit s =
      (ok tt, record s { api_keys = s.api_keys ++ key ∷ []; audit = s.audit ++ audit ∷ [] })

  unfoldable pub list_api_keys : State V → ℕ → List ApiKeyRecord
  list_api_keys s tenant = keep (λ k. k.tenant_id == tenant) s.api_keys

  unfoldable pub revoke_api_key : ℕ → ℕ → ℕ → AuditEntry V → State V → Result Bool × State V
  revoke_api_key now tenant id audit s =
      if any (λ k. k.id == id && k.tenant_id == tenant && not (is_revoked k)) s.api_keys
      then (
        ok true,
        record s {
          api_keys = revoke_first now tenant id s.api_keys;
          audit = s.audit ++ audit ∷ [];
        },
      )
      else (ok false, s)

  unfoldable pub activate_certificate :
      Certificate → AuditEntry V → State V → Result (Unit {0}) × State V
  activate_certificate c audit s = (
    ok tt,
    record s {
      certificates = map (revoke_active c.tenant_id) s.certificates ++ c ∷ [];
      audit = s.audit ++ audit ∷ [];
    },
  )

  unfoldable pub add_numbering_range :
      NumberingRange → AuditEntry V → State V → Result (Unit {0}) × State V
  add_numbering_range r audit s =
      if any (overlaps r) (values s.ranges)
      then (
        err (conflict (fixed "El rango se solapa en vigencia con otro del mismo tipo y prefijo")),
        s,
      )
      else (ok tt, record s { ranges = insert r.id r s.ranges; audit = s.audit ++ audit ∷ [] })

  -- `unwrap_or_default()` on a missing document gives the nil `Uuid`.
  abbrev pub tenant_of_document : State V → ℕ → ℕ
  tenant_of_document s id = elim (lookup id s.documents) [ none ↦ 0 | some d ↦ d.tenant_id ]

  unfoldable pub list_dead_jobs : State V → ℤ → List DeadJob
  list_dead_jobs s limit =
      map
        (λ j. record {
          id = j.id;
          kind = j.kind;
          document_id = j.document_id;
          tenant_id = tenant_of_document s j.document_id;
          attempts = j.attempts;
          last_error = j.last_error;
          failed_at = j.run_at;
        })
        (take (pos_part limit) (keep (λ j. j.status == JobStatus.dead) (values s.jobs)))

  abbrev pub revived : ℕ → StoredJob V → StoredJob V
  revived now j = record j {
    status = JobStatus.queued;
    attempts = 0;
    run_at = now;
    locked_until = none;
  }

  -- The job back in the queue, its document in the state that the job starts from.
  unfoldable pub revive : ℕ → StoredJob V → ℕ → DocumentStatus → AuditEntry V → State V → State V
  revive now j id to audit s =
      let t = set_status j.document_id to s in
      record t { jobs = adjust id (revived now) t.jobs; audit = t.audit ++ audit ∷ [] }

  unfoldable pub retry_job_of :
      ℕ → ℕ → StoredJob V → Document V → AuditEntry V → State V → Result Bool × State V
  retry_job_of now id j d audit s =
      if not (job_applies j.kind d.status)
      then (err (conflict (job_does_not_apply d.status j.kind)), s)
      else if has_active_job s j.document_id j.kind
      then (err (conflict (fixed "El documento ya tiene un trabajo activo")), s)
      else (ok true, revive now j id (status_for j.kind d.status) audit s)

  -- `get(&job_id).filter(|j| j.status == Dead)`
  abbrev pub dead_only : Option (StoredJob V) → Option (StoredJob V)
  dead_only none = none
  dead_only (some j) = if j.status == JobStatus.dead then some j else none

  unfoldable pub retry_dead_job : ℕ → ℕ → AuditEntry V → State V → Result Bool × State V
  retry_dead_job now id audit s = elim (dead_only (lookup id s.jobs)) [
    | none ↦ (ok false, s)
    | some j ↦ elim (lookup j.document_id s.documents) [
      | none ↦ (err (not_found (document_id j.document_id)), s)
      | some d ↦ retry_job_of now id j d audit s
    ]
  ]

  abbrev pub tenant_of_webhook : State V → ℕ → ℕ
  tenant_of_webhook s id = elim (find (λ w. w.id == id) s.webhooks) [
    | none ↦ 0
    | some w ↦ w.tenant_id
  ]

  unfoldable pub list_dead_deliveries : State V → ℤ → List DeadDelivery
  list_dead_deliveries s limit =
      map
        (λ d. record {
          id = d.id;
          tenant_id = tenant_of_webhook s d.webhook_id;
          webhook_id = d.webhook_id;
          event_type = d.event_type;
          attempts = d.attempts;
          last_error = d.last_error;
          last_status_code = d.last_status_code;
          failed_at = d.run_at;
        })
        (take (pos_part limit) (keep (λ d. d.status == "dead") (values s.deliveries)))

  abbrev pub is_dead_delivery : Option (StoredDelivery V) → Bool
  is_dead_delivery none = false
  is_dead_delivery (some d) = d.status == "dead"

  unfoldable pub retry_dead_delivery : ℕ → ℕ → AuditEntry V → State V → Result Bool × State V
  retry_dead_delivery now id audit s =
      if is_dead_delivery (lookup id s.deliveries)
      then (
        ok true,
        record s {
          deliveries =
              adjust id (λ d. record d { status = "queued"; attempts = 0; run_at = now })
                s.deliveries;
          audit = s.audit ++ audit ∷ [];
        },
      )
      else (ok false, s)

module _ {V : Type 0} (J : Json V) where
  abbrev pub new_tenant : ℕ → NewTenant → Tenant V
  new_tenant now n = record {
    id = n.id;
    tax_id = n.tax_id;
    registration_name = n.registration_name;
    tax_regime = n.tax_regime;
    address_info = J.object [];
    reception_email = n.reception_email;
    api_keys = J.object [];
    created_at = now;
    updated_at = now;
  }

  unfoldable pub create_tenant :
      ℕ → NewTenant → AuditEntry V → State V → Result (Tenant V) × State V
  create_tenant now n audit s =
      if any (λ t. t.tax_id == n.tax_id) s.tenants
      then (err (conflict (tenant_exists n.tax_id)), s)
      else (
        ok (new_tenant now n),
        record s { tenants = s.tenants ++ new_tenant now n ∷ []; audit = s.audit ++ audit ∷ [] },
      )
