-- ===== src/Application/Admin.antt =====
-- application/src/admin.rs: the administration of the platform.
use dian_service.Base.{
  ℕ, Bool, List, [], ◌∷◌, Option, none, some, String, string_eq, min, max, if◌then◌else◌,
}
use Prim.Native.String.{◌++◌, slice}
use dian_service.Base.Int.{ℤ, pos, pos_part}
use dian_service.Domain.Errors.{
  Result, ok, err, Message, not_found, tenant_id, api_key_id, dead_job_id, dead_delivery_id,
}
use dian_service.Domain.Json.{Json}
use dian_service.Domain.Models.{
  Tenant, Certificate, NumberingRange, ApiKeyRecord, DeadJob, DeadDelivery, AuditEntry,
}
use dian_service.Store.Admin.{
  find_tenant, create_tenant as store_tenant, create_api_key as store_api_key,
  list_api_keys as stored_api_keys, add_numbering_range, revoke_api_key as revoke_stored_key,
  activate_certificate, list_dead_jobs, list_dead_deliveries, retry_dead_job as retry_stored_job,
  retry_dead_delivery as retry_stored_delivery,
}
use dian_service.Application.World.{
  Outside, Action, give, ◌>>=◌, and_then, port, case_option, case_result,
}
use dian_service.Domain.EnumText.{document_type_str}
use dian_service.Application.Requests.{
  checked_text, CreateTenant, IssuedApiKey, RegisterCertificate, checked_tenant,
  checked_certificate,
}
use dian_service.Application.Requests.Ranges.{RegisterNumberingRange, checked_range}

abbrev pub max_list_limit : ℕ
max_list_limit = 200

abbrev pub key_prefix : String
key_prefix = "dsk_"

abbrev pub visible_prefix_len : ℕ
visible_prefix_len = 12

abbrev audit : {V : Type 0} → String → Option ℕ → Option ℕ → V → AuditEntry V
audit action tenant subject details = record {
  action = action;
  tenant_id = tenant;
  subject_id = subject;
  details = details;
}

module _ {V : Type 0} (J : Json V) (O : Outside V) where
  -- `self.tenant(id)?`
  unfoldable pub with_tenant :
      {A : Type 0} → ℕ → (Tenant V → Action V (Result A)) → Action V (Result A)
  with_tenant id rest = port O (λ _ s. (find_tenant s id, s)) >>= λ found.
      case_option found (give (err (not_found (tenant_id id)))) rest

  -- The id of a new record is the fresh one of the call that stores it.
  unfoldable pub create_tenant : CreateTenant → Action V (Result (Tenant V))
  create_tenant r w =
      let id = O.new_id w.calls 0 in
      case_result (checked_tenant id r)
        (λ t. port O (λ n. store_tenant J (O.utc n) t (
          audit "tenant.created" (some id) (some id)
            (J.object (("tax_id", J.of_str t.tax_id) ∷ [])))))
        (λ e. give (err e)) w

  -- The secret is 64 random hex digits, and `hash` is SHA-256.
  unfoldable pub create_api_key :
      (String → String) → String → ℕ → String → Action V (Result IssuedApiKey)
  create_api_key hash secret tenant name = with_tenant tenant (λ _.
      case_result (checked_text "name" name 100)
        (λ name w.
          let id = O.new_id w.calls 0 in
          let key = key_prefix ++ secret in
          let prefix = slice key 0 visible_prefix_len in
          and_then
            (port O (λ n.
              store_api_key
                (record {
                  id = id;
                  tenant_id = tenant;
                  name = name;
                  prefix = prefix;
                  key_hash = hash key;
                  created_at = O.utc n;
                  revoked_at = none;
                })
                (audit "api_key.created" (some tenant) (some id)
                  (J.object (("name", J.of_str name) ∷ ("prefix", J.of_str prefix) ∷ [])))))
            (λ _. give (ok (record { id = id; name = name; prefix = prefix; key = key }))) w)
        (λ e. give (err e)))

  unfoldable pub list_api_keys : ℕ → Action V (Result (List ApiKeyRecord))
  list_api_keys tenant =
      with_tenant tenant (λ _. port O (λ _ s. (ok (stored_api_keys s tenant), s)))

  -- `Ok` if the store has done it, and else not found.
  abbrev pub done_or : Message → Action V (Result Bool) → Action V (Result (Unit {0}))
  done_or m action =
      and_then action (λ done. if done then give (ok tt) else give (err (not_found m)))

  unfoldable pub revoke_api_key : ℕ → ℕ → Action V (Result (Unit {0}))
  revoke_api_key tenant key = done_or (api_key_id key) (
      port O (λ n.
        revoke_stored_key (O.utc n) tenant key
          (audit "api_key.revoked" (some tenant) (some key) (J.object []))))

  unfoldable pub register_certificate :
      (Certificate → V) → ℕ → RegisterCertificate → Action V (Result Certificate)
  register_certificate details tenant r = with_tenant tenant (λ _ w.
      case_result (checked_certificate (O.new_id w.calls 0) (O.utc w.calls) tenant r)
        (λ certificate.
          and_then
            (port O (λ _. activate_certificate certificate (
              audit "certificate.activated" (some tenant) (some certificate.id)
                (details certificate))))
            (λ _. give (ok certificate)))
        (λ e. give (err e)) w)

  unfoldable pub register_numbering_range :
      ℕ → RegisterNumberingRange → Action V (Result NumberingRange)
  register_numbering_range tenant r = with_tenant tenant (λ _ w.
      case_result (checked_range (O.new_id w.calls 0) tenant r)
        (λ range.
          and_then
            (port O (λ _. add_numbering_range range (
              audit "numbering_range.created" (some tenant) (some range.id) (
                J.object (
                  ("document_type", J.of_str (document_type_str range.document_type))
                  ∷ ("prefix", J.of_str range.prefix)
                  ∷ ("from_number", J.of_int range.from_number)
                  ∷ ("to_number", J.of_int range.to_number)
                  ∷ [])))))
            (λ _. give (ok range)))
        (λ e. give (err e)) w)

  -- `limit.clamp(1, MAX_LIST_LIMIT)`
  abbrev pub clamped : ℤ → ℤ
  clamped limit = pos (min (max (pos_part limit) 1) max_list_limit)

  unfoldable pub dead_jobs : ℤ → Action V (List DeadJob)
  dead_jobs limit = port O (λ _ s. (list_dead_jobs s (clamped limit), s))

  unfoldable pub retry_dead_job : ℕ → Action V (Result (Unit {0}))
  retry_dead_job job = done_or (dead_job_id job) (
      port O
        (λ n. retry_stored_job (O.utc n) job (audit "job.retried" none (some job) (J.object []))))

  unfoldable pub dead_deliveries : ℤ → Action V (List DeadDelivery)
  dead_deliveries limit = port O (λ _ s. (list_dead_deliveries s (clamped limit), s))

  unfoldable pub retry_dead_delivery : ℕ → Action V (Result (Unit {0}))
  retry_dead_delivery delivery = done_or (dead_delivery_id delivery) (
      port O (λ n.
        retry_stored_delivery (O.utc n) delivery
          (audit "webhook_delivery.retried" none (some delivery) (J.object []))))
