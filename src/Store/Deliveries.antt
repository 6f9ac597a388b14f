-- ===== src/Store/Deliveries.antt =====
-- core-domain/src/testing.rs, `impl WebhookRepository for InMemoryStore`.
use dian_service.Base.{
  ℕ, ◌+◌, Bool, true, false, ◌&&◌, ◌||◌, not, List, [], ◌∷◌, ◌++◌, Option, none, some, Dict, lookup,
  adjust, values, keep, find, map, take, any, ◌==◌, ℕ_eq, string_eq, leb, if◌then◌else◌,
}
use dian_service.Base.Int.{ℤ, pos_part}
use dian_service.Domain.Enums.{active, subscription_status_eq}
use dian_service.Domain.Errors.{Result, ok, err, Message, internal, not_found, fixed, delivery_id}
use dian_service.Domain.Models.{Webhook}
use dian_service.Domain.Ports.{WebhookDelivery}
use dian_service.Store.State.{State, StoredDelivery}
use dian_service.Store.Queue.{lease_expired, sort_by_key}

-- `HashMap::retain` on the values.
unfoldable pub retain {ℓ} : {V : Type ℓ} → (V → Bool) → Dict V → Dict V
retain p [] = []
retain p ((k, v) ∷ m) = if p v then (k, v) ∷ retain p m else retain p m

abbrev pub is_webhook : ℕ → ℕ → Webhook → Bool
is_webhook tenant id w = w.id == id && w.tenant_id == tenant

module _ {V : Type 0} where
  unfoldable pub create_webhook : Webhook → State V → Result (Unit {0}) × State V
  create_webhook w s = (ok tt, record s { webhooks = s.webhooks ++ w ∷ [] })

  unfoldable pub list_webhooks : State V → ℕ → List Webhook
  list_webhooks s tenant = keep (λ w. w.tenant_id == tenant) s.webhooks

  -- `deleted` is that the list got shorter: that some webhook was not kept.
  unfoldable pub delete_webhook : ℕ → ℕ → State V → Result Bool × State V
  unfolding retain
  delete_webhook tenant id s =
      if any (is_webhook tenant id) s.webhooks
      then (
        ok true,
        record s {
          webhooks = keep (λ w. not (is_webhook tenant id w)) s.webhooks;
          deliveries = retain (λ d. not (d.webhook_id == id)) s.deliveries;
        },
      )
      else (ok false, record s { webhooks = keep (λ w. not (is_webhook tenant id w)) s.webhooks })

  abbrev pub due : ℕ → StoredDelivery V → Bool
  due now d =
      d.status == "queued" && leb d.run_at now
      || d.status == "running" && lease_expired now d.locked_until

  abbrev pub delivery_run_at : State V → ℕ → ℕ
  delivery_run_at s id = elim (lookup id s.deliveries) [ none ↦ 0 | some d ↦ d.run_at ]

  unfoldable pub due_deliveries : ℕ → ℤ → State V → List ℕ
  unfolding sort_by_key
  due_deliveries now limit s =
      take (pos_part limit)
        (sort_by_key (delivery_run_at s) (map (λ d. d.id) (keep (due now) (values s.deliveries))))

  abbrev pub begin_delivery : ℕ → StoredDelivery V → StoredDelivery V
  begin_delivery until d = record d {
    status = "running";
    attempts = d.attempts + 1;
    locked_until = some until;
  }

  abbrev pub to_send : Webhook → StoredDelivery V → WebhookDelivery V
  to_send w d = record {
    id = d.id;
    tenant_id = w.tenant_id;
    event_type = d.event_type;
    details = d.details;
    attempts = d.attempts;
    max_attempts = d.max_attempts;
    created_at = d.created_at;
    target_url = w.target_url;
    secret = w.webhook_secret;
    active = w.subscription_status == active;
  }

  -- The ids are those of stored deliveries, so the `none` case is not reached. A delivery with no
  -- webhook ends the loop with an error, after it was marked.
  unfoldable pub claim_each : ℕ → List ℕ → State V → Result (List (WebhookDelivery V)) × State V
  claim_each until [] s = (ok [], s)
  claim_each until (id ∷ ids) s =
      let t = record s { deliveries = adjust id (begin_delivery until) s.deliveries } in
      let rest = claim_each until ids t in
      elim (lookup id s.deliveries) [
        | none ↦ rest
        | some d ↦ elim (find (λ w. w.id == d.webhook_id) s.webhooks) [
          | none ↦ (err (internal (fixed "delivery without webhook")), t)
          | some w ↦ elim rest.0 [
            | ok ds ↦ (ok (to_send w (begin_delivery until d) ∷ ds), rest.1)
            | err e ↦ (err e, rest.1)
          ]
        ]
      ]

  unfoldable pub claim_deliveries :
      ℕ → ℤ → ℕ → State V → Result (List (WebhookDelivery V)) × State V
  unfolding due_deliveries claim_each
  claim_deliveries now limit lease s = claim_each (now + lease) (due_deliveries now limit s) s

  unfoldable pub change_delivery :
      ℕ → (StoredDelivery V → StoredDelivery V) → State V → Result (Unit {0}) × State V
  change_delivery id f s = elim (lookup id s.deliveries) [
    | none ↦ (err (not_found (delivery_id id)), s)
    | some _ ↦ (ok tt, record s { deliveries = adjust id f s.deliveries })
  ]

  unfoldable pub complete_delivery : ℕ → ℕ → State V → Result (Unit {0}) × State V
  unfolding change_delivery
  complete_delivery id status_code = change_delivery id λ d. record d {
    status = "delivered";
    locked_until = none;
    last_status_code = some status_code;
  }

  unfoldable pub retry_delivery : ℕ → ℕ → Message → Option ℕ → State V → Result (Unit {0}) × State V
  unfolding change_delivery
  retry_delivery id run_at error status_code = change_delivery id λ d. record d {
    status = "queued";
    run_at = run_at;
    locked_until = none;
    last_error = some error;
    last_status_code = status_code;
  }

  unfoldable pub bury_delivery : ℕ → Message → Option ℕ → State V → Result (Unit {0}) × State V
  unfolding change_delivery
  bury_delivery id error status_code = change_delivery id λ d. record d {
    status = "dead";
    locked_until = none;
    last_error = some error;
    last_status_code = status_code;
  }
