-- ===== src/Tests/Webhooks.antt =====
-- The dispatcher at work: a delivery that its target accepts, in a store with no other.
use dian_service.Base.{ℕ, ◌≡◌, ◌≤◌, refl, List, length, ◌∷◌, [], none, true, lookup, adjust}
use dian_service.Base.Int.{pos}
use dian_service.Domain.Errors.{Result, ok}
use dian_service.Domain.Ports.{WebhookDelivery}
use dian_service.Store.State.{StoredDelivery}
use dian_service.Store.Deliveries.{
  change_delivery, complete_delivery, claim_deliveries, claim_each, due_deliveries,
}
use dian_service.Store.Queue.{sort_by_key, place}
use dian_service.Application.World.{World, ◌>>=◌, and_then, or_stop, give, port, remote, utc_now}
use dian_service.Application.Webhooks.Delivery.{
  DispatchStats, Outcome, delivered, retried, dead, default_dispatch, posted, deliver, deliver_all,
  run_once,
}
use dian_service.Application.Webhooks.Results.{
  Recorded, deliver-Recorded, run_once-total, total, Results, number_of,
}
use dian_service.Tests.Samples.{Sample, fields, no_more, empty}
use dian_service.Tests.Processing.{outside, world}

abbrev stored_delivery : StoredDelivery Sample
stored_delivery = record {
  id = 41;
  webhook_id = 5;
  document_id = 21;
  event_type = "document.accepted";
  details = fields no_more;
  status = "queued";
  attempts = 0;
  max_attempts = 10;
  run_at = 60;
  locked_until = none;
  last_error = none;
  last_status_code = none;
  created_at = 60;
}

abbrev to_post : WebhookDelivery Sample
to_post = record {
  id = 41;
  tenant_id = 7;
  event_type = "document.accepted";
  details = fields no_more;
  attempts = 1;
  max_attempts = 10;
  created_at = 60;
  target_url = "https://example.com/hook";
  secret = "secret";
  active = true;
}

abbrev with_delivery : World Sample
with_delivery = record world { store = record empty { deliveries = (41, stored_delivery) ∷ [] } }

abbrev accepts : ℕ → WebhookDelivery Sample → ℕ → Result ℕ
accepts n d now = ok 204

posted_well : (deliver outside default_dispatch accepts to_post 100 with_delivery).0 ≡ ok delivered
unfolding deliver posted ◌>>=◌ and_then or_stop give port remote complete_delivery change_delivery
    lookup adjust
posted_well = refl

deliver-Recorded_example :
    Recorded 41 delivered
      (deliver outside default_dispatch accepts to_post 100 with_delivery).1.store
deliver-Recorded_example =
    deliver-Recorded outside default_dispatch accepts to_post 100 with_delivery delivered
      posted_well

abbrev stats : DispatchStats
stats = record { claimed = 1; delivered = 1; retried = 0; dead = 0 }

one_pass : (run_once outside default_dispatch accepts (pos 10) with_delivery).0 ≡ ok stats
unfolding run_once deliver_all deliver posted ◌>>=◌ and_then or_stop give port remote utc_now
    complete_delivery change_delivery claim_deliveries claim_each due_deliveries sort_by_key place
    lookup adjust
one_pass = refl

run_once-total_example :
    (ds : List (WebhookDelivery Sample)) × (rs : List (Result Outcome)) × ((port outside
        (λ n. claim_deliveries (outside.utc n) (pos 10) 60000)
        with_delivery).0
      ≡ ok ds)
    × Results outside default_dispatch accepts ds rs
        (port outside (λ n. claim_deliveries (outside.utc n) (pos 10) 60000) with_delivery).1
    × (1 ≡ length ds)
    × (1 ≡ number_of delivered rs)
    × (0 ≡ number_of retried rs)
    × (0 ≡ number_of dead rs)
    × (total stats ≤ 1)
run_once-total_example =
    run_once-total outside default_dispatch accepts (pos 10) with_delivery stats one_pass
