-- ===== src/Application/Webhooks/Delivery.antt =====
-- application/src/webhooks.rs: `WebhookDispatcher`. The deliveries of a pass run in parallel; here they
-- run one after the other, with the other tasks in between. A result is the store's answer to the
-- call that records it. Headers and body are made by the packages hmac and serde_json.
use dian_service.Base.{
  ℕ, ◌+◌, ◌&&◌, not, List, [], ◌∷◌, Option, none, some, length, ltb, leb, if◌then◌else◌,
}
use dian_service.Base.Int.{ℤ, pos}
use dian_service.Domain.Errors.{Result, ok, err, Message, fixed, shown, http_status}
use dian_service.Domain.Ports.{WebhookDelivery}
use dian_service.Store.Deliveries.{
  claim_deliveries, complete_delivery, retry_delivery, bury_delivery,
}
use dian_service.Application.Resilience.{delay_with_jitter}
use dian_service.Application.Processing.{span}
use dian_service.Application.World.{
  Outside, Action, give, ◌>>=◌, and_then, port, remote, utc_now, case_result,
}

pub record DispatchConfig : Type 0 where
  pub lease : ℕ
  pub backoff_base : ℕ
  pub backoff_max : ℕ

abbrev pub default_dispatch : DispatchConfig
default_dispatch = record { lease = 60000; backoff_base = 30000; backoff_max = 3600000 }

pub record DispatchStats : Type 0 where
  pub claimed : ℕ
  pub delivered : ℕ
  pub retried : ℕ
  pub dead : ℕ

pub data Outcome : Type 0 where
  delivered retried dead : Outcome

abbrev pub count : Result Outcome → DispatchStats → DispatchStats
count (ok delivered) s = record s { delivered = s.delivered + 1 }
count (ok retried) s = record s { retried = s.retried + 1 }
count (ok dead) s = record s { dead = s.dead + 1 }
count (err e) s = s

module _ {V : Type 0} (O : Outside V) (c : DispatchConfig)
    -- `WebhookSender::post` of the signed body, by the number of calls made: a status code.
    (post : ℕ → WebhookDelivery V → ℕ → Result ℕ) where
  unfoldable pub bury : WebhookDelivery V → Message → Option ℕ → Action V (Result Outcome)
  bury d error status_code =
      and_then (port O (λ _. bury_delivery d.id error status_code)) (λ _. give (ok dead))

  unfoldable pub retry : WebhookDelivery V → ℕ → Message → Option ℕ → Action V (Result Outcome)
  retry d now error status_code =
      remote O (λ n.
        span (delay_with_jitter (O.random n) (pos d.attempts) c.backoff_base c.backoff_max) 3600000)
      >>= λ delay.
          and_then (port O (λ _. retry_delivery d.id (now + delay) error status_code))
            (λ _. give (ok retried))

  unfoldable pub failed : WebhookDelivery V → ℕ → Message → Option ℕ → Action V (Result Outcome)
  failed d now error status_code =
      if leb d.max_attempts d.attempts
      then bury d error status_code
      else retry d now error status_code

  unfoldable pub posted : WebhookDelivery V → ℕ → ℕ → Action V (Result Outcome)
  posted d now code =
      if leb 200 code && ltb code 300
      then and_then (port O (λ _. complete_delivery d.id code)) (λ _. give (ok delivered))
      else failed d now (http_status code) (some code)

  unfoldable pub deliver : WebhookDelivery V → ℕ → Action V (Result Outcome)
  deliver d now =
      if not d.active
      then bury d (fixed "subscription inactive") none
      else remote O (λ n. post n d now) >>= λ r.
          case_result r (posted d now) (λ e. failed d now (shown e) none)

  unfoldable pub deliver_all : List (WebhookDelivery V) → DispatchStats → Action V DispatchStats
  deliver_all [] s = give s
  deliver_all (d ∷ ds) s = utc_now O >>= λ now. deliver d now >>= λ r. deliver_all ds (count r s)

  unfoldable pub run_once : ℤ → Action V (Result DispatchStats)
  run_once limit = and_then (port O (λ n. claim_deliveries (O.utc n) limit c.lease)) (λ ds.
      deliver_all ds (record { claimed = length ds; delivered = 0; retried = 0; dead = 0 }) >>= λ s.
      give (ok s))
