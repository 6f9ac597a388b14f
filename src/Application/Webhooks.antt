-- ===== src/Application/Webhooks.antt =====
-- application/src/webhooks.rs: subscriptions and the delivery of notifications. A duration is in
-- milliseconds. The parsing of URLs, the HMAC and the JSON text come from packages.
pub mod Delivery
pub mod Results
use dian_service.Base.{
  ℕ, suc, ◌+◌, ◌-◌, ◌^◌, Bool, true, false, ◌&&◌, ◌||◌, not, List, [], ◌∷◌, ◌++◌, Option, none,
  some, String, ◌⊎◌, inl, inr, length, map, ltb, leb, ◌==◌, string_eq, if◌then◌else◌,
}
use Prim.Native.String.{len}
use dian_service.Base.Int.{ℤ, pos}
use dian_service.Base.Text.{codes, lowercase, trim_end, eq_codes, ends_with, contains}
use dian_service.Domain.Address.{IpAddr, is_public_ip}
use dian_service.Domain.Enums.{active}
use dian_service.Domain.EnumText.{subscription_status_str}
use dian_service.Domain.Errors.{
  Result, ok, err, DomainError, Message, validation, not_found, fixed, shown, http_status,
  webhook_id, bad_url, too_many_webhooks,
}
use dian_service.Domain.Models.{Tenant, Webhook}
use dian_service.Domain.Notify.{is_valid_subscription}
use dian_service.Domain.Ports.{WebhookDelivery}
use dian_service.Store.State.{State}
use dian_service.Store.Deliveries.{
  create_webhook, list_webhooks, delete_webhook, claim_deliveries, complete_delivery,
  retry_delivery, bury_delivery,
}
use dian_service.Application.Resilience.{backoff_with_jitter}
use dian_service.Application.Processing.{span}
use dian_service.Application.World.{
  World, Outside, Action, give, ◌>>=◌, ◌>>◌, and_then, port, remote, utc_now, case_result,
}

abbrev pub max_webhooks_per_tenant : ℕ
max_webhooks_per_tenant = 10

-- What `url::Url` says of a target.
pub data Host : Type 0 where
  domain : String → Host
  address : IpAddr → Host

pub record Url : Type 0 where
  pub scheme : String
  pub has_credentials : Bool
  pub host : Option Host

pub record DestinationPolicy : Type 0 where
  pub allow_http : Bool
  pub allow_private_networks : Bool

abbrev pub invalid : String → Result (Unit {0})
invalid m = err (validation (bad_url m))

-- `localhost`, a name below it, or a name with no dot.
unfoldable pub is_local_domain : String → Bool
is_local_domain name =
    let d = lowercase (trim_end 46 (codes name)) in
    eq_codes d (codes "localhost") || ends_with d (codes ".localhost") || not (contains 46 d)

unfoldable pub check_host : Option Host → Result (Unit {0})
check_host none = invalid "sin host"
check_host (some (domain d)) =
    if is_local_domain d then invalid "el host debe ser un dominio publico" else ok tt
check_host (some (address ip)) =
    if is_public_ip ip then ok tt else invalid "la direccion IP no es publica"

unfoldable pub check_url : DestinationPolicy → Url → Result (Unit {0})
check_url p url =
    if not (url.scheme == "https" || (url.scheme == "http" && p.allow_http))
    then invalid "debe usar https"
    else if url.has_credentials
    then invalid "no puede incluir credenciales"
    else if p.allow_private_networks
    then ok tt
    else check_host url.host

-- `DestinationPolicy::check`; the parser is that of the package `url`.
unfoldable pub check : (String → String ⊎ Url) → DestinationPolicy → String → Result (Unit {0})
check parse p target_url =
    if ltb 1024 (len target_url)
    then invalid "demasiado larga"
    else elim (parse target_url) [ inl e ↦ invalid e | inr url ↦ check_url p url ]

pub record RegisteredWebhook : Type 0 where
  pub id : ℕ
  pub target_url : String
  pub event_type : String
  pub secret : String

pub record WebhookView : Type 0 where
  pub id : ℕ
  pub target_url : String
  pub event_type : String
  pub status : String

module _ {V : Type 0} (O : Outside V) (parse : String → String ⊎ Url) (p : DestinationPolicy) where
  -- The id and the secret of a new subscription are random.
  unfoldable pub subscribe :
      Tenant V → String → String → ℕ → String → Action V (Result RegisteredWebhook)
  subscribe tenant target_url event_type id secret =
      and_then
        (port O (λ _. create_webhook (record {
          id = id;
          tenant_id = tenant.id;
          target_url = target_url;
          webhook_secret = secret;
          event_type = event_type;
          subscription_status = active;
        })))
        (λ _. give (
          ok (record {
            id = id;
            target_url = target_url;
            event_type = event_type;
            secret = secret;
          })))

  unfoldable pub register :
      Tenant V → String → String → ℕ → String → Action V (Result RegisteredWebhook)
  register tenant target_url event_type id secret =
      if not (is_valid_subscription event_type)
      then give (err (validation (fixed "event_type debe ser '*' o uno de los eventos")))
      else case_result (check parse p target_url)
          (λ _. port O (λ _ s. (list_webhooks s tenant.id, s)) >>= λ webhooks.
            if leb max_webhooks_per_tenant (length webhooks)
            then give (err (validation (too_many_webhooks max_webhooks_per_tenant)))
            else subscribe tenant target_url event_type id secret)
          (λ e. give (err e))

module _ {V : Type 0} (O : Outside V) where
  unfoldable pub list : Tenant V → Action V (Result (List WebhookView))
  list tenant = port O (λ _ s. (list_webhooks s tenant.id, s)) >>= λ webhooks. give (
      ok (
        map
          (λ w. record {
            id = w.id;
            target_url = w.target_url;
            event_type = w.event_type;
            status = subscription_status_str w.subscription_status;
          })
          webhooks))

  unfoldable pub delete : Tenant V → ℕ → Action V (Result (Unit {0}))
  delete tenant id =
      and_then (port O (λ _. delete_webhook tenant.id id))
        (λ deleted. if deleted then give (ok tt) else give (err (not_found (webhook_id id))))
