-- ===== src/Tests/Samples.antt =====
-- Sample data: JSON values and the records of a small store.
use dian_service.Base.{
  ℕ, Bool, ◌≡◌, refl, List, [], ◌∷◌, Option, none, some, String, ◌==◌, string_eq, if◌then◌else◌,
}
use dian_service.Base.Int.{ℤ, pos}
use dian_service.Domain.Enums.{transmit, invoice, active}
use dian_service.Domain.Json.{Json, IsJson, field, or_else}
use dian_service.Domain.Models.{NumberingRange, NewJob, Webhook}
use dian_service.Domain.Ports.{NewOutboundDocument}
use dian_service.Store.State.{State}

mutual
  pub data Sample : Type 0 where
    null : Sample
    text : String → Sample
    number : ℤ → Sample
    flag : Bool → Sample
    uuid : ℕ → Sample
    fields : Fields → Sample

  pub data Fields : Type 0 where
    no_more : Fields
    one_more : String → Sample → Fields → Fields

abbrev fields_of : List (String × Sample) → Fields
fields_of [] = no_more
fields_of ((k, v) ∷ fs) = one_more k v (fields_of fs)

abbrev get_field : Fields → String → Option Sample
get_field no_more k = none
get_field (one_more j v fs) k = or_else (get_field fs k) (if j == k then some v else none)

abbrev get_sample : Sample → String → Option Sample
get_sample (fields fs) k = get_field fs k
get_sample _ k = none

abbrev set_field : Fields → String → Sample → Fields
set_field no_more k w = one_more k w no_more
set_field (one_more j v fs) k w =
    if j == k then one_more k w fs else one_more j v (set_field fs k w)

abbrev set_sample : Sample → String → Sample → Sample
set_sample (fields fs) k w = fields (set_field fs k w)
set_sample v k w = v

abbrev text_of : Sample → Option String
text_of (text s) = some s
text_of _ = none

abbrev flag_of : Sample → Option Bool
flag_of (flag b) = some b
flag_of _ = none

abbrev pub sample_json : Json Sample
sample_json = record {
  null = null;
  of_str = text;
  of_int = number;
  of_bool = flag;
  of_uuid = uuid;
  object = λ fs. fields (fields_of fs);
  get = get_sample;
  as_str = text_of;
  as_bool = flag_of;
  set = set_sample;
}

get_field-fields_of :
    (k : String) (fs : List (String × Sample)) → get_field (fields_of fs) k ≡ field k fs
get_field-fields_of k [] = refl
get_field-fields_of k ((j, v) ∷ fs) = rw (get_field-fields_of k fs) refl

pub sample_json-IsJson : IsJson sample_json
sample_json-IsJson = record {
  as_str-of_str = λ s. refl;
  as_bool-of_bool = λ b. refl;
  get-object = get_field-fields_of;
}

abbrev pub range : NumberingRange
range = record {
  id = 1;
  tenant_id = 7;
  document_type = invoice;
  prefix = "FE";
  from_number = pos 1;
  to_number = pos 100;
  technical_key = "tk";
  valid_date_from = 10;
  valid_date_to = 1000;
  current_counter = pos 0;
}

abbrev pub webhook : Webhook
webhook = record {
  id = 5;
  tenant_id = 7;
  target_url = "https://example.com/hook";
  webhook_secret = "secret";
  event_type = "*";
  subscription_status = active;
}

-- One range and one webhook.
abbrev pub empty : State Sample
empty = record {
  tenants = [];
  certificates = [];
  ranges = (1, range) ∷ [];
  documents = [];
  events = [];
  jobs = [];
  idempotency = [];
  webhooks = webhook ∷ [];
  deliveries = [];
  api_keys = [];
  audit = [];
}

-- The request for the `id`-th document, with an idempotency key.
abbrev pub request : ℕ → String → NewOutboundDocument Sample
request id key = record {
  id = id;
  tenant_id = 7;
  document_type = invoice;
  prefix = "FE";
  requested_number = none;
  payload = fields no_more;
  idempotency = some (record { key = key; request_hash = "hash" });
}

abbrev pub first_job : ℕ → ℕ → NewJob Sample
first_job id document_id = record {
  id = id;
  kind = transmit;
  document_id = document_id;
  payload = fields no_more;
  max_attempts = 5;
  run_at = 50;
}
