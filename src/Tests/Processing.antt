-- ===== src/Tests/Processing.antt =====
-- The theorems of the processing at work: an invoice is issued, claimed and accepted.
use dian_service.Base.{◌+◌, ◌*◌, ◌≡◌, refl, none, some, String, inr, ◌∷◌, [], lookup}
use dian_service.Base.Int.{pos}
use dian_service.Domain.Enums.{transmit, running}
use dian_service.Domain.Errors.{ok}
use dian_service.Domain.Models.{Document, Job}
use dian_service.Store.State.{StoredJob}
use dian_service.Domain.Ports.{DianResponse}
use dian_service.Store.Documents.{issued_document}
use dian_service.Store.Outcome.{Settled}
use dian_service.Base.{adjust}
use dian_service.Domain.Lifecycle.{can_transition_to}
use dian_service.Domain.Notify.{event_for}
use dian_service.Domain.Ports.{new_transition, with_event, with_job}
use dian_service.Store.State.{change_job}
use dian_service.Store.Documents.{find_document, find_numbering_range, store_artifacts}
use dian_service.Store.Transitions.{
  apply_transition, finish, close_job, enqueue_follow_up, push_event, notify, set_status,
  enqueue_deliveries,
}
use dian_service.Application.Resilience.{
  can_execute, for_environment, record_success, set_environment,
}
use dian_service.Application.World.{◌>>=◌, port, on_breaker, remote, give, send, and_then, or_stop}
use dian_service.Application.Processing.{
  is_habilitacion, test_set_id, is_accepted, event_of, transition,
}
use dian_service.Application.Processing.Artifacts.{
  artifacts, issuer_nit_of, payload_with_number, already_signed, sign_new, generate, generate_as,
  technical_key, store_signed,
}
use dian_service.Application.Processing.Transmission.{
  with_document, transmit_pending, may_execute, transmit_signed, accepted_before, deliver,
  send_sync, answered, report_success, conclude,
}
use dian_service.Application.Engine.{Engine}
use dian_service.Application.Resilience.{CircuitBreaker, closed}
use dian_service.Application.World.{World, Outside}
use dian_service.Application.Processing.{default_config}
use dian_service.Application.Processing.Polling.{process}
use dian_service.Application.Processing.Transmission.{transmit as transmit_job}
use dian_service.Application.Processing.Outcomes.{process-Settled}
use dian_service.Application.Processing.Waiting.{NotForgotten, transmit-NotForgotten}
use dian_service.Tests.Samples.{Sample, fields, no_more, sample_json, empty, request, range}

abbrev engine : Engine Sample String String String
engine = record {
  read_invoice = λ v. inr "900";
  read_payroll = λ v. inr "900";
  read_support = λ v. inr "900";
  company_nit = λ p. p;
  employer_nit = λ p. p;
  buyer_nit = λ p. p;
  technical_key = λ p. none;
  generate_invoice_xml = λ p key. inr ("<Invoice/>", key);
  generate_payroll_xml = λ p. inr ("<Payroll/>", "cune");
  generate_support_document_xml = λ p. inr ("<Invoice/>", "cuds");
  compress_xml_to_zip = λ xml nit prefix number. inr (1 ∷ 2 ∷ []);
}

-- Everything works, and no other task is there.
abbrev pub outside : Outside Sample
outside = record {
  utc = λ n. 100 + n;
  instant = λ n. 100 + n;
  random = λ n. 0;
  new_id = λ n i. 1000 + 10 * n + i;
  others = λ n s. s;
  other_breakers = λ n b. b;
  sign = λ n tenant xml. ok "<signed/>";
  get_status = λ n tenant cufe is_hab. ok accepted;
  get_status_zip = λ n tenant key is_hab. ok accepted;
  send_bill_sync = λ n tenant zip is_hab. ok accepted;
  send_test_set_async = λ n tenant zip test_set is_hab. ok "key-1";
}
  where
    accepted : DianResponse
    accepted = record {
      status_code = "00";
      message = "ok";
      xml_response = none;
      soap_trace_id = none;
    }

abbrev waiting : Document Sample
waiting = issued_document 50 (request 21 "a") range (pos 1)

abbrev held : StoredJob Sample
held = record {
  id = 31;
  kind = transmit;
  document_id = 21;
  payload = fields no_more;
  status = running;
  attempts = 1;
  max_attempts = 5;
  run_at = 50;
  locked_until = some 700;
  last_error = none;
}

abbrev claimed_job : Job Sample
claimed_job = record {
  id = 31;
  kind = transmit;
  document_id = 21;
  payload = fields no_more;
  attempts = 1;
  max_attempts = 5;
}

abbrev pub world : World Sample
world = record {
  store = record empty { documents = (21, waiting) ∷ []; jobs = (31, held) ∷ [] };
  breakers = record { habilitacion = breaker; produccion = breaker };
  calls = 0;
  sent = [];
}
  where
    breaker : CircuitBreaker
    breaker = record { state = closed; failures = 0; failure_threshold = 3; cooldown = 60 }

transmitted : (transmit_job sample_json engine outside default_config claimed_job world).0 ≡ ok tt
unfolding transmit_job with_document ◌>>=◌ port find_document lookup transmit_pending may_execute
    on_breaker can_execute for_environment is_habilitacion artifacts issuer_nit_of
    payload_with_number already_signed sign_new generate generate_as technical_key
    find_numbering_range store_signed store_artifacts remote give transmit_signed accepted_before
    deliver test_set_id send_sync send answered report_success record_success set_environment
    is_accepted conclude event_of transition and_then or_stop apply_transition can_transition_to
    new_transition with_event with_job finish close_job enqueue_follow_up change_job push_event
    notify set_status event_for enqueue_deliveries adjust
transmitted = refl

processed : (process sample_json engine outside default_config claimed_job world).0 ≡ ok tt
unfolding process
processed = transmitted

process-Settled_example :
    Settled 31 (process sample_json engine outside default_config claimed_job world).1.store
process-Settled_example =
    process-Settled sample_json engine outside default_config claimed_job world processed

transmit-NotForgotten_example :
    NotForgotten 21 31
      (transmit_job sample_json engine outside default_config claimed_job world).1.store
unfolding lookup
transmit-NotForgotten_example =
    transmit-NotForgotten sample_json engine outside default_config claimed_job world (λ n s. refl)
      (refl, refl, tt) transmitted
