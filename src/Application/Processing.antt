-- ===== src/Application/Processing.antt =====
-- application/src/processing.rs: the processing of a claimed job. A duration is in milliseconds.
pub mod Artifacts
pub mod Transmission
pub mod Polling
pub mod Frames
pub mod Safety
pub mod Endings
pub mod Outcomes
pub mod Waiting
use dian_service.Base.{
  ℕ, ◌+◌, ◌-◌, ◌^◌, Bool, true, false, List, [], ◌∷◌, Option, none, some, String, any, ◌==◌,
  string_eq, leb, if◌then◌else◌,
}
use dian_service.Base.Int.{ℤ, pos}
use dian_service.Domain.Enums.{DocumentStatus, EventStatus, processing_failed}
use dian_service.Domain.Errors.{Result, ok, err, Message, fixed}
use dian_service.Domain.Json.{Json}
use dian_service.Domain.Models.{Document, DianEvent, Job, new_event}
use dian_service.Domain.Ports.{
  DianResponse, Transition, new_transition, with_event, with_job, complete,
}
use dian_service.Store.Transitions.{apply_transition}
use dian_service.Store.Queue.{complete as complete_job}
use dian_service.Application.Resilience.{delay_with_jitter}
use dian_service.Application.World.{
  World, Outside, Action, give, ◌>>=◌, ◌>>◌, and_then, port, remote, utc_now,
}

abbrev pub accepted_codes : List String
accepted_codes = "00" ∷ "1" ∷ []

abbrev pub rejected_code : String
rejected_code = "99"

-- `ACCEPTED_CODES.contains(&code)`
unfoldable pub is_accepted : String → Bool
is_accepted code = any (λ c. c == code) accepted_codes

pub record ProcessorConfig : Type 0 where
  pub transmit_max_attempts : ℕ
  pub poll_max_attempts : ℕ
  pub poll_initial_delay : ℕ
  pub backoff_base : ℕ
  pub backoff_max : ℕ

abbrev pub default_config : ProcessorConfig
default_config = record {
  transmit_max_attempts = 5;
  poll_max_attempts = 30;
  poll_initial_delay = 10000;
  backoff_base = 2000;
  backoff_max = 600000;
}

-- `chrono::Duration::from_std(d)`, or `otherwise` where it does not fit.
abbrev pub span : ℕ → ℕ → ℕ
span d otherwise = if leb d (2 ^ 63 - 1) then d else otherwise

unfoldable pub response_event : ℕ → ℕ → ℕ → EventStatus → DianResponse → DianEvent
unfolding new_event
response_event id now document_id status r =
    record (new_event id now document_id status r.status_code (fixed r.message)) {
      soap_trace_id = r.soap_trace_id;
      xml_response = r.xml_response;
    }

module _ {V : Type 0} (J : Json V) where
  unfoldable pub test_set_id : Document V → Option String
  test_set_id d = elim (J.get d.payload "test_set_id") [ none ↦ none | some v ↦ J.as_str v ]

  unfoldable pub is_habilitacion : Document V → Bool
  is_habilitacion d = elim (J.get d.payload "environment") [
    | none ↦ false
    | some v ↦ elim (J.as_str v) [ none ↦ false | some t ↦ t == "2" ]
  ]

module _ {V : Type 0} (J : Json V) (O : Outside V) (c : ProcessorConfig) where
  unfoldable pub retry_delay : ℕ → Action V ℕ
  retry_delay attempt =
      remote O (λ n.
        span (delay_with_jitter (O.random n) (pos attempt) c.backoff_base c.backoff_max) 60000)

  -- A change of a document that has moved on only closes the job.
  unfoldable pub transition : Job V → Transition V → Action V (Result (Unit {0}))
  transition job t =
      and_then (port O (λ n. apply_transition J (O.new_id n) (O.utc n) t))
        (λ moved. if moved then give (ok tt) else port O (λ _. complete_job job.id))

  -- `DianEvent::new` with the id and the time of the moment.
  unfoldable pub event : ℕ → EventStatus → String → Message → Action V DianEvent
  event document_id status code message w =
      (new_event (O.new_id w.calls 0) (O.utc w.calls) document_id status code message, w)

  unfoldable pub event_of : ℕ → EventStatus → DianResponse → Action V DianEvent
  event_of document_id status r w =
      (response_event (O.new_id w.calls 0) (O.utc w.calls) document_id status r, w)

  unfoldable pub fail : Job V → Document V → Message → Action V (Result (Unit {0}))
  fail job d reason = do
    e ← event d.id EventStatus.error "PROCESSING_FAILED" reason
    transition job
        (with_job (with_event (new_transition d.id processing_failed) e) (complete job.id))
