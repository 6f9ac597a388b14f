-- ===== src/Domain/Jobs.antt =====
-- core-domain/src/jobs.rs.
use dian_service.Base.{ℕ, ◌≡◌, Bool, ◌∷◌, [], Option, none, some, String, leb}
use dian_service.Domain.Enums.{JobKind}
use dian_service.Domain.Json.{Json, IsJson}
use dian_service.Domain.Models.{Job, NewJob}

module _ {V : Type 0} where
  unfoldable pub is_last_attempt : Job V → Bool
  is_last_attempt j = leb j.max_attempts j.attempts

module _ {V : Type 0} (J : Json V) where
  -- `payload.get("zip_key").and_then(Value::as_str)`
  unfoldable pub zip_key : Job V → Option String
  zip_key j = elim (J.get j.payload "zip_key") [ none ↦ none | some v ↦ J.as_str v ]

  -- The fresh id and the time of the call are arguments.
  unfoldable pub new_transmit : ℕ → ℕ → ℕ → ℕ → NewJob V
  new_transmit id now document_id max_attempts = record {
    id = id;
    kind = JobKind.transmit;
    document_id = document_id;
    payload = J.object [];
    max_attempts = max_attempts;
    run_at = now;
  }

  unfoldable pub new_poll_status : ℕ → ℕ → String → ℕ → ℕ → NewJob V
  new_poll_status id document_id key max_attempts run_at = record {
    id = id;
    kind = JobKind.poll_status;
    document_id = document_id;
    payload = J.object (("zip_key", J.of_str key) ∷ []);
    max_attempts = max_attempts;
    run_at = run_at;
  }

  -- A job that has the payload of a poll job built with a key gives that key back, for JSON values with
  -- the laws of IsJson.
  pub zip_key-new_poll_status :
      IsJson J
      → (j : Job V) (id document_id : ℕ) (key : String) (max_attempts run_at : ℕ)
      → j.payload ≡ (new_poll_status id document_id key max_attempts run_at).payload
      → zip_key j ≡ some key
  unfolding zip_key new_poll_status
  zip_key-new_poll_status L j id document_id key max_attempts run_at e =
      rw (e, zip_key, L.get-object) (L.as_str-of_str key)
