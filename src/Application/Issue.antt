-- ===== src/Application/Issue.antt =====
-- application/src/issue.rs: issuing a document. SHA-256 and serde_json come from packages; the
-- validation of the payloads is that of the crate ubl-engine.
pub mod Authorization
pub mod Payloads
use dian_service.Base.{
  ℕ, Bool, ◌||◌, not, Option, none, some, String, ◌⊎◌, inl, inr, ltb, ◌==◌, string_eq,
  if◌then◌else◌,
}
use Prim.Native.String.{len, ◌++◌}
use dian_service.Base.Int.{ℤ}
use dian_service.Base.Text.{trim, is_ascii}
use dian_service.Domain.Enums.{
  DocumentType, invoice, credit_note, debit_note, payroll, support_document,
}
use dian_service.Domain.EnumText.{document_type_str}
use dian_service.Domain.Errors.{
  Result, ok, err, validation, forbidden, internal, fixed, foreign_nit, key_length, payload_error,
}
use dian_service.Domain.Jobs.{new_transmit}
use dian_service.Domain.Json.{Json}
use dian_service.Domain.Models.{Tenant}
use dian_service.Domain.Ports.{IdempotencyKey, IssueOutcome}
use dian_service.Store.Documents.{issue_outbound}
use dian_service.Application.World.{Outside, Action, give, port, case_result, case_sum}

abbrev pub max_idempotency_key_len : ℕ
max_idempotency_key_len = 255

-- A payload type: its validation, what the use case reads of it, and `serde_json::to_value`.
pub record Payload (V P : Type 0) : Type 0 where
  pub validate : P → String ⊎ Unit {0}
  pub nit : P → String
  pub prefix : P → String
  pub number : P → ℤ
  pub document_type : P → String
  pub to_value : P → String ⊎ V

-- The hex digits of SHA-256, and `Value::to_string`.
pub record Hashing (V : Type 0) : Type 0 where
  pub sha256 : String → String
  pub to_text : V → String

unfoldable pub require_issuer : {V : Type 0} → Tenant V → String → String → Result (Unit {0})
require_issuer tenant nit role =
    if not (nit == tenant.tax_id) then err (forbidden (foreign_nit role)) else ok tt

module _ {V : Type 0} (H : Hashing V) where
  unfoldable pub request_hash : DocumentType → V → String
  request_hash document_type payload =
      H.sha256 (document_type_str document_type ++ "\n" ++ H.to_text payload)

  unfoldable pub checked_key : String → DocumentType → V → Result (Option IdempotencyKey)
  checked_key key document_type payload =
      if key == "" || ltb max_idempotency_key_len (len key) || not (is_ascii key)
      then err (validation (key_length max_idempotency_key_len))
      else ok (some (record { key = key; request_hash = request_hash document_type payload }))

  unfoldable pub idempotency : Option String → DocumentType → V → Result (Option IdempotencyKey)
  idempotency none document_type payload = ok none
  idempotency (some key) document_type payload = checked_key (trim key) document_type payload

-- The type of an invoice or note, by the text in its payload.
unfoldable pub type_of : String → DocumentType
type_of t =
    if t == "credit_note" then credit_note else if t == "debit_note" then debit_note else invoice

module _ {V P : Type 0} (J : Json V) (H : Hashing V) (O : Outside V) (transmit_max_attempts : ℕ)
    (Q : Payload V P) where
  -- The document and its job get the fresh ids of the call.
  unfoldable pub store_document :
      Tenant V
      → DocumentType
      → String
      → Option ℤ
      → V
      → Option IdempotencyKey
      → Action V (Result IssueOutcome)
  store_document tenant document_type prefix requested_number payload key = port O (λ n.
      issue_outbound (O.utc n)
        (record {
          id = O.new_id n 0;
          tenant_id = tenant.id;
          document_type = document_type;
          prefix = prefix;
          requested_number = requested_number;
          payload = payload;
          idempotency = key;
        })
        (new_transmit J (O.new_id n 1) (O.utc n) (O.new_id n 0) transmit_max_attempts))

  unfoldable pub issue :
      Tenant V
      → DocumentType
      → String
      → Option ℤ
      → P
      → Option String
      → Action V (Result IssueOutcome)
  issue tenant document_type prefix requested_number payload key =
      case_sum (Q.to_value payload) (λ e. give (err (internal (fixed e))))
        (λ v.
          case_result (idempotency H key document_type v)
            (store_document tenant document_type prefix requested_number v) (λ e. give (err e)))

  -- What the three entry points do before they issue.
  unfoldable pub authorized :
      Tenant V → P → String → Action V (Result IssueOutcome) → Action V (Result IssueOutcome)
  authorized tenant payload role rest =
      case_sum (Q.validate payload) (λ e. give (err (validation (payload_error e))))
        (λ _.
          case_result (require_issuer tenant (Q.nit payload) role) (λ _. rest) (λ e. give (err e)))

  unfoldable pub issue_invoice : Tenant V → P → Option String → Action V (Result IssueOutcome)
  issue_invoice tenant payload key = authorized tenant payload "emisor" (
      issue tenant (type_of (Q.document_type payload)) (Q.prefix payload) (some (Q.number payload))
        payload key)

  unfoldable pub issue_payroll : Tenant V → P → Option String → Action V (Result IssueOutcome)
  issue_payroll tenant p key =
      authorized tenant p "empleador" (issue tenant payroll (Q.prefix p) (some (Q.number p)) p key)

  -- The server gives the number.
  unfoldable pub issue_support_document :
      Tenant V → P → Option String → Action V (Result IssueOutcome)
  issue_support_document tenant payload key =
      authorized tenant payload "comprador"
        (issue tenant support_document (Q.prefix payload) none payload key)
