-- ===== src/Domain/Notify.antt =====
-- core-domain/src/webhooks.rs: which changes of state are notified, and with what data.
use dian_service.Base.{
  ℕ, Bool, ◌||◌, List, [], ◌∷◌, Option, none, some, String, str_eq, any, if◌then◌else◌,
}
use dian_service.Base.Int.{ℤ}
use dian_service.Domain.Enums.{DocumentStatus}
use dian_service.Domain.EnumText.{document_status_str}
use dian_service.Domain.Json.{Json}

abbrev pub event_all : String
event_all = "*"

abbrev pub event_types : List String
event_types =
    "document.accepted" ∷ "document.rejected" ∷ "document.contingency" ∷ "document.failed" ∷ []

abbrev pub max_delivery_attempts : ℕ
max_delivery_attempts = 10

unfoldable pub event_for : DocumentStatus → Option String
event_for DocumentStatus.dian_accepted = some "document.accepted"
event_for DocumentStatus.dian_rejected = some "document.rejected"
event_for DocumentStatus.contingency_pending = some "document.contingency"
event_for DocumentStatus.processing_failed = some "document.failed"
event_for _ = none

unfoldable pub is_valid_subscription : String → Bool
is_valid_subscription event_type =
    str_eq event_type event_all || any (λ t. str_eq t event_type) event_types

pub record NotifiedDocument : Type 0 where
  pub document_id : ℕ
  pub document_type : String
  pub prefix : String
  pub number : ℤ
  pub status : DocumentStatus
  pub cufe : Option String

-- `document.cufe.filter(|c| !c.is_empty())`
unfoldable pub nonempty : Option String → Option String
nonempty none = none
nonempty (some c) = if str_eq c "" then none else some c

module _ {V : Type 0} (J : Json V) where
  abbrev optional_text : Option String → V
  optional_text none = J.null
  optional_text (some c) = J.of_str c

  unfoldable pub notification_data : NotifiedDocument → V
  unfolding nonempty
  notification_data d = J.object (
      ("document_id", J.of_uuid d.document_id)
      ∷ ("document_type", J.of_str d.document_type)
      ∷ ("prefix", J.of_str d.prefix)
      ∷ ("number", J.of_int d.number)
      ∷ ("status", J.of_str (document_status_str d.status))
      ∷ ("cufe", optional_text (nonempty d.cufe))
      ∷ [])
