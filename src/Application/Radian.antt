-- ===== src/Application/Radian.antt =====
-- application/src/radian.rs: the RADIAN events about a received invoice. The document of the event
-- is made by ubl-engine; the archive, the date's text and the text of a `Uuid` come from packages.
pub mod Safety
use Prim.Native.String.{◌++◌}
use dian_service.Base.{
  ℕ, Bool, true, false, not, List, [], ◌∷◌, Option, none, some, String, ◌⊎◌, inl, inr, ◌==◌,
  string_eq, if◌then◌else◌,
}
use dian_service.Base.Int.{ℤ, pos}
use dian_service.Domain.Checks.{◌>>=◌, ◌>>◌, refuse, or_error}
use dian_service.Domain.Enums.{EventStatus}
use dian_service.Domain.Errors.{
  Result, DomainError, ok, err, validation, not_found, internal, fixed, document_id,
}
use dian_service.Domain.Json.{Json}
use dian_service.Domain.Models.{Document, DianEvent, Tenant, new_event}
use dian_service.Domain.Ports.{DianResponse}
use dian_service.Store.Documents.{find_tenant_document, record_event}
use dian_service.Application.World.{Outside, Action, give, port, remote, send, and_then, or_stop}
use dian_service.Ubl.Parties.{ResponseContext, generate_application_response_xml}

pub record RadianEventRequest : Type 0 where
  pub event_code : String
  pub software_pin : String
  pub environment : String

pub record RadianEventOutcome : Type 0 where
  pub event_id : ℕ
  pub event_code : String
  pub cude : String
  pub dian_status : String
  pub dian_message : String
  pub soap_trace_id : Option String

-- What the service uses beside the store and the signer: `send_event_update_status` after a number of
-- calls, `colombia_date_time`, the text of a `Uuid`, SHA-384, the template and the archive.
pub record RadianPorts : Type 0 where
  pub send_event_update_status : ℕ → ℕ → List ℕ → Bool → Result DianResponse
  pub colombia_date_time : ℕ → String × String
  pub uuid_text : ℕ → String
  pub sha384 : String → String
  pub render : ResponseContext → String ⊎ String
  pub compress_xml_to_zip : String → String → String → ℤ → String ⊎ List ℕ

unfoldable pub event_description : String → Option String
event_description code =
    if code == "030"
    then some "Acuse de recibo de Factura Electronica de Venta"
    else if code == "032"
    then some "Recibo de las mercancias o servicios"
    else if code == "033"
    then some "Aceptacion expresa"
    else if code == "034"
    then some "Aceptacion tacita"
    else none

-- What an event is about.
pub record Subject : Type 0 where
  pub sender_nit : String
  pub sender_name : String
  pub parent_document_id : String
  pub description : String

abbrev pub is_yes : Option Bool → Bool
is_yes none = false
is_yes (some b) = b

abbrev pub not_inbound : DomainError
not_inbound =
    validation
      (fixed "Solo se pueden emitir eventos del RADIAN sobre facturas inbound de proveedores")

abbrev pub not_verified : DomainError
not_verified =
    validation
      (fixed "No se pueden emitir eventos RADIAN sobre una factura cuya firma no fue verificada")

-- The error of ubl-engine as an internal one.
abbrev pub made : {A : Type 0} → String ⊎ A → Result A
made (inl e) = err (internal (fixed e))
made (inr a) = ok a

module _ {V : Type 0} (J : Json V) where
  abbrev pub flag_at : V → String → Option Bool
  flag_at payload name = elim (J.get payload name) [ none ↦ none | some v ↦ J.as_bool v ]

  abbrev pub text_in : V → String → Option String
  text_in payload name = elim (J.get payload name) [ none ↦ none | some v ↦ J.as_str v ]

  unfoldable pub field_of : V → String → Result String
  field_of payload name =
      or_error (text_in payload name)
        (internal (fixed ("Missing " ++ name ++ " in document payload")))

  -- The checks before anything is made.
  unfoldable pub subject : V → String → Result Subject
  subject payload event_code = do
    refuse (not (is_yes (flag_at payload "inbound"))) not_inbound
    refuse (not (is_yes (flag_at payload "signature_verified"))) not_verified
    sender_nit ← field_of payload "sender_nit"
    sender_name ← field_of payload "sender_name"
    parent_document_id ← field_of payload "parent_document_id"
    description ← or_error (event_description event_code) (
        validation (
          fixed ("Codigo de evento '" ++ event_code ++ "' invalido. Debe ser 030, 032, 033 o 034")))
    ok (record {
      sender_nit = sender_nit;
      sender_name = sender_name;
      parent_document_id = parent_document_id;
      description = description;
    })

module _ {V : Type 0} (J : Json V) (O : Outside V) (P : RadianPorts) (tenant : Tenant V) where
  -- The unsigned document and its code, with the fresh id and the time of the call.
  unfoldable pub unsigned_event :
      Document V → RadianEventRequest → Subject → ℕ → Result (String × String)
  unsigned_event document request s n =
      let (issue_date, issue_time) = P.colombia_date_time (O.utc n) in
      made (
        generate_application_response_xml P.sha384 P.render ("EV-" ++ P.uuid_text (O.new_id n 0))
          issue_date issue_time tenant.tax_id tenant.registration_name "31" s.sender_nit
          s.sender_name "31" request.event_code s.description s.parent_document_id
          document.cufe_cude request.software_pin request.environment)

  abbrev pub answer_event : ℕ → ℕ → ℕ → DianResponse → DianEvent
  answer_event id now document response =
      record (new_event id now document
        (if response.status_code == "00" then EventStatus.accepted else EventStatus.rejected)
        response.status_code (fixed response.message)) {
          soap_trace_id = response.soap_trace_id;
          xml_response = response.xml_response;
        }

  -- What is done with the answer of the DIAN.
  unfoldable pub record_answer :
      Document V → RadianEventRequest → String → DianResponse → Action V (Result RadianEventOutcome)
  record_answer document request cude response w =
      let event = answer_event (O.new_id w.calls 0) (O.utc w.calls) document.id response in
      and_then (port O (λ _. record_event event))
        (λ _. give (
          ok (record {
            event_id = event.id;
            event_code = request.event_code;
            cude = cude;
            dian_status = response.status_code;
            dian_message = response.message;
            soap_trace_id = response.soap_trace_id;
          })))
        w

  unfoldable pub send_event :
      Document V → RadianEventRequest → Subject → Action V (Result RadianEventOutcome)
  send_event document request s w =
      or_stop (unsigned_event document request s w.calls)
        (λ made_xml. and_then (remote O (λ n. O.sign n tenant.id made_xml.0)) (λ signed_xml.
          or_stop (made (P.compress_xml_to_zip signed_xml tenant.tax_id "EV" (pos 1))) (λ zip.
            and_then
              (send O zip
                (λ n. P.send_event_update_status n tenant.id zip (request.environment == "2")))
              (record_answer document request made_xml.1))))
        w

  unfoldable pub register_event : ℕ → RadianEventRequest → Action V (Result RadianEventOutcome)
  register_event id request =
      and_then
        (port O
          (λ _ s. (or_error (find_tenant_document s tenant.id id) (not_found (document_id id)), s)))
        (λ document.
          or_stop (subject J document.payload request.event_code) (send_event document request))
