-- ===== src/Ubl/Parties.antt =====
-- ubl-engine/src/model.rs and lib.rs: the parties of a document, and the document of a RADIAN event. The
-- template is rendered by a package.
use dian_service.Base.{ℕ, Option, none, some, String, ◌⊎◌, inl, inr, ◌==◌, string_eq, if◌then◌else◌}
use dian_service.Base.Decimal.{decimal}
use dian_service.Domain.Nit.{check_digit}
use dian_service.Ubl.Cufe.{calculate_cude_event}

pub record PartyData : Type 0 where
  pub id_type : String
  pub id : String
  pub check_digit : String
  pub name : String

abbrev pub digit_text : Option ℕ → String
digit_text none = ""
digit_text (some d) = decimal d

unfoldable pub new_party : String → String → String → PartyData
new_party id_type id name = record {
  id_type = id_type;
  id = id;
  check_digit = if id_type == "31" then digit_text (check_digit id) else "";
  name = name;
}

-- What the template "application_response.xml" is given.
pub record ResponseContext : Type 0 where
  pub id : String
  pub cude : String
  pub issue_date : String
  pub issue_time : String
  pub environment : String
  pub sender : PartyData
  pub receiver : PartyData
  pub event_code : String
  pub event_description : String
  pub parent_document_id : String
  pub parent_document_uuid : String

module _ (sha384 : String → String) (render : ResponseContext → String ⊎ String) where
  unfoldable pub generate_application_response_xml :
      (id issue_date issue_time sender_nit sender_name sender_id_type receiver_nit receiver_name
        receiver_id_type event_code event_description parent_document_id parent_document_uuid
        software_pin environment : String)
      → String ⊎ (String × String)
  generate_application_response_xml id issue_date issue_time sender_nit sender_name sender_id_type
        receiver_nit receiver_name receiver_id_type event_code event_description parent_document_id
        parent_document_uuid software_pin environment =
      let cude =
        calculate_cude_event sha384 id issue_date issue_time sender_nit receiver_nit software_pin
          environment in
      elim (render (record {
        id = id;
        cude = cude;
        issue_date = issue_date;
        issue_time = issue_time;
        environment = environment;
        sender = new_party sender_id_type sender_nit sender_name;
        receiver = new_party receiver_id_type receiver_nit receiver_name;
        event_code = event_code;
        event_description = event_description;
        parent_document_id = parent_document_id;
        parent_document_uuid = parent_document_uuid;
      })) [ inl e ↦ inl e | inr xml ↦ inr (xml, cude) ]
