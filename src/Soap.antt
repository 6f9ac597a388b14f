-- ===== src/Soap.antt =====
-- dian-soap-client/src/client.rs: the calls of the DIAN's service. The HTTP client, the archive, Base64 and
-- the signer are ports, asked once in a call; an error has the text that it has in the packages.
pub mod Envelope
pub mod Answers
use Prim.Native.String.{◌++◌}
use dian_service.Base.{
  ℕ, zero, suc, Bool, true, false, not, List, Option, none, some, String, ◌⊎◌, inl, inr, nat_eq,
  if◌then◌else◌,
}
use Prim.Native.Char.{code}
use dian_service.Base.Strings.{split_before, starts_with}
use dian_service.Domain.Checks.{◌>>=◌, ◌>>◌, refuse, or_error}
use dian_service.Domain.Errors.{Result, ok, err, DomainError, internal, soap, in_context, fixed}
use dian_service.Domain.Ports.{DianResponse}
use dian_service.Application.Xml.Tags.{tag_found}
use dian_service.Soap.Envelope.{xml_escape, build_soap_envelope}

abbrev pub action_prefix : String
action_prefix = "http://wcf.dian.colombia/IWcfDianCustomerServices/"

-- Whether the archive has no entry, and its first one's name; an error of the package on the left.
pub record Archive : Type 0 where
  pub is_empty : Bool
  pub first : String ⊎ (String ⊎ String)

pub record HttpAnswer : Type 0 where
  pub is_success : Bool
  pub status : String
  pub text : String ⊎ String

pub record SoapPorts : Type 0 where
  pub open_archive : List ℕ → String ⊎ Archive
  pub base64 : List ℕ → String
  pub sign_soap_for_tenant : ℕ → String → Result String
  -- An URL, a `Content-Type` and a body.
  pub post : String → String → String → String ⊎ HttpAnswer

pub record SoapClient : Type 0 where
  pub hab_url : String
  pub prod_url : String

abbrev pub or_default : Option String → String → String
or_default none d = d
or_default (some t) d = t

unfoldable pub new_client : Option String → Option String → SoapClient
new_client hab_url prod_url = record {
  hab_url = or_default hab_url "https://vpfe-hab.dian.gov.co/WcfDianCustomerServices.svc";
  prod_url = or_default prod_url "https://vpfe.dian.gov.co/WcfDianCustomerServices.svc";
}

abbrev pub get_url : SoapClient → Bool → String
get_url c is_hab = if is_hab then c.hab_url else c.prod_url

-- `SoapError` as the error that it becomes.
abbrev pub zip_error : String → DomainError
zip_error m = internal (in_context "Zip" (fixed m))

abbrev pub http_error : String → DomainError
http_error m = soap (in_context "Http network failure" (fixed m))

abbrev pub fault : String → String → DomainError
fault c m = soap (in_context ("Soap fault [" ++ c ++ "]") (fixed m))

abbrev pub dian_error : String → DomainError
dian_error m = soap (in_context "Dian error" (fixed m))

abbrev pub of_package : {A : Type 0} → (String → DomainError) → String ⊎ A → Result A
of_package f (inl m) = err (f m)
of_package f (inr a) = ok a

-- `replace(".xml", ".zip")`; the number is how much of an occurrence is left.
unfoldable pub zip_name_from : ℕ → String → String
zip_name_from left String.[] = String.[]
zip_name_from (suc left) (String.◌∷◌ c s) = zip_name_from left s
zip_name_from zero (String.◌∷◌ c s) =
    if starts_with ".xml" (String.◌∷◌ c s)
    then ".zip" ++ zip_name_from 3 s
    else String.◌∷◌ c (zip_name_from 0 s)

-- Where a tag's name ends here: at a space or at its `>`.
unfoldable pub extract_tag_content : String → String → Option String
extract_tag_content String.[] tag_name = none
extract_tag_content (String.◌∷◌ c s) tag_name =
    let next = extract_tag_content s tag_name in
    if nat_eq (code c) 60
    then tag_found tag_name s (split_before (λ x. if nat_eq x 32 then true else nat_eq x 62) s) next
    else next

-- What `call` makes of an answer that is no success.
unfoldable pub failure : String → String → DomainError
failure status resp_xml = elim (extract_tag_content resp_xml "Text") [
  | some reason ↦ fault (or_default (extract_tag_content resp_xml "Value") "SoapFault") reason
  | none ↦ dian_error ("HTTP error " ++ status)
]

abbrev pub trace_id : Option String → String → Option String
trace_id (some t) resp_xml = some t
trace_id none resp_xml = extract_tag_content resp_xml "XmlDocumentKey"

unfoldable pub dian_response : String → Option String → DianResponse
dian_response resp_xml soap_trace_id = record {
  status_code = or_default (extract_tag_content resp_xml "StatusCode") "unknown";
  message = or_default (extract_tag_content resp_xml "StatusMessage") "No status message provided";
  xml_response = some resp_xml;
  soap_trace_id = trace_id soap_trace_id resp_xml;
}

unfoldable pub zip_key : String → Result String
zip_key resp_xml =
    or_error (extract_tag_content resp_xml "ZipKey")
      (dian_error "Response did not contain ZipKey/TrackId")

abbrev pub content_type : String → String
content_type action = "application/soap+xml;charset=utf-8;action=\"" ++ action ++ "\""

module _ (P : SoapPorts) (client : SoapClient) where
  unfoldable pub extract_zip_filename : List ℕ → Result String
  extract_zip_filename zip_bytes = do
    archive ←
        of_package (λ e. zip_error ("Failed to read ZIP in memory: " ++ e))
          (P.open_archive zip_bytes)
    refuse archive.is_empty (zip_error "ZIP archive is empty")
    file ← of_package (λ e. zip_error ("Failed to get ZIP file element: " ++ e)) archive.first
    xml_name ← of_package (λ e. zip_error ("Invalid ZIP entry name: " ++ e)) file
    ok (zip_name_from 0 xml_name)

  unfoldable pub call : ℕ → String → Bool → String → Result String
  call tenant_id operation is_hab body_content = do
    signed_envelope ←
        P.sign_soap_for_tenant tenant_id
          (build_soap_envelope (action_prefix ++ operation) (get_url client is_hab) body_content)
    response ←
        of_package http_error (
          P.post (get_url client is_hab) (content_type (action_prefix ++ operation))
            signed_envelope)
    resp_xml ← of_package http_error response.text
    refuse (not response.is_success) (failure response.status resp_xml)
    ok resp_xml

  abbrev pub zip_body : String → String → List ℕ → String → String
  zip_body operation zip_filename zip extra =
      "<wcf:"
      ++ operation
      ++ "><wcf:fileName>"
      ++ xml_escape zip_filename
      ++ "</wcf:fileName><wcf:contentData>"
      ++ P.base64 zip
      ++ "</wcf:contentData>"
      ++ extra
      ++ "</wcf:"
      ++ operation
      ++ ">"

  unfoldable pub send_zip : ℕ → String → List ℕ → Bool → String → Result String
  send_zip tenant_id operation zip is_hab extra = do
    zip_filename ← extract_zip_filename zip
    call tenant_id operation is_hab (zip_body operation zip_filename zip extra)

  unfoldable pub send_bill_sync : ℕ → List ℕ → Bool → Result DianResponse
  send_bill_sync tenant_id signed_xml_zip is_hab = do
    resp_xml ← send_zip tenant_id "SendBillSync" signed_xml_zip is_hab ""
    ok (dian_response resp_xml none)

  unfoldable pub send_bill_async : ℕ → List ℕ → Bool → Result String
  send_bill_async tenant_id signed_xml_zip is_hab = do
    resp_xml ← send_zip tenant_id "SendBillAsync" signed_xml_zip is_hab ""
    zip_key resp_xml

  abbrev pub test_set_element : String → String
  test_set_element test_set_id = "<wcf:testSetId>" ++ xml_escape test_set_id ++ "</wcf:testSetId>"

  unfoldable pub send_test_set_async : ℕ → List ℕ → String → Bool → Result String
  send_test_set_async tenant_id signed_xml_zip test_set_id is_hab = do
    resp_xml ←
        send_zip tenant_id "SendTestSetAsync" signed_xml_zip is_hab (test_set_element test_set_id)
    zip_key resp_xml

  abbrev pub track_body : String → String → String
  track_body operation track_id =
      "<wcf:"
      ++ operation
      ++ "><wcf:trackId>"
      ++ xml_escape track_id
      ++ "</wcf:trackId></wcf:"
      ++ operation
      ++ ">"

  unfoldable pub get_status : ℕ → String → Bool → Result DianResponse
  get_status tenant_id track_id is_hab = do
    resp_xml ← call tenant_id "GetStatus" is_hab (track_body "GetStatus" track_id)
    ok (dian_response resp_xml (some track_id))

  unfoldable pub get_status_zip : ℕ → String → Bool → Result DianResponse
  get_status_zip tenant_id track_id is_hab = do
    resp_xml ← call tenant_id "GetStatusZip" is_hab (track_body "GetStatusZip" track_id)
    ok (dian_response resp_xml (some track_id))

  unfoldable pub send_event_update_status : ℕ → List ℕ → Bool → Result DianResponse
  send_event_update_status tenant_id signed_event_zip is_hab = do
    resp_xml ← call tenant_id "SendEventUpdateStatus" is_hab (
        "<wcf:SendEventUpdateStatus><wcf:contentData>"
        ++ P.base64 signed_event_zip
        ++ "</wcf:contentData></wcf:SendEventUpdateStatus>")
    ok (dian_response resp_xml none)
