-- ===== src/Soap/Answers.antt =====
-- When a call has a result.
use Prim.Native.String.{◌++◌}
use dian_service.Base.{ℕ, ◌≡◌, refl, Bool, true, false, not, List, some, String, ◌⊎◌, inl, inr}
use dian_service.Domain.Checks.{not-false, >>=-ok, refuse-ok, along_ok}
use dian_service.Domain.Errors.{ok, DomainError}
use dian_service.Domain.Ports.{DianResponse}
use dian_service.Soap.Envelope.{build_soap_envelope}
use dian_service.Soap.{
  SoapPorts, SoapClient, HttpAnswer, of_package, action_prefix, get_url, content_type, call,
  or_default, extract_tag_content, send_zip, extract_zip_filename, send_bill_sync, dian_response,
  zip_body, http_error,
}

of_package-ok :
    {A : Type 0} (f : String → DomainError) (x : String ⊎ A) {a : A}
    → of_package f x ≡ ok a
    → x ≡ inr a
of_package-ok f (inl m) h = cc
of_package-ok f (inr b) h = cc

-- The address of an environment.
abbrev pub Address : SoapClient → Bool → String → Type 0
Address client true url = url ≡ client.hab_url
Address client false url = url ≡ client.prod_url

get_url-Address :
    (client : SoapClient) (is_hab : Bool) → Address client is_hab (get_url client is_hab)
get_url-Address client true = refl
get_url-Address client false = refl

-- What the answer says, read of the text that was received.
pub record IsReading (resp_xml : String) (r : DianResponse) : Type 0 where
  pub status_code : r.status_code ≡ or_default (extract_tag_content resp_xml "StatusCode") "unknown"
  pub message :
      r.message
      ≡ or_default (extract_tag_content resp_xml "StatusMessage") "No status message provided"
  pub xml_response : r.xml_response ≡ some resp_xml
  pub trace : r.soap_trace_id ≡ extract_tag_content resp_xml "XmlDocumentKey"

-- The envelope was signed for the tenant and sent to the environment's URL, and the text is that of an
-- answer with a status of success.
pub record IsAnswered (P : SoapPorts) (client : SoapClient) (tenant_id : ℕ) (operation : String)
    (is_hab : Bool) (body resp_xml : String) : Type 0 where
  pub url : String
  pub address : Address client is_hab url
  pub signed_envelope : String
  pub response : HttpAnswer
  pub signed :
      P.sign_soap_for_tenant tenant_id (build_soap_envelope (action_prefix ++ operation) url body)
      ≡ ok signed_envelope
  pub posted : P.post url (content_type (action_prefix ++ operation)) signed_envelope ≡ inr response
  pub succeeded : response.is_success ≡ true
  pub received : response.text ≡ inr resp_xml

module _ (P : SoapPorts) (client : SoapClient) where
  call-IsAnswered :
      (tenant_id : ℕ) (operation : String) (is_hab : Bool) (body resp_xml : String)
      → call P client tenant_id operation is_hab body ≡ ok resp_xml
      → IsAnswered P client tenant_id operation is_hab body resp_xml
  unfolding call
  call-IsAnswered tenant_id operation is_hab body resp_xml h =
      let (envelope, s, h) = >>=-ok (P.sign_soap_for_tenant tenant_id _) _ h in
      let (response, p, h) = >>=-ok (of_package http_error _) _ h in
      let (xml, t, h) = >>=-ok (of_package http_error response.text) _ h in
      let (good, h) = refuse-ok (not response.is_success) _ _ h in
      along_ok (IsAnswered P client tenant_id operation is_hab body) xml resp_xml h (record {
        url = get_url client is_hab;
        address = get_url-Address client is_hab;
        signed_envelope = envelope;
        response = response;
        signed = s;
        posted = of_package-ok _ _ p;
        succeeded = not-false response.is_success good;
        received = of_package-ok _ _ t;
      })

  -- If a document is sent and a response comes back, the archive could be read, the envelope with it was
  -- signed for the tenant and posted to the URL of the environment, the status was one of success, and the
  -- status code, the message and the key of the document are those of the text that was received; any other answer, a fault too, is an error.
  pub send_bill_sync-IsAnswered :
      (tenant_id : ℕ) (zip : List ℕ) (is_hab : Bool) (r : DianResponse)
      → send_bill_sync P client tenant_id zip is_hab ≡ ok r
      → (filename : String) × (resp_xml : String) × (extract_zip_filename P client zip
          ≡ ok filename)
        × IsAnswered P client tenant_id "SendBillSync" is_hab
            (zip_body P client "SendBillSync" filename zip "")
            resp_xml
        × IsReading resp_xml r
  unfolding send_bill_sync send_zip dian_response
  send_bill_sync-IsAnswered tenant_id zip is_hab r h =
      let (resp_xml, e, h) =
        >>=-ok (send_zip P client tenant_id "SendBillSync" zip is_hab "") _ h in
      let (filename, f, e) = >>=-ok (extract_zip_filename P client zip) _ e in
      (
        filename,
        resp_xml,
        f,
        call-IsAnswered tenant_id "SendBillSync" is_hab _ resp_xml e,
        along_ok (IsReading resp_xml) _ r h
            (record { status_code = refl; message = refl; xml_response = refl; trace = refl }),
      )
