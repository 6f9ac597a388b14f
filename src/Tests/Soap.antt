-- ===== src/Tests/Soap.antt =====
-- A document sent to a service that answers, and a text that is escaped.
use dian_service.Base.{◌≡◌, refl, true, false, [], ◌∷◌, none, some, String, inr}
use dian_service.Base.Strings.{every_char}
use dian_service.Domain.Errors.{ok}
use dian_service.Domain.Ports.{DianResponse}
use dian_service.Application.Xml.{local_name}
use dian_service.Application.Xml.Tags.{content}
use dian_service.Signer.C14n.References.{read_text}
use dian_service.Soap.{
  SoapPorts, SoapClient, extract_zip_filename, zip_name_from, call, send_zip, send_bill_sync,
  dian_response, extract_tag_content, zip_body,
}
use dian_service.Soap.Answers.{IsAnswered, IsReading, send_bill_sync-IsAnswered}
use dian_service.Soap.Envelope.{xml_escape}
use dian_service.Soap.Envelope.Reading.{is_neutral, read_text-xml_escape}

abbrev answer : String
answer = "<s:Body><b:StatusCode>00</b:StatusCode><b:StatusMessage>ok</b:StatusMessage></s:Body>"

abbrev ports : SoapPorts
ports = record {
  open_archive = λ z. inr (record { is_empty = false; first = inr (inr "face9001.xml") });
  base64 = λ z. "AQI=";
  sign_soap_for_tenant = λ tenant envelope. ok envelope;
  post = λ url kind body. inr (record { is_success = true; status = "200 OK"; text = inr answer });
}

abbrev client : SoapClient
client = record { hab_url = "https://hab"; prod_url = "https://prod" }

abbrev accepted : DianResponse
accepted = record {
  status_code = "00";
  message = "ok";
  xml_response = some answer;
  soap_trace_id = none;
}

sent : send_bill_sync ports client 7 (1 ∷ 2 ∷ []) true ≡ ok accepted
unfolding send_bill_sync send_zip extract_zip_filename zip_name_from call dian_response
    extract_tag_content content local_name
sent = refl

send_bill_sync-IsAnswered_example :
    (filename : String) × (resp_xml : String) × (extract_zip_filename ports client (1 ∷ 2 ∷ [])
      ≡ ok filename)
    × IsAnswered ports client 7 "SendBillSync" true
        (zip_body ports client "SendBillSync" filename (1 ∷ 2 ∷ []) "")
        resp_xml
    × IsReading resp_xml accepted
send_bill_sync-IsAnswered_example =
    send_bill_sync-IsAnswered ports client 7 (1 ∷ 2 ∷ []) true accepted sent

read_text-xml_escape_example :
    (read_text none (xml_escape "a</wcf:testSetId><x a='1'>") ≡ some "a</wcf:testSetId><x a='1'>")
    × (every_char is_neutral (xml_escape "a</wcf:testSetId><x a='1'>") ≡ true)
read_text-xml_escape_example = read_text-xml_escape "a</wcf:testSetId><x a='1'>"
