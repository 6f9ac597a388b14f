-- ===== src/Tests/Inbound.antt =====
-- The theorems on received invoices at work: one is registered with and one without its signatures.
use dian_service.Base.{
  ◌≡◌, refl, List, [], ◌∷◌, some, String, inr, ◌==◌, string_eq, if◌then◌else◌, arith,
}
use dian_service.Base.Decimal.{decimal, digits, digit_char}
use dian_service.Base.Int.{pos}
use dian_service.Base.Xml.{
  Reader, Node, Nodes, element, chars, raw, comment, no_more as no_nodes, more, events, events_of,
}
use dian_service.Domain.Errors.{ok}
use dian_service.Application.World.{World, or_stop, and_then, remote, port}
use dian_service.Store.Documents.{insert_inbound}
use dian_service.Base.Chars.{digit_value}
use dian_service.Application.Xml.{
  text_at, parse, find_root, root_event, local_name, find_text, text_event,
}
use dian_service.Application.Xml.Tags.{tag_content, content, tag_in_section, split_document_id}
use dian_service.Application.Xml.Trees.{first_text_in, text_at-first}
use dian_service.Application.Xml.Numbers.{split_document_id-decimal, split_document_id-dash}
use dian_service.Base.Strings.{parse_radix, digits_value}
use dian_service.Application.Inbound.{
  InboundRegistered, InboundVerification, attached, open_as, required, facts, read_invoice,
  check_response, check_addressed,
}
use dian_service.Application.Inbound.Register.{
  register_verified, register_unverified, unverified_facts, insert_received, verify,
  register_signed,
}
use dian_service.Application.Inbound.Registered.{IsVerified, register_verified-IsVerified}
use dian_service.Application.Radian.{RadianPorts, RadianEventRequest}
use dian_service.Application.Radian.Safety.{Refused, register_unverified-Refused}
use dian_service.Tests.Samples.{Sample, sample_json, sample_json-IsJson}
use dian_service.Tests.Requests.{issuer}
use dian_service.Tests.Processing.{outside, world}

abbrev el : String → List Node → Node
el name children = element name [] (nodes children)
  where
    nodes : List Node → Nodes
    nodes [] = no_nodes
    nodes (n ∷ ns) = more n (nodes ns)

abbrev leaf : String → String → Node
leaf name t = el name (chars t ∷ [])

abbrev attachment : String → Node
attachment t = el "cac:Attachment" (el "cac:ExternalReference" (leaf "cbc:Description" t ∷ []) ∷ [])

abbrev container : Node
container = el "AttachedDocument" (
    leaf "cbc:ParentDocumentID" "FEV7"
    ∷ attachment "invoice"
    ∷ el "cac:ParentDocumentLineReference"
        (el "cac:DocumentReference" (attachment "response" ∷ []) ∷ [])
    ∷ [])

abbrev party : String → String → String → Node
party name nit called = el name (
    el "cac:Party" (
      el "cac:PartyTaxScheme" (leaf "cbc:RegistrationName" called ∷ leaf "cbc:CompanyID" nit ∷ [])
      ∷ [])
    ∷ [])

abbrev invoice : Node
invoice = el "Invoice" (
    leaf "cbc:ID" "FEV7"
    ∷ leaf "cbc:UUID" "ab1"
    ∷ party "cac:AccountingSupplierParty" "800" "Beta"
    ∷ party "cac:AccountingCustomerParty" "900" "Empresa"
    ∷ [])

abbrev response : Node
response = el "ApplicationResponse" (
    el "cac:DocumentResponse" (
      el "cac:Response" (leaf "cbc:ResponseCode" "02" ∷ [])
      ∷ el "cac:DocumentReference" (leaf "cbc:UUID" "AB1" ∷ [])
      ∷ [])
    ∷ [])

abbrev reader : Reader
reader xml =
    events
      (if xml == "container" then container else if xml == "invoice" then invoice else response) []

abbrev verification : InboundVerification
verification = record {
  verifier =
      λ n xml. ok (record { signer_subject = if xml == "response" then "CN=DIAN" else "CN=Beta" });
  dian_signer_subject = "DIAN";
}

-- A declaration before the root, an element with one tag before the one that is looked for.
abbrev signed_invoice : Nodes
signed_invoice = more comment (
    more
      (element "Invoice" []
        (more (Node.leaf "ds:Transform" []) (more (el "cbc:UUID" (raw "cufe" ∷ [])) no_nodes)))
      no_nodes)

text_at-first_example :
    text_at
      (λ xml. events_of signed_invoice [])
      (record { xml = "invoice"; root = "Invoice" })
      ("Invoice" ∷ "UUID" ∷ [])
    ≡ first_text_in ("UUID" ∷ "Invoice" ∷ []) [] signed_invoice
text_at-first_example =
    text_at-first (λ xml. events_of signed_invoice [])
      (record { xml = "invoice"; root = "Invoice" }) ("Invoice" ∷ "UUID" ∷ []) signed_invoice refl

split_document_id-decimal_example : split_document_id "FEV1002" ≡ some ("FEV", pos 1002)
unfolding decimal digits digit_char
split_document_id-decimal_example = split_document_id-decimal "FEV" 1002 refl (omega arith)

split_document_id-dash_example : split_document_id "F2-1002" ≡ some ("F2", pos 1002)
unfolding decimal digits digit_char
split_document_id-dash_example = split_document_id-dash "F2" 1002 (omega arith)

abbrev registered : InboundRegistered
registered = record { document_id = 1030; parent_document_id = "FEV7" }

verified :
    (register_verified sample_json outside reader (some verification) issuer "container" world).0
    ≡ ok registered
unfolding register_verified or_stop attached open_as parse find_root events root_event local_name
    required text_at find_text text_event and_then verify remote register_signed facts read_invoice
    check_response check_addressed split_document_id parse_radix digits_value digit_value
    insert_received port insert_inbound
verified = refl

register_verified-IsVerified_example :
    IsVerified sample_json outside reader verification issuer "container" 0 registered
      (register_verified sample_json outside reader (some verification) issuer "container" world).1
register_verified-IsVerified_example =
    register_verified-IsVerified sample_json outside reader verification issuer "container" world
      registered verified

abbrev unsigned_text : String
unsigned_text =
    "<Signature/><ResponseCode>02</ResponseCode><cac:SenderParty><CompanyID>800</CompanyID></cac:SenderParty><cac:ReceiverParty><CompanyID>900</CompanyID></cac:ReceiverParty><ParentDocumentID>FEV-7</ParentDocumentID><UUID>abc</UUID>"

abbrev unverified : InboundRegistered
unverified = record { document_id = 1000; parent_document_id = "FEV-7" }

received :
    (register_unverified sample_json outside reader issuer unsigned_text world).0 ≡ ok unverified
unfolding register_unverified or_stop unverified_facts tag_content local_name content tag_in_section
    split_document_id parse_radix digits_value digit_value insert_received and_then port
    insert_inbound
received = refl

abbrev later : World Sample
later = (register_unverified sample_json outside reader issuer unsigned_text world).1

abbrev ports : RadianPorts
ports = record {
  send_event_update_status = λ n tenant zip is_hab. outside.get_status n tenant "" is_hab;
  colombia_date_time = λ t. ("2026-01-31", "10:20:30-05:00");
  uuid_text = decimal;
  sha384 = λ t. t;
  render = λ c. inr "<ApplicationResponse/>";
  compress_xml_to_zip = λ xml nit prefix number. inr (1 ∷ []);
}

abbrev acknowledgement : RadianEventRequest
acknowledgement = record { event_code = "030"; software_pin = "1234"; environment = "2" }

register_unverified-Refused_example :
    Refused sample_json outside ports issuer 1000 acknowledgement later
register_unverified-Refused_example =
    register_unverified-Refused sample_json sample_json-IsJson outside reader ports issuer issuer
      unsigned_text world later unverified acknowledgement received refl
