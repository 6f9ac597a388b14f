-- ===== src/Soap/Envelope.antt =====
-- dian-soap-client/src/soap.rs: the escapes and the envelope.
pub mod Reading
use Prim.Native.Char.{Char, code}
use Prim.Native.String.{◌++◌}
use dian_service.Base.{ℕ, String, nat_eq, if◌then◌else◌}

abbrev pub escaped_char : Char → String
escaped_char c =
    if nat_eq (code c) 38
    then "&amp;"
    else if nat_eq (code c) 60
    then "&lt;"
    else if nat_eq (code c) 62
    then "&gt;"
    else if nat_eq (code c) 34
    then "&quot;"
    else if nat_eq (code c) 39
    then "&apos;"
    else String.◌∷◌ c String.[]

unfoldable pub xml_escape : String → String
xml_escape String.[] = String.[]
xml_escape (String.◌∷◌ c s) = escaped_char c ++ xml_escape s

abbrev pub to_id : String
to_id = "id-To"

-- core-domain/src/ports.rs
abbrev pub wsse_security_placeholder : String
wsse_security_placeholder = "<!-- WSSE_SECURITY -->"

abbrev pub envelope_start : String
envelope_start =
    "<soap:Envelope xmlns:soap=\"http://www.w3.org/2003/05/soap-envelope\" xmlns:wsa=\"http://www.w3.org/2005/08/addressing\" xmlns:wcf=\"http://wcf.dian.colombia\" xmlns:wsse=\"http://docs.oasis-open.org/wss/2004/01/oasis-200401-wss-wssecurity-secext-1.0.xsd\" xmlns:wsu=\"http://docs.oasis-open.org/wss/2004/01/oasis-200401-wss-wssecurity-utility-1.0.xsd\"><soap:Header><wsse:Security soap:mustUnderstand=\"true\">"

unfoldable pub build_soap_envelope : String → String → String → String
build_soap_envelope action to_url body_content =
    envelope_start
    ++ wsse_security_placeholder
    ++ "</wsse:Security><wsa:Action>"
    ++ xml_escape action
    ++ "</wsa:Action><wsa:To wsu:Id=\""
    ++ to_id
    ++ "\">"
    ++ xml_escape to_url
    ++ "</wsa:To></soap:Header><soap:Body>"
    ++ body_content
    ++ "</soap:Body></soap:Envelope>"
