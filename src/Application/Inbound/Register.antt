-- ===== src/Application/Inbound/Register.antt =====
-- application/src/inbound.rs: `register_verified` and `register_unverified`.
use Prim.Native.String.{◌++◌}
use dian_service.Base.{
  Bool, true, false, ◌&&◌, not, [], ◌∷◌, Option, none, some, String, ◌==◌, string_eq, if◌then◌else◌,
}
use dian_service.Base.Int.{ℤ}
use dian_service.Base.Strings.{contains_text}
use dian_service.Base.Xml.{Reader}
use dian_service.Domain.Checks.{◌>>=◌, ◌>>◌, refuse, or_error, map_error}
use dian_service.Domain.Enums.{invoice, dian_accepted}
use dian_service.Domain.Errors.{
  Result, ok, err, DomainError, validation, forbidden, conflict, internal, fixed, in_context,
}
use dian_service.Domain.Json.{Json}
use dian_service.Domain.Models.{Tenant}
use dian_service.Domain.Ports.{VerifiedSignature}
use dian_service.Store.Documents.{insert_inbound}
use dian_service.Application.World.{
  Outside, Action, give, port, remote, and_then, or_stop, case_option,
}
use dian_service.Application.Xml.Tags.{split_document_id, tag_content, tag_in_section}
use dian_service.Application.Inbound.{
  InboundRegistered, InboundVerification, Attached, InvoiceFacts, attached, facts,
}

-- `verify`: a failed verification says which signature it is.
abbrev pub in_signature : String → DomainError → DomainError
in_signature what (validation reason) =
    validation (in_context ("Firma invalida en " ++ what) reason)
in_signature what e = e

-- What `register_unverified` reads of the text.
pub record UnverifiedFacts : Type 0 where
  pub sender_nit : String
  pub sender_name : String
  pub receiver_nit : String
  pub receiver_name : String
  pub parent_document_id : String
  pub cufe : String
  pub prefix : String
  pub number : ℤ

abbrev pub party : String → String → String → Option String
party xml section tag =
    tag_in_section xml ("<cac:" ++ section ++ ">") ("</cac:" ++ section ++ ">") tag

abbrev pub or_text : Option String → Option String → String → String
or_text (some a) b t = a
or_text none (some b) t = b
or_text none none t = t

abbrev pub is_accepted_code : Option String → Bool
is_accepted_code none = false
is_accepted_code (some c) = c == "02"

unfoldable pub unverified_facts : {V : Type 0} → Tenant V → String → Result UnverifiedFacts
unverified_facts tenant xml = do
  refuse (not (contains_text "<ds:Signature" xml) && not (contains_text "<Signature" xml))
      (validation (fixed "El AttachedDocument XML no esta firmado digitalmente"))
  refuse (not (is_accepted_code (tag_content xml "ResponseCode"))) (
      validation (
        fixed
          "El AttachedDocument no contiene el codigo de aceptacion reglamentario de la DIAN ('02')"))
  sender_nit ←
      or_error (party xml "SenderParty" "CompanyID")
        (validation (fixed "No se encontro el NIT del emisor en el AttachedDocument"))
  receiver_nit ←
      or_error (party xml "ReceiverParty" "CompanyID")
        (validation (fixed "No se encontro el NIT del receptor en el AttachedDocument"))
  parent_document_id ←
      or_error (tag_content xml "ParentDocumentID")
        (validation (fixed "No se encontro el ParentDocumentID (Numero de factura)"))
  cufe ←
      or_error (tag_content xml "UUID")
        (validation (fixed "No se encontro el CUFE/UUID de la factura original"))
  refuse (not (receiver_nit == tenant.tax_id)) (
      forbidden (
        fixed (
          "El NIT receptor del documento (" ++ receiver_nit
          ++ ") no coincide con el del tenant autenticado")))
  parts ← or_error (split_document_id parent_document_id) (
      validation (
        fixed (
          "El ParentDocumentID '" ++ parent_document_id
          ++ "' no tiene un consecutivo numerico valido")))
  ok (record {
    sender_nit = sender_nit;
    sender_name =
        or_text (party xml "SenderParty" "RegistrationName") (party xml "SenderParty" "Name")
          "Proveedor Inbound";
    receiver_nit = receiver_nit;
    receiver_name =
        or_text (party xml "ReceiverParty" "RegistrationName") (party xml "ReceiverParty" "Name")
          "Tenant Receptor";
    parent_document_id = parent_document_id;
    cufe = cufe;
    prefix = parts.0;
    number = parts.1;
  })

module _ {V : Type 0} (J : Json V) (O : Outside V) (read : Reader) where
  abbrev pub or_null : Option String → V
  or_null none = J.null
  or_null (some t) = J.of_str t

  -- Stores the document under a fresh id, or tells that it was there.
  unfoldable pub insert_received :
      Tenant V
      → String
      → String
      → String
      → ℤ
      → String
      → V
      → String
      → Action V (Result InboundRegistered)
  insert_received tenant invoice_id sender_nit prefix number cufe payload signed_xml w =
      let id = O.new_id w.calls 0 in
      and_then
        (port O (λ n. insert_inbound (O.utc n) (record {
          id = id;
          tenant_id = tenant.id;
          issuer_nit = sender_nit;
          document_type = invoice;
          prefix = prefix;
          document_number = number;
          cufe = cufe;
          payload = payload;
          signed_xml = signed_xml;
          status = dian_accepted;
        })))
        (λ inserted.
          if inserted
          then give (ok (record { document_id = id; parent_document_id = invoice_id }))
          else give (
              err (
                conflict (
                  fixed (
                    "La factura " ++ invoice_id ++ " del emisor " ++ sender_nit
                    ++ " ya estaba registrada")))))
        w

  abbrev pub verified_payload : InvoiceFacts → String → String → V
  verified_payload f invoice_signer dian_signer = J.object (
      ("inbound", J.of_bool true)
      ∷ ("signature_verified", J.of_bool true)
      ∷ ("parent_document_id", J.of_str f.ids.invoice_id)
      ∷ ("cufe", J.of_str f.ids.cufe)
      ∷ ("issue_date", or_null f.issue_date)
      ∷ ("payable_amount", or_null f.payable_amount)
      ∷ ("sender_nit", J.of_str f.ids.sender_nit)
      ∷ ("sender_name", J.of_str f.ids.sender_name)
      ∷ ("receiver_nit", J.of_str f.ids.receiver_nit)
      ∷ ("receiver_name", J.of_str f.receiver_name)
      ∷ ("invoice_signer", J.of_str invoice_signer)
      ∷ ("dian_signer", J.of_str dian_signer)
      ∷ [])

  abbrev pub unverified_payload : UnverifiedFacts → V
  unverified_payload f = J.object (
      ("inbound", J.of_bool true)
      ∷ ("signature_verified", J.of_bool false)
      ∷ ("parent_document_id", J.of_str f.parent_document_id)
      ∷ ("cufe", J.of_str f.cufe)
      ∷ ("sender_nit", J.of_str f.sender_nit)
      ∷ ("sender_name", J.of_str f.sender_name)
      ∷ ("receiver_nit", J.of_str f.receiver_nit)
      ∷ ("receiver_name", J.of_str f.receiver_name)
      ∷ [])

  unfoldable pub verify :
      InboundVerification → String → String → Action V (Result VerifiedSignature)
  verify v what xml = remote O (λ n. map_error (in_signature what) (v.verifier n xml))

  -- From the DIAN's signature on.
  unfoldable pub register_signed :
      Tenant V
      → String
      → String
      → Attached
      → VerifiedSignature
      → VerifiedSignature
      → Action V (Result InboundRegistered)
  register_signed tenant dian_signer_subject attached_xml a invoice_signature response_signature =
      if not (contains_text dian_signer_subject response_signature.signer_subject)
      then give (
          err (
            validation (
              fixed (
                "El ApplicationResponse no esta firmado por la DIAN (firmante: "
                ++ response_signature.signer_subject ++ ")"))))
      else or_stop (facts read tenant a) (λ f.
        insert_received tenant f.ids.invoice_id f.ids.sender_nit f.prefix f.number f.ids.cufe
          (verified_payload f invoice_signature.signer_subject response_signature.signer_subject)
          attached_xml)

  unfoldable pub register_verified :
      Option InboundVerification → Tenant V → String → Action V (Result InboundRegistered)
  register_verified verification tenant attached_xml =
      case_option verification
        (give (err (internal (fixed "Inbound signature verification is not configured"))))
        (λ v. or_stop (attached read attached_xml) (λ a.
          and_then (verify v "el AttachedDocument" attached_xml) (λ _.
            and_then (verify v "la factura" a.invoice_xml) (λ invoice_signature.
              and_then (verify v "el ApplicationResponse" a.response_xml)
                (register_signed tenant v.dian_signer_subject attached_xml a invoice_signature)))))

  unfoldable pub register_unverified : Tenant V → String → Action V (Result InboundRegistered)
  register_unverified tenant xml = or_stop (unverified_facts tenant xml) (λ f.
      insert_received tenant f.parent_document_id f.sender_nit f.prefix f.number f.cufe
        (unverified_payload f) xml)
