-- ===== src/Application/Inbound/Registered.antt =====
-- What a verified registration means.
use dian_service.Base.{ℕ, suc, ◌≡◌, true, some, String}
use dian_service.Base.Strings.{contains_text}
use dian_service.Base.Xml.{Reader}
use dian_service.Domain.Checks.{not-false, map_error-ok}
use dian_service.Domain.Errors.{ok}
use dian_service.Domain.Json.{Json}
use dian_service.Domain.Models.{Tenant}
use dian_service.Domain.Ports.{VerifiedSignature}
use dian_service.Application.World.{World, Outside, remote}
use dian_service.Application.World.Runs.{
  Returns, Returns-or_stop, Returns-and_then, Returns-err, Returns-if,
}
use dian_service.Application.Inbound.Stored.{IsRegistered, insert_received-IsRegistered}
use dian_service.Application.Inbound.{
  InboundRegistered, InboundVerification, Attached, InvoiceFacts, attached, facts,
}
use dian_service.Application.Inbound.Verified.{IsGenuine, facts-IsGenuine}
use dian_service.Application.Inbound.Register.{
  verify, register_signed, register_verified, verified_payload,
}

-- What a verified registration means: the three signatures were verified, the last one is the DIAN's,
-- the facts are genuine, and the document with these facts is stored.
pub record IsVerified {V : Type 0} (J : Json V) (O : Outside V) (read : Reader)
    (v : InboundVerification) (tenant : Tenant V) (xml : String) (calls : ℕ) (r : InboundRegistered)
    (w : World V) : Type 0 where
  pub a : Attached
  pub f : InvoiceFacts
  pub container_signature : VerifiedSignature
  pub invoice_signature : VerifiedSignature
  pub response_signature : VerifiedSignature
  pub opened : attached read xml ≡ ok a
  pub signed :
      (v.verifier calls xml ≡ ok container_signature)
      × (v.verifier (suc calls) a.invoice_xml ≡ ok invoice_signature)
      × (v.verifier (suc (suc calls)) a.response_xml ≡ ok response_signature)
  pub by_dian : contains_text v.dian_signer_subject response_signature.signer_subject ≡ true
  pub genuine : IsGenuine read tenant a f
  pub registered :
      IsRegistered tenant f.ids.invoice_id f.ids.sender_nit f.prefix f.number f.ids.cufe
        (verified_payload J O read f invoice_signature.signer_subject
          response_signature.signer_subject)
        xml
        r
        w

module _ {V : Type 0} (J : Json V) (O : Outside V) (read : Reader) (v : InboundVerification) where
  module _ (tenant : Tenant V) (xml : String) (calls : ℕ) where
    -- What is left to show once the DIAN's signature is there.
    register_signed-IsVerified :
        (a : Attached) (s0 s t : VerifiedSignature) (w : World V)
        → attached read xml ≡ ok a
        → ((v.verifier calls xml ≡ ok s0)
            × (v.verifier (suc calls) a.invoice_xml ≡ ok s)
            × (v.verifier (suc (suc calls)) a.response_xml ≡ ok t))
        → Returns
            (IsVerified J O read v tenant xml calls)
            (register_signed J O read tenant v.dian_signer_subject xml a s t)
            w
    unfolding register_signed
    register_signed-IsVerified a s0 s t w opened signed =
        Returns-if C _ _ _ w (λ _. Returns-err C _ w)
          (λ by_dian. Returns-or_stop C (facts read tenant a) _ w (λ f e r h. record {
            a = a;
            f = f;
            container_signature = s0;
            invoice_signature = s;
            response_signature = t;
            opened = opened;
            signed = signed;
            by_dian = not-false _ by_dian;
            genuine = facts-IsGenuine read tenant a e;
            registered =
                insert_received-IsRegistered J O read tenant f.ids.invoice_id f.ids.sender_nit
                  f.prefix f.number f.ids.cufe
                  (verified_payload J O read f s.signer_subject t.signer_subject) xml w h;
          }))
      where
        C : InboundRegistered → World V → Type 0
        C = IsVerified J O read v tenant xml calls

  -- If a verified registration succeeds, the signatures of the container, of the embedded invoice and of
  -- the embedded response have been verified, the last one is the DIAN's, the response accepts (code 02)
  -- this very invoice (its CUFE), the container names its number, its buyer is the tenant, and the
  -- store has the document with its supplier, number, CUFE and the text received, marked as verified.
  pub register_verified-IsVerified :
      (tenant : Tenant V) (xml : String) (w : World V) (r : InboundRegistered)
      → (register_verified J O read (some v) tenant xml w).0 ≡ ok r
      → IsVerified J O read v tenant xml w.calls r
          (register_verified J O read (some v) tenant xml w).1
  unfolding register_verified verify remote
  register_verified-IsVerified tenant xml w = Returns-or_stop C (attached read xml) _ w (λ a opened.
      Returns-and_then C (verify J O read v "el AttachedDocument" xml) _ w (λ s0 e0.
        Returns-and_then C (verify J O read v "la factura" a.invoice_xml) _ _ (λ s e1.
          Returns-and_then C (verify J O read v "el ApplicationResponse" a.response_xml) _ _
            (λ t e2.
              register_signed-IsVerified tenant xml w.calls a s0 s t _ opened
                (map_error-ok _ _ e0, map_error-ok _ _ e1, map_error-ok _ _ e2)))))
    where
      C : InboundRegistered → World V → Type 0
      C = IsVerified J O read v tenant xml w.calls
