-- ===== src/Application/Inbound/Stored.antt =====
-- What a registration stores.
use dian_service.Base.{
  ℕ, suc, ◌≡◌, refl, true, false, some, String, inl, inr, any, values, Dict, lookup, ◌⊎◌, insert,
  Bool-cases, lookup-insert, arith,
}
use dian_service.Base.Int.{ℤ}
use dian_service.Base.Xml.{Reader}
use dian_service.Domain.Checks.{along_ok}
use dian_service.Domain.Enums.{invoice, inbound, dian_accepted}
use dian_service.Domain.Errors.{ok}
use dian_service.Domain.Json.{Json}
use dian_service.Domain.Models.{Tenant, Document}
use dian_service.Domain.Ports.{NewInboundDocument}
use dian_service.Store.State.{State}
use dian_service.Store.Documents.{insert_inbound, received_document, same_inbound}
use dian_service.Application.World.{World, Outside, port, give, or_stop, and_then, ◌>>=◌}
use dian_service.Application.Inbound.{InboundRegistered}
use dian_service.Application.Inbound.Register.{insert_received}

lookup-insert_self : {A : Type 0} (k : ℕ) (v : A) (m : Dict A) → lookup k (insert k v m) ≡ some v
lookup-insert_self k v m = ground (arith, lookup-insert k k v m)

module _ {V : Type 0} where
  -- Stored, or there already.
  insert_inbound-ok :
      (now : ℕ) (n : NewInboundDocument V) (s : State V)
      → (insert_inbound now n s ≡ (ok false, s))
        ⊎ ((t : State V) × (insert_inbound now n s ≡ (ok true, t))
            × (lookup n.id t.documents ≡ some (received_document now n)))
  unfolding insert_inbound
  insert_inbound-ok now n s = elim (Bool-cases (any (same_inbound n) (values s.documents))) [
    | inl e ↦ inl (rw e refl)
    | inr e ↦ inr (
      record s { documents = insert n.id (received_document now n) s.documents },
      rw e refl,
      lookup-insert_self n.id (received_document now n) s.documents,
    )
  ]

-- The document that a registration has stored: one of the tenant, accepted, that holds the text.
pub record IsRegistered {V : Type 0} (tenant : Tenant V) (invoice_id sender_nit prefix : String)
    (number : ℤ) (cufe : String) (payload : V) (signed_xml : String) (r : InboundRegistered)
    (w : World V) : Type 0 where
  pub document : Document V
  pub there : lookup r.document_id w.store.documents ≡ some document
  pub parent : r.parent_document_id ≡ invoice_id
  pub of_tenant : document.tenant_id ≡ tenant.id
  pub issuer : document.issuer_nit ≡ sender_nit
  pub number_of : (document.prefix ≡ prefix) × (document.document_number ≡ number)
  pub cufe_of : document.cufe_cude ≡ cufe
  pub payload_of : document.payload ≡ payload
  pub xml_of : document.signed_xml ≡ some signed_xml
  pub is_accepted : (document.direction ≡ inbound) × (document.status ≡ dian_accepted)

module _ {V : Type 0} (J : Json V) (O : Outside V) (read : Reader) (tenant : Tenant V)
    (invoice_id sender_nit prefix : String) (number : ℤ) (cufe : String) (payload : V)
    (signed_xml : String) where
  pub insert_received-IsRegistered :
      (w : World V) {r : InboundRegistered}
      → (insert_received J O read tenant invoice_id sender_nit prefix number cufe payload signed_xml
          w).0
        ≡ ok r
      → IsRegistered tenant invoice_id sender_nit prefix number cufe payload signed_xml r
          (insert_received J O read tenant invoice_id sender_nit prefix number cufe payload
            signed_xml w).1
  unfolding insert_received port and_then or_stop ◌>>=◌ give
  insert_received-IsRegistered w {r} =
      elim (insert_inbound-ok (O.utc w.calls) (received w) (O.others w.calls w.store)) [
        | inl e ↦ rw e (λ h. cc)
        | inr (t, e, l) ↦ rw e (λ h.
            along_ok
              (λ r.
                IsRegistered tenant invoice_id sender_nit prefix number cufe payload signed_xml r
                  (record w { store = t; calls = suc w.calls }))
              _ r h
              (record {
                document = received_document (O.utc w.calls) (received w);
                there = l;
                parent = refl;
                of_tenant = refl;
                issuer = refl;
                number_of = (refl, refl);
                cufe_of = refl;
                payload_of = refl;
                xml_of = refl;
                is_accepted = (refl, refl);
              }))
      ]
    where
      received : World V → NewInboundDocument V
      received w = record {
        id = O.new_id w.calls 0;
        tenant_id = tenant.id;
        issuer_nit = sender_nit;
        document_type = invoice;
        prefix = prefix;
        document_number = number;
        cufe = cufe;
        payload = payload;
        signed_xml = signed_xml;
        status = dian_accepted;
      }
