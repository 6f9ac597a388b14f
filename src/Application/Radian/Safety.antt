-- ===== src/Application/Radian/Safety.antt =====
-- No RADIAN event about an invoice whose signature was not verified.
use dian_service.Base.{
  ℕ, suc, ◌≡◌, refl, sym, ◌∙◌, false, Option, none, some, String, inl, inr, ◌==◌, ℕ_eq, ◌⊎◌, lookup,
  Bool-cases, Option-cases,
}
use dian_service.Base.Xml.{Reader}
use dian_service.Domain.Errors.{ok, err, DomainError, not_found, document_id}
use dian_service.Domain.Json.{Json, IsJson}
use dian_service.Domain.Models.{Document, Tenant}
use dian_service.Store.State.{State}
use dian_service.Store.Documents.{find_tenant_document}
use dian_service.Application.World.{World, Outside, port, and_then, or_stop, ◌>>=◌ as ◌bind◌, give}
use dian_service.Application.World.Runs.{Returns-or_stop}
use dian_service.Application.Inbound.{InboundRegistered}
use dian_service.Application.Inbound.Register.{
  register_unverified, unverified_payload, unverified_facts,
}
use dian_service.Application.Inbound.Stored.{insert_received-IsRegistered}
use dian_service.Application.Radian.{
  RadianEventRequest, RadianPorts, is_yes, flag_at, subject, register_event, not_inbound,
  not_verified,
}

-- Refused by its signature, whatever else it holds.
abbrev pub IsUnverified : {V : Type 0} → Json V → V → Type 0
IsUnverified J payload = is_yes (flag_at J payload "signature_verified") ≡ false

module _ {V : Type 0} (J : Json V) where
  subject-IsUnverified :
      (payload : V) (event_code : String)
      → IsUnverified J payload
      → (e : DomainError) × (subject J payload event_code ≡ err e)
  unfolding subject
  subject-IsUnverified payload event_code h =
      elim (Bool-cases (is_yes (flag_at J payload "inbound"))) [
        | inl e ↦ (not_verified, rw (e, h) refl)
        | inr e ↦ (not_inbound, rw e refl)
      ]

module _ {V : Type 0} (J : Json V) (O : Outside V) (P : RadianPorts) (tenant : Tenant V) where
  -- The call is an error, and nothing was sent or recorded.
  abbrev pub Refused : ℕ → RadianEventRequest → World V → Type 0
  Refused id request w =
      (e : DomainError) × ((register_event J O P tenant id request w).0 ≡ err e)
      × ((register_event J O P tenant id request w).1
          ≡ record w { store = O.others w.calls w.store; calls = suc w.calls })

  find_tenant_document-cases :
      (s : State V) (id : ℕ)
      → (find_tenant_document s tenant.id id ≡ none)
        ⊎ ((d : Document V) × (find_tenant_document s tenant.id id ≡ some d)
            × (lookup id s.documents ≡ some d))
  unfolding find_tenant_document
  find_tenant_document-cases s id = elim (Option-cases (lookup id s.documents)) [
    | inl e ↦ inl (rw (e, find_tenant_document) refl)
    | inr (d, e) ↦ elim (Bool-cases (d.tenant_id == tenant.id)) [
      | inl same ↦ inr (d, rw (e, find_tenant_document) (rw same refl), e)
      | inr other ↦ inl (rw (e, find_tenant_document) (rw other refl))
    ]
  ]

  pub register_event-Refused :
      (id : ℕ) (request : RadianEventRequest) (w : World V)
      → ((d : Document V)
          → lookup id (O.others w.calls w.store).documents ≡ some d
          → IsUnverified J d.payload)
      → Refused id request w
  unfolding register_event and_then ◌bind◌ or_stop port give
  register_event-Refused id request w unverified =
      elim (find_tenant_document-cases (O.others w.calls w.store) id) [
        | inl e ↦ (not_found (document_id id), rw e refl, rw e refl)
        | inr (d, e, l) ↦
            let (x, refused) =
              subject-IsUnverified J d.payload request.event_code (unverified d l) in
            (x, rw e (rw refused refl), rw e (rw refused refl))
      ]

module _ {V : Type 0} (J : Json V) (law : IsJson J) (O : Outside V) (read : Reader) where
  unverified_payload-IsUnverified : (f : _) → IsUnverified J (unverified_payload J O read f)
  unverified_payload-IsUnverified f =
      rw (law.get-object "signature_verified", flag_at) (rw (law.as_bool-of_bool false) refl)

  -- What `register_unverified` has stored under the id that it returns.
  pub register_unverified-IsUnverified :
      (tenant : Tenant V) (xml : String) (w : World V) (r : InboundRegistered)
      → (register_unverified J O read tenant xml w).0 ≡ ok r
      → (d : Document V) × (lookup r.document_id
            (register_unverified J O read tenant xml w).1.store.documents
          ≡ some d)
        × IsUnverified J d.payload
  unfolding register_unverified
  register_unverified-IsUnverified tenant xml w =
      Returns-or_stop
        (λ r u.
          (d : Document V) × (lookup r.document_id u.store.documents ≡ some d)
          × IsUnverified J d.payload)
        (unverified_facts tenant xml) _ w
        (λ f e r h.
          let s =
            insert_received-IsRegistered J O read tenant f.parent_document_id f.sender_nit f.prefix
              f.number f.cufe (unverified_payload J O read f) xml w h in
          (s.document, s.there, rw s.payload_of (unverified_payload-IsUnverified f)))

-- A document that was registered without its signatures verified gets no RADIAN event: in every later
-- world where the store still has it as it was registered, `register_event` is an error for every
-- tenant and request, nothing is sent to the DIAN, and no event is recorded.
pub register_unverified-Refused :
    {V : Type 0} (J : Json V) (law : IsJson J) (O : Outside V) (read : Reader) (P : RadianPorts)
    (tenant other : Tenant V) (xml : String) (w later : World V) (r : InboundRegistered)
    (request : RadianEventRequest)
    → (register_unverified J O read tenant xml w).0 ≡ ok r
    → lookup r.document_id (O.others later.calls later.store).documents
      ≡ lookup r.document_id (register_unverified J O read tenant xml w).1.store.documents
    → Refused J O P other r.document_id request later
register_unverified-Refused J law O read P tenant other xml w later r request h same =
    let (d, there, unverified) = register_unverified-IsUnverified J law O read tenant xml w r h in
    register_event-Refused J O P other r.document_id request later
      (λ c l. along c d (sym l ∙ same ∙ there) unverified)
  where
    along :
        (c d : Document _)
        → Option.some c ≡ some d
        → IsUnverified J d.payload
        → IsUnverified J c.payload
    along c d e u = let same : c ≡ d = cc in rw same u
