-- ===== src/Store/Operations.antt =====
-- Each operation of the store moves its documents along the diagram of their life, if the ids that
-- it is given are new.
use dian_service.Base.{
  ℕ, ◌≡◌, refl, ◌⊎◌, inl, inr, Bool-cases, Option, none, some, String, arith, lookup, values,
  Option-cases, any,
}
use dian_service.Base.Int.{ℤ}
use dian_service.Domain.Enums.{DocumentStatus, document_status_eq}
use dian_service.Domain.Errors.{ok, Result-cases}
use dian_service.Domain.Json.{Json}
use dian_service.Domain.Lifecycle.{can_transition_to}
use dian_service.Domain.Lifecycle.Graph.{◌⟶*◌, here, next, can_transition_to_iff}
use dian_service.Domain.Models.{Document, NewJob, NumberingRange}
use dian_service.Domain.Numbering.{next_number}
use dian_service.Domain.Ports.{
  NewOutboundDocument, NewInboundDocument, Transition, IssuedDocument, IdempotencyKey,
}
use dian_service.Store.State.{State, insert_job}
use dian_service.Store.Documents.{
  replay, pick_range, numbered, remember, issue_number, issue_new, issue_outbound, insert_inbound,
  store_artifacts, issued_document, issued_as, same_inbound, received_document,
}
use dian_service.Store.Transitions.{
  set_status, apply_transition, notify, push_event, finish, close_job,
}
use dian_service.Store.Frame.{
  SameDocuments, SameDocuments-trans, insert_job-SameDocuments, close_job-SameDocuments,
  enqueue_follow_up-SameDocuments, push_event-SameDocuments, notify-SameButDeliveries,
}
use dian_service.Store.Evolution.{
  Follows, with_status, with_status-Follows, Evolves, Evolves-refl, Evolves-of_eq, Evolves-trans,
  adjust-Evolves, insert-Evolves,
}

module _ {V : Type 0} where
  pub set_status-Evolves :
      (s : State V) (id : ℕ) (d : Document V) (to : DocumentStatus)
      → lookup id s.documents ≡ some d
      → d.status ⟶* to
      → Evolves s.documents (set_status id to s).documents
  unfolding set_status
  set_status-Evolves s id d to h step = adjust-Evolves id _ s.documents (λ _. refl) follows
    where
      follows : (e : Document V) → lookup id s.documents ≡ some e → Follows e (with_status e to)
      follows e k = let same : d ≡ e = cc in rw (← same) (with_status-Follows d to step)

  remember-documents :
      (d : NewOutboundDocument V) (issued : IssuedDocument) (k : Option IdempotencyKey)
      (s : State V)
      → (remember d issued k s).documents ≡ s.documents
  unfolding remember
  remember-documents d issued none s = refl
  remember-documents d issued (some k) s = refl

  issue_number-documents :
      (now : ℕ) (d : NewOutboundDocument V) (job : NewJob V) (range : NumberingRange) (number : ℤ)
      (s : State V)
      → let after = (issue_number now d job range number s).1.documents in
        (after ≡ s.documents) ⊎ (after ≡ (numbered now d range number s).documents)
  unfolding issue_number
  issue_number-documents now d job range number s =
      let t = numbered now d range number s in
      ground (
        arith,
        (insert_job-SameDocuments job t).documents,
        remember-documents d (issued_as d number) d.idempotency (insert_job job t).1,
      )

  numbered-Evolves :
      (now : ℕ) (d : NewOutboundDocument V) (range : NumberingRange) (number : ℤ) (s : State V)
      → lookup d.id s.documents ≡ none
      → Evolves s.documents (numbered now d range number s).documents
  unfolding numbered
  numbered-Evolves now d range number s new =
      insert-Evolves (issued_document now d range number) s.documents new

  pub issue_number-Evolves :
      (now : ℕ) (d : NewOutboundDocument V) (job : NewJob V) (range : NumberingRange) (number : ℤ)
      (s : State V)
      → lookup d.id s.documents ≡ none
      → Evolves s.documents (issue_number now d job range number s).1.documents
  issue_number-Evolves now d job range number s new =
      elim (issue_number-documents now d job range number s) [
        | inl same ↦ Evolves-of_eq same
        | inr added ↦ rw added (numbered-Evolves now d range number s new)
      ]

  module _ {ℓ} (P : State V → Type ℓ) (now : ℕ) (d : NewOutboundDocument V) (job : NewJob V)
      (s : State V) where
    numbered_cases :
        (range : NumberingRange)
        → pick_range now d s ≡ some range
        → P s
        → ((number : ℤ)
            → next_number range d.requested_number now ≡ ok number
            → P (issue_number now d job range number s).1)
        → P (issue_new now d job s).1
    unfolding issue_new
    numbered_cases range picked same issued =
        elim (Result-cases (next_number range d.requested_number now)) [
          | inl (number, e) ↦ rw (picked, issue_new) (rw e (issued number e))
          | inr (_, e) ↦ rw (picked, issue_new) (rw e same)
        ]

    pub new_cases :
        P s
        → ((range : NumberingRange) (number : ℤ)
            → pick_range now d s ≡ some range
            → next_number range d.requested_number now ≡ ok number
            → P (issue_number now d job range number s).1)
        → P (issue_new now d job s).1
    unfolding issue_new
    new_cases same issued = elim (Option-cases (pick_range now d s)) [
      | inl e ↦ rw (e, issue_new) same
      | inr (range, e) ↦ numbered_cases range e same (λ number. issued range number e)
    ]

    -- A property of stores that holds before an issue and after its successful numbering holds after
    -- it on every branch.
    pub issue_outbound_cases :
        P s
        → ((range : NumberingRange) (number : ℤ)
            → pick_range now d s ≡ some range
            → next_number range d.requested_number now ≡ ok number
            → P (issue_number now d job range number s).1)
        → P (issue_outbound now d job s).1
    unfolding issue_outbound
    issue_outbound_cases same issued =
        elim (Option-cases (replay d.tenant_id d.idempotency s.idempotency)) [
          | inl e ↦ rw (e, issue_outbound) (new_cases same issued)
          | inr (_, e) ↦ rw (e, issue_outbound) same
        ]

  pub issue_outbound-Evolves :
      (now : ℕ) (d : NewOutboundDocument V) (job : NewJob V) (s : State V)
      → lookup d.id s.documents ≡ none
      → Evolves s.documents (issue_outbound now d job s).1.documents
  issue_outbound-Evolves now d job s new =
      issue_outbound_cases (λ t. Evolves s.documents t.documents) now d job s
        (Evolves-refl s.documents)
        (λ range number _ _. issue_number-Evolves now d job range number s new)

  pub insert_inbound-Evolves :
      (now : ℕ) (n : NewInboundDocument V) (s : State V)
      → lookup n.id s.documents ≡ none
      → Evolves s.documents (insert_inbound now n s).1.documents
  unfolding insert_inbound
  insert_inbound-Evolves now n s new =
      elim (Bool-cases (any (same_inbound n) (values s.documents))) [
        | inl old ↦ rw (old, insert_inbound) (Evolves-refl s.documents)
        | inr unknown ↦
            rw (unknown, insert_inbound) (insert-Evolves (received_document now n) s.documents new)
      ]

  artifacts-Follows :
      (d : Document V) (cufe original_xml signed_xml : String)
      → Follows d (record d {
        cufe_cude = cufe;
        original_xml = some original_xml;
        signed_xml = some signed_xml;
      })
  artifacts-Follows d cufe original_xml signed_xml = record {
    id = refl;
    tenant_id = refl;
    direction = refl;
    issuer_nit = refl;
    document_type = refl;
    prefix = refl;
    document_number = refl;
    numbering_range_id = refl;
    payload = refl;
    created_at = refl;
    status = here;
  }

  pub store_artifacts-Evolves :
      (id : ℕ) (cufe original_xml signed_xml : String) (s : State V)
      → Evolves s.documents (store_artifacts id cufe original_xml signed_xml s).1.documents
  unfolding store_artifacts
  store_artifacts-Evolves id cufe original_xml signed_xml s =
      elim (Option-cases (lookup id s.documents)) [
        | inl e ↦ rw (e, store_artifacts) (Evolves-refl s.documents)
        | inr (d, e) ↦
            rw (e, store_artifacts)
              (adjust-Evolves id _ s.documents (λ _. refl)
                (λ x _. artifacts-Follows x cufe original_xml signed_xml))
      ]

  -- The part of a transition after the change of status, successful or not, leaves the documents.
  pub finish-SameDocuments : (t : Transition V) (s : State V) → SameDocuments s (finish t s).1
  unfolding finish
  finish-SameDocuments t s =
      let u = (close_job t.job s).1 in
      let h = close_job-SameDocuments t.job s in
      let k = enqueue_follow_up-SameDocuments t.follow_up u in
      ground (arith, h.documents, h.ranges, h.idempotency, k.documents, k.ranges, k.idempotency)

module _ {V : Type 0} (J : Json V) where
  pub moved :
      (fresh : ℕ → ℕ) (now : ℕ) (t : Transition V) (d : Document V) (s : State V)
      → SameDocuments
          (set_status t.document_id t.to s)
          (push_event t.event (notify J fresh now d t.to (set_status t.document_id t.to s)))
  moved fresh now t d s =
      let u = set_status t.document_id t.to s in
      let n = notify-SameButDeliveries J fresh now d t.to u in
      SameDocuments-trans
        (record { documents = n.documents; ranges = n.ranges; idempotency = n.idempotency })
        (push_event-SameDocuments t.event (notify J fresh now d t.to u))

  pub apply_transition-Evolves :
      (fresh : ℕ → ℕ) (now : ℕ) (t : Transition V) (s : State V)
      → Evolves s.documents (apply_transition J fresh now t s).1.documents
  unfolding apply_transition
  apply_transition-Evolves fresh now t s = elim (Option-cases (lookup t.document_id s.documents)) [
    | inl missing ↦ rw (missing, apply_transition) (Evolves-refl s.documents)
    | inr (d, found) ↦ elim (Bool-cases (can_transition_to d.status t.to)) [
      | inl allowed ↦
          rw (found, apply_transition)
            (rw allowed (
              Evolves-trans
                (set_status-Evolves s t.document_id d t.to found
                  (next here ((can_transition_to_iff d.status t.to).0 allowed)))
                (Evolves-of_eq
                  (SameDocuments-trans (moved fresh now t d s)
                    (finish-SameDocuments t _)).documents)))
      | inr refused ↦ rw (found, apply_transition) (rw refused (Evolves-refl s.documents))
    ]
  ]
