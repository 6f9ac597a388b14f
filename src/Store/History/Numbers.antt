-- ===== src/Store/History/Numbers.antt =====
-- Numbers are given out once: two documents that are issued in one history have different ones.
use dian_service.Base.{
  ℕ, ◌≡◌, ◌≢◌, false, List, [], ◌∷◌, some, arith, lookup, Keyed, any-lookup, lookup-insert,
  string_eq, ℕ_eq, eq_iff,
}
use dian_service.Base.Int.{ℤ_eq, eqb_ℤ_iff}
use dian_service.Domain.Enums.{direction_eq, document_type_eq, document_type_index_iff}
use dian_service.Domain.Errors.{ok}
use dian_service.Domain.Json.{Json}
use dian_service.Domain.Models.{Document, NewJob}
use dian_service.Domain.Ports.{NewOutboundDocument, IssuedDocument, created}
use dian_service.Store.State.{State}
use dian_service.Store.Documents.{issue_outbound, issued_document, same_outbound}
use dian_service.Store.Evolution.{Follows}
use dian_service.Store.Issuing.{issue_outbound-Issued, Issued}
use dian_service.Store.History.{Call, issue, run, HaveNewIds, step}
use dian_service.Store.History.Lifecycle.{run-Evolves}

module _ {V : Type 0} where
  pub Issued-there :
      (now : ℕ) (d : NewOutboundDocument V) (job : NewJob V) (s : State V) (i : IssuedDocument)
      (h : Issued now d job i s (issue_outbound now d job s).1)
      → lookup d.id (issue_outbound now d job s).1.documents
        ≡ some (issued_document now d h.range i.document_number)
  Issued-there now d job s i h = ground (
    arith,
    h.documents,
    lookup-insert d.id d.id (issued_document now d h.range i.document_number) s.documents,
  )

  not_same :
      (now : ℕ) (d f : NewOutboundDocument V) (e : Document V) (r : _) (i j : IssuedDocument)
      → Follows (issued_document now d r i.document_number) e
      → same_outbound f.tenant_id f.document_type f.prefix j.document_number e ≡ false
      → f.tenant_id ≡ d.tenant_id
      → f.document_type ≡ d.document_type
      → f.prefix ≡ d.prefix
      → j.document_number ≢ i.document_number
  not_same now d f e r i j h unused tenant type prefix same = ground (
    arith,
    unused,
    tenant,
    h.tenant_id,
    h.direction,
    eq_iff e.prefix f.prefix,
    eqb_ℤ_iff e.document_number j.document_number,
    document_type_index_iff e.document_type f.document_type,
  )

module _ {V : Type 0} (J : Json V) where
  -- Two documents of one tenant with one type and prefix that are issued as new, the second after any
  -- operations on the store, have different numbers, given new ids for new documents.
  pub issue_outbound-distinct :
      (s : State V) (now then : ℕ) (d f : NewOutboundDocument V) (job work : NewJob V)
      (i j : IssuedDocument) (cs : List (Call V))
      → HaveNewIds J (issue now d job ∷ cs) s
      → Keyed (λ d. d.id) s.documents
      → (issue_outbound now d job s).0 ≡ ok (created i)
      → (issue_outbound then f work (run J (issue now d job ∷ cs) s)).0 ≡ ok (created j)
      → f.tenant_id ≡ d.tenant_id
      → f.document_type ≡ d.document_type
      → f.prefix ≡ d.prefix
      → j.document_number ≢ i.document_number
  unfolding run step
  issue_outbound-distinct s now then d f job work i j cs new keyed first second tenant type prefix =
      not_same now d f there.0 one.range i j there.2
        (any-lookup _ d.id there.0 _ (issue_outbound-Issued then f work _ j second).unused there.1)
        tenant type prefix
    where
      one : Issued now d job i s (issue_outbound now d job s).1
      one = issue_outbound-Issued now d job s i first

      keyed_after : Keyed (λ d. d.id) (issue_outbound now d job s).1.documents
      keyed_after = (run-Evolves J (issue now d job ∷ []) s (new.0, tt) keyed).keyed keyed

      there :
          (e : Document V) × (lookup d.id (run J (issue now d job ∷ cs) s).documents ≡ some e)
          × Follows (issued_document now d one.range i.document_number) e
      there =
          (run-Evolves J cs (issue_outbound now d job s).1 new.1 keyed_after).keeps d.id _
            (Issued-there now d job s i one)
