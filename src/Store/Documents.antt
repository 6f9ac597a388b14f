-- ===== src/Store/Documents.antt =====
-- core-domain/src/testing.rs, `impl DocumentRepository for InMemoryStore`, without `apply_transition`.
use dian_service.Base.{
  ℕ, Bool, ◌&&◌, not, List, [], ◌∷◌, ◌++◌, Option, none, some, String, lookup, insert, adjust,
  values, any, keep, ◌==◌, ℕ_eq, string_eq, leb, ltb, if◌then◌else◌,
}
use dian_service.Base.Int.{ℤ, ℤ_eq}
use dian_service.Domain.Enums.{
  DocumentType, DocumentStatus, outbound, inbound, document_type_eq, direction_eq,
}
use dian_service.Domain.Errors.{
  Result, ok, err, validation, conflict, not_found, fixed, no_range, document_exists, document_id,
}
use dian_service.Domain.Models.{NumberingRange, Document, DianEvent, NewJob}
use dian_service.Domain.Numbering.{next_number}
use dian_service.Domain.Ports.{
  IdempotencyKey, NewOutboundDocument, NewInboundDocument, IssuedDocument, IssueOutcome, created,
  replayed,
}
use dian_service.Store.State.{State, UsedKey, insert_job}

unfoldable pub find_key : ℕ → String → List UsedKey → Option UsedKey
find_key tenant_id key [] = none
find_key tenant_id key (u ∷ us) =
    if u.tenant_id == tenant_id && u.key == key then some u else find_key tenant_id key us

unfoldable pub put_key : UsedKey → List UsedKey → List UsedKey
put_key k [] = k ∷ []
put_key k (u ∷ us) =
    if u.tenant_id == k.tenant_id && u.key == k.key then k ∷ us else u ∷ put_key k us

-- What the store answers at once to a key that it knows.
unfoldable pub replay : ℕ → Option IdempotencyKey → List UsedKey → Option (Result IssueOutcome)
replay tenant_id none used = none
replay tenant_id (some k) used = elim (find_key tenant_id k.key used) [
  | none ↦ none
  | some u ↦ some (
      if not (u.request_hash == k.request_hash)
      then err (validation (fixed "La clave de idempotencia ya se uso con un cuerpo distinto"))
      else ok (replayed u.issued))
]

-- `max_by_key(|r| r.valid_date_from)`: of equal keys the last.
unfoldable pub latest_from : NumberingRange → List NumberingRange → NumberingRange
latest_from best [] = best
latest_from best (r ∷ rs) =
    latest_from (if ltb r.valid_date_from best.valid_date_from then best else r) rs

unfoldable pub latest : List NumberingRange → Option NumberingRange
latest [] = none
latest (r ∷ rs) = some (latest_from r rs)

module _ {V : Type 0} where
  abbrev pub applies : ℕ → NewOutboundDocument V → NumberingRange → Bool
  applies now d r =
      r.tenant_id == d.tenant_id
      && r.document_type == d.document_type
      && r.prefix == d.prefix
      && leb r.valid_date_from now
      && leb now r.valid_date_to

  unfoldable pub pick_range : ℕ → NewOutboundDocument V → State V → Option NumberingRange
  unfolding latest latest_from
  pick_range now d s = latest (keep (applies now d) (values s.ranges))

  abbrev pub same_outbound : ℕ → DocumentType → String → ℤ → Document V → Bool
  same_outbound tenant_id document_type prefix number d =
      d.tenant_id == tenant_id
      && d.direction == outbound
      && d.document_type == document_type
      && d.prefix == prefix
      && d.document_number == number

  abbrev pub issued_document : ℕ → NewOutboundDocument V → NumberingRange → ℤ → Document V
  issued_document now d range number = record {
    id = d.id;
    tenant_id = d.tenant_id;
    direction = outbound;
    issuer_nit = "";
    document_type = d.document_type;
    prefix = d.prefix;
    document_number = number;
    numbering_range_id = some range.id;
    cufe_cude = "";
    payload = d.payload;
    original_xml = none;
    signed_xml = none;
    pdf_url = none;
    status = DocumentStatus.pending;
    created_at = now;
  }

  -- The counter advances and the document is there.
  unfoldable pub numbered : ℕ → NewOutboundDocument V → NumberingRange → ℤ → State V → State V
  numbered now d range number s = record s {
    ranges = adjust range.id (λ r. record r { current_counter = number }) s.ranges;
    documents = insert d.id (issued_document now d range number) s.documents;
  }

  unfoldable pub remember :
      NewOutboundDocument V → IssuedDocument → Option IdempotencyKey → State V → State V
  remember d issued none s = s
  remember d issued (some k) s = record s {
    idempotency =
        put_key
          (record {
            tenant_id = d.tenant_id;
            key = k.key;
            request_hash = k.request_hash;
            issued = issued;
          })
          s.idempotency;
  }

  abbrev pub issued_as : NewOutboundDocument V → ℤ → IssuedDocument
  issued_as d number = record { document_id = d.id; document_number = number }

  unfoldable pub issue_number :
      ℕ
      → NewOutboundDocument V
      → NewJob V
      → NumberingRange
      → ℤ
      → State V
      → Result IssueOutcome × State V
  issue_number now d job range number s =
      if any (same_outbound d.tenant_id d.document_type d.prefix number) (values s.documents)
      then (err (conflict (document_exists d.prefix number)), s)
      else let (r, t) = insert_job job (numbered now d range number s) in
        elim r [
          | ok _ ↦
              (ok (created (issued_as d number)), remember d (issued_as d number) d.idempotency t)
          | err e ↦ (err e, t)
        ]

  unfoldable pub issue_new :
      ℕ → NewOutboundDocument V → NewJob V → State V → Result IssueOutcome × State V
  issue_new now d job s = elim (pick_range now d s) [
    | none ↦ (err (validation (no_range d.prefix d.document_type)), s)
    | some range ↦ elim (next_number range d.requested_number now) [
      | ok number ↦ issue_number now d job range number s
      | err e ↦ (err e, s)
    ]
  ]

  unfoldable pub issue_outbound :
      ℕ → NewOutboundDocument V → NewJob V → State V → Result IssueOutcome × State V
  issue_outbound now d job s = elim (replay d.tenant_id d.idempotency s.idempotency) [
    | some answer ↦ (answer, s)
    | none ↦ issue_new now d job s
  ]

  abbrev pub same_inbound : NewInboundDocument V → Document V → Bool
  same_inbound n d =
      d.tenant_id == n.tenant_id
      && d.direction == inbound
      && d.issuer_nit == n.issuer_nit
      && d.document_type == n.document_type
      && d.prefix == n.prefix
      && d.document_number == n.document_number

  abbrev pub received_document : ℕ → NewInboundDocument V → Document V
  received_document now n = record {
    id = n.id;
    tenant_id = n.tenant_id;
    direction = inbound;
    issuer_nit = n.issuer_nit;
    document_type = n.document_type;
    prefix = n.prefix;
    document_number = n.document_number;
    numbering_range_id = none;
    cufe_cude = n.cufe;
    payload = n.payload;
    original_xml = none;
    signed_xml = some n.signed_xml;
    pdf_url = none;
    status = n.status;
    created_at = now;
  }

  unfoldable pub insert_inbound : ℕ → NewInboundDocument V → State V → Result Bool × State V
  insert_inbound now n s =
      if any (same_inbound n) (values s.documents) then (ok Bool.false, s) else (
        ok Bool.true,
        record s { documents = insert n.id (received_document now n) s.documents },
      )

  unfoldable pub find_document : State V → ℕ → Option (Document V)
  find_document s id = lookup id s.documents

  unfoldable pub find_tenant_document : State V → ℕ → ℕ → Option (Document V)
  find_tenant_document s tenant_id id = elim (lookup id s.documents) [
    | none ↦ none
    | some d ↦ if d.tenant_id == tenant_id then some d else none
  ]

  unfoldable pub find_numbering_range : State V → ℕ → Option NumberingRange
  find_numbering_range s id = lookup id s.ranges

  unfoldable pub store_artifacts :
      ℕ → String → String → String → State V → Result (Unit {0}) × State V
  store_artifacts id cufe original_xml signed_xml s = elim (lookup id s.documents) [
    | none ↦ (err (not_found (document_id id)), s)
    | some _ ↦ (
      ok tt,
      record s {
        documents =
            adjust id
              (λ d. record d {
                cufe_cude = cufe;
                original_xml = some original_xml;
                signed_xml = some signed_xml;
              })
              s.documents;
      },
    )
  ]

  unfoldable pub record_event : DianEvent → State V → Result (Unit {0}) × State V
  record_event event s = (ok tt, record s { events = s.events ++ event ∷ [] })

  unfoldable pub find_events : State V → ℕ → List DianEvent
  find_events s document = keep (λ e. e.document_id == document) s.events
