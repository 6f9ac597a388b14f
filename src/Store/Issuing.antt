-- ===== src/Store/Issuing.antt =====
-- What issuing a document promises: a granted number, a pending document, a queued job, and the same
-- answer for the same idempotency key.
use dian_service.Base.{
  ℕ, ◌≡◌, refl, ap, ◌∙◌, inl, inr, false, List, [], ◌∷◌, Option, none, some, arith, insert, adjust,
  values, any, Option-cases, string_eq, ℕ_eq, eq_iff,
}
use dian_service.Base.Int.{ℤ, ℤ_eq}
use dian_service.Domain.Enums.{direction_eq, document_type_eq}
use dian_service.Domain.Errors.{ok, err, Result-cases}
use dian_service.Domain.Models.{NewJob, NumberingRange}
use dian_service.Domain.Numbering.{next_number}
use dian_service.Domain.Ports.{
  NewOutboundDocument, IssuedDocument, IssueOutcome, created, IdempotencyKey,
}
use dian_service.Store.InForce.{IsLatest, pick_range-IsLatest}
use dian_service.Store.State.{State, UsedKey, insert_job, stored}
use dian_service.Store.Documents.{
  find_key, put_key, replay, pick_range, same_outbound, issued_document, numbered, remember,
  issue_number, issue_new, issue_outbound, issued_as,
}

find_key-put_key :
    (k : UsedKey) (us : List UsedKey) → find_key k.tenant_id k.key (put_key k us) ≡ some k
unfolding find_key put_key
find_key-put_key k [] = ground (arith, eq_iff k.key k.key)
find_key-put_key k (u ∷ us) =
    ground (arith, eq_iff k.key k.key, eq_iff u.key k.key, find_key-put_key k us)

-- The request of `d`, once it was issued as `i`.
abbrev pub used : ℕ → IdempotencyKey → IssuedDocument → UsedKey
used tenant_id k i = record {
  tenant_id = tenant_id;
  key = k.key;
  request_hash = k.request_hash;
  issued = i;
}

module _ {V : Type 0} (now : ℕ) (d : NewOutboundDocument V) (job : NewJob V) where
  pub record Issued (i : IssuedDocument) (s u : State V) : Type 0 where
    pub range : NumberingRange
    pub latest : IsLatest now d s range
    pub granted : next_number range d.requested_number now ≡ ok i.document_number
    pub own_id : i.document_id ≡ d.id
    pub unused :
        any
          (same_outbound d.tenant_id d.document_type d.prefix i.document_number)
          (values s.documents)
        ≡ false
    pub documents :
        u.documents ≡ insert d.id (issued_document now d range i.document_number) s.documents
    pub ranges :
        u.ranges ≡ adjust range.id (λ r. record r { current_counter = i.document_number }) s.ranges
    pub jobs : u.jobs ≡ insert job.id (stored job) s.jobs
    pub remembered :
        (k : IdempotencyKey)
        → d.idempotency ≡ some k
        → find_key d.tenant_id k.key u.idempotency ≡ some (used d.tenant_id k i)

  -- The store once the document is numbered and its job is in the queue.
  abbrev complete : NumberingRange → ℤ → State V → State V
  complete r n s =
      let t = numbered now d r n s in
      remember d (issued_as d n) d.idempotency
        (record t { jobs = insert job.id (stored job) t.jobs })

  issue_number-complete :
      (s : State V) (r : NumberingRange) (n : ℤ) (o : IssueOutcome)
      → (issue_number now d job r n s).0 ≡ ok o
      → (any (same_outbound d.tenant_id d.document_type d.prefix n) (values s.documents) ≡ false)
        × (o ≡ created (issued_as d n))
        × ((issue_number now d job r n s).1 ≡ complete r n s)
  unfolding issue_number insert_job
  issue_number-complete s r n o h = ground arith

  remembered_as :
      (i : IssuedDocument) (o : Option IdempotencyKey) (t : State V) (k : IdempotencyKey)
      → o ≡ some k
      → find_key d.tenant_id k.key (remember d i o t).idempotency ≡ some (used d.tenant_id k i)
  unfolding remember
  remembered_as i o t k e = rw (e, remember) (find_key-put_key (used d.tenant_id k i) t.idempotency)

  remember-rest :
      (i : IssuedDocument) (o : Option IdempotencyKey) (t : State V)
      → ((remember d i o t).documents ≡ t.documents)
        × ((remember d i o t).ranges ≡ t.ranges)
        × ((remember d i o t).jobs ≡ t.jobs)
  unfolding remember
  remember-rest i none t = (refl, refl, refl)
  remember-rest i (some k) t = (refl, refl, refl)

  complete-Issued :
      (s : State V) (r : NumberingRange) (n : ℤ)
      → pick_range now d s ≡ some r
      → next_number r d.requested_number now ≡ ok n
      → any (same_outbound d.tenant_id d.document_type d.prefix n) (values s.documents) ≡ false
      → Issued (issued_as d n) s (complete r n s)
  unfolding numbered
  complete-Issued s r n picked granted unused =
      let (docs, ranges, jobs) = remember-rest (issued_as d n) d.idempotency _ in
      record {
        range = r;
        latest = pick_range-IsLatest now d s r picked;
        granted = granted;
        own_id = refl;
        unused = unused;
        documents = docs;
        ranges = ranges;
        jobs = jobs;
        remembered = λ k e. remembered_as (issued_as d n) d.idempotency _ k e;
      }

  issue_number-Issued :
      (s : State V) (r : NumberingRange) (n : ℤ) (i : IssuedDocument)
      → pick_range now d s ≡ some r
      → next_number r d.requested_number now ≡ ok n
      → (issue_number now d job r n s).0 ≡ ok (created i)
      → Issued i s (issue_number now d job r n s).1
  issue_number-Issued s r n i picked granted h =
      let (unused, e, u) = issue_number-complete s r n (created i) h in
      let same : i ≡ issued_as d n = cc in
      rw u (rw same (complete-Issued s r n picked granted unused))

  issue_new-Issued :
      (s : State V) (i : IssuedDocument)
      → (issue_new now d job s).0 ≡ ok (created i)
      → Issued i s (issue_new now d job s).1
  unfolding issue_new
  issue_new-Issued s i h = elim (Option-cases (pick_range now d s)) [
    | inl nothing ↦ absurd (clash (rw (nothing, issue_new) at h))
    | inr (r, picked) ↦ elim (Result-cases (next_number r d.requested_number now)) [
      | inr (e, refused) ↦ absurd (clash (rw refused at (rw (picked, issue_new) at h)))
      | inl (n, granted) ↦
          rw (picked, issue_new)
            (rw granted (
              issue_number-Issued s r n i picked granted
                (rw granted at (rw (picked, issue_new) at h))))
    ]
  ]
    where
      clash : {x : _} → (err x ≡ ok (created i)) → ⊥
      clash e = cc

  replay-not-created :
      (us : List UsedKey) (i : IssuedDocument) (o : Option IdempotencyKey)
      → replay d.tenant_id o us ≡ some (ok (created i))
      → ⊥
  unfolding replay
  replay-not-created us i o h = ground arith

  -- Whenever a document is issued as new: its number is the one that the numbering grants for a range
  -- of the store that is the tenant's, has the document's type and prefix and is in force, and starts
  -- no earlier than any other such range; no outbound document of the tenant with that type and prefix
  -- has it, the document is stored as pending, the range's counter is at the number, the transmission
  -- is queued, and the idempotency key is remembered.
  pub issue_outbound-Issued :
      (s : State V) (i : IssuedDocument)
      → (issue_outbound now d job s).0 ≡ ok (created i)
      → Issued i s (issue_outbound now d job s).1
  unfolding issue_outbound
  issue_outbound-Issued s i h =
      elim (Option-cases (replay d.tenant_id d.idempotency s.idempotency)) [
        | inl unknown ↦
            rw (unknown, issue_outbound) (issue_new-Issued s i (rw (unknown, issue_outbound) at h))
        | inr (answer, known) ↦ absurd (
            replay-not-created s.idempotency i d.idempotency
              (known ∙ ap some (rw (known, issue_outbound) at h)))
      ]
