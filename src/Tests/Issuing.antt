-- ===== src/Tests/Issuing.antt =====
-- Issuing at work: two invoices of one range.
use dian_service.Base.{
  ◌≡◌, ◌≢◌, refl, ◌∷◌, [], List, lookup, insert, adjust, if◌then◌else◌, ◌==◌, string_eq,
}
use dian_service.Base.Int.{pos, max_ℤ, add32, sub32}
use dian_service.Domain.Errors.{ok, err, validation, fixed}
use dian_service.Domain.Numbering.{next_number, check_requested, candidate}
use dian_service.Domain.Ports.{IssuedDocument, IdempotencyKey, created, replayed}
use dian_service.Store.State.{has_active_job, insert_job}
use dian_service.Store.Documents.{
  issue_outbound, replay, find_key, put_key, issue_new, pick_range, latest, latest_from,
  issue_number, numbered, remember,
}
use dian_service.Store.Issuing.{Issued, issue_outbound-Issued}
use dian_service.Store.History.{Call, issue, completes, run, step, HaveNewIds}
use dian_service.Store.History.Keys.{issue_outbound-again}
use dian_service.Store.History.Numbers.{issue_outbound-distinct}
use dian_service.Store.Queue.{complete}
use dian_service.Store.State.{change_job}
use dian_service.Tests.Samples.{Sample, sample_json, empty, request, first_job}

abbrev first : IssuedDocument
first = record { document_id = 21; document_number = pos 1 }

abbrev second : IssuedDocument
second = record { document_id = 22; document_number = pos 2 }

abbrev key : IdempotencyKey
key = record { key = "a"; request_hash = "hash" }

issued_first : (issue_outbound 50 (request 21 "a") (first_job 31 21) empty).0 ≡ ok (created first)
unfolding issue_outbound replay find_key issue_new pick_range latest latest_from next_number
    check_requested candidate max_ℤ add32 sub32 issue_number numbered remember has_active_job
    insert_job insert adjust put_key
issued_first = refl

issue_outbound-Issued_example :
    Issued 50
      (request 21 "a")
      (first_job 31 21)
      first
      empty
      (issue_outbound 50 (request 21 "a") (first_job 31 21) empty).1
issue_outbound-Issued_example =
    issue_outbound-Issued 50 (request 21 "a") (first_job 31 21) empty first issued_first

abbrev between : List (Call Sample)
between = completes 31 ∷ []

issue_outbound-again_example :
    issue_outbound 60
      (request 23 "a")
      (first_job 33 23)
      (run sample_json (issue 50 (request 21 "a") (first_job 31 21) ∷ between) empty)
    ≡ (
      if key.request_hash == key.request_hash
          then ok (replayed first)
          else err (validation (fixed "La clave de idempotencia ya se uso con un cuerpo distinto")),
      run sample_json (issue 50 (request 21 "a") (first_job 31 21) ∷ between) empty,
    )
issue_outbound-again_example =
    issue_outbound-again sample_json empty 50 60 (request 21 "a") (request 23 "a") (first_job 31 21)
      (first_job 33 23) first key key between refl issued_first refl refl refl

issued_second :
    (issue_outbound 60
      (request 22 "b")
      (first_job 32 22)
      (run sample_json (issue 50 (request 21 "a") (first_job 31 21) ∷ between) empty)).0
    ≡ ok (created second)
unfolding run step complete change_job lookup issue_outbound replay find_key issue_new pick_range
    latest latest_from next_number check_requested candidate max_ℤ add32 sub32 issue_number numbered
    remember has_active_job insert_job insert adjust put_key
issued_second = refl

between-HaveNewIds :
    HaveNewIds sample_json (issue 50 (request 21 "a") (first_job 31 21) ∷ between) empty
unfolding lookup
between-HaveNewIds = (refl, (tt, tt))

issue_outbound-distinct_example : second.document_number ≢ first.document_number
issue_outbound-distinct_example =
    issue_outbound-distinct sample_json empty 50 60 (request 21 "a") (request 22 "b")
      (first_job 31 21) (first_job 32 22) first second between between-HaveNewIds tt issued_first
      issued_second refl refl refl
