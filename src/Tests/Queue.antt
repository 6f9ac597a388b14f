-- ===== src/Tests/Queue.antt =====
-- The queue at work: one job waits, and one is held by a worker.
use dian_service.Base.{ℕ, ◌≢◌, ◌≤◌, refl, ◌∷◌, [], some, none, lookup, All, length, Keyed, arith}
use dian_service.Base.Int.{pos, pos_part}
use dian_service.Domain.Enums.{JobStatus, transmit, queued, running, dian_accepted}
use dian_service.Domain.Ports.{Transition, complete, new_transition, with_job}
use dian_service.Store.State.{State, StoredJob}
use dian_service.Store.Documents.{issued_document}
use dian_service.Store.Queue.{claim}
use dian_service.Store.Queue.Claims.{Claimed, claim-Claimed, claim-skips-held}
use dian_service.Tests.Samples.{Sample, fields, no_more, empty, request, range}

abbrev job : ℕ → JobStatus → StoredJob Sample
job id status = record {
  id = id;
  kind = transmit;
  document_id = 21;
  payload = fields no_more;
  status = status;
  attempts = 1;
  max_attempts = 5;
  run_at = 50;
  locked_until = some 700;
  last_error = none;
}

abbrev store : State Sample
store = record empty {
  documents = (21, issued_document 50 (request 21 "a") range (pos 1)) ∷ [];
  jobs = (31, job 31 queued) ∷ (32, job 32 running) ∷ [];
  webhooks = [];
}

jobs-Keyed : Keyed (λ (j : StoredJob Sample). j.id) store.jobs
unfolding lookup
jobs-Keyed = (refl, refl, (refl, refl, tt))

claim-Claimed_example :
    (length (claim 100 (pos 10) 600 store).0 ≤ pos_part (pos 10))
    × All (Claimed 100 700 store (claim 100 (pos 10) 600 store).1) (claim 100 (pos 10) 600 store).0
claim-Claimed_example = claim-Claimed 100 (pos 10) 600 store jobs-Keyed

claim-skips-held_example : All (λ k. k.id ≢ 32) (claim 100 (pos 10) 600 store).0
unfolding lookup
claim-skips-held_example =
    claim-skips-held 100 (pos 10) 600 store 32 700 (job 32 running) jobs-Keyed refl refl refl
      (omega arith)

abbrev acceptance : Transition Sample
acceptance = with_job (new_transition 21 dian_accepted) (complete 32)
