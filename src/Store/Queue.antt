-- ===== src/Store/Queue.antt =====
-- core-domain/src/testing.rs, `impl JobRepository for InMemoryStore`.
mod Sorting
pub mod Claims
use dian_service.Base.{
  ℕ, suc, ◌+◌, ◌-◌, Bool, false, ◌&&◌, ◌||◌, not, List, [], ◌∷◌, Option, none, some, lookup, adjust,
  values, keep, map, take, length, ◌==◌, leb, ltb, if◌then◌else◌,
}
use dian_service.Base.Int.{ℤ, pos_part}
use dian_service.Domain.Enums.{
  DocumentStatus, JobKind, contingency_pending, queued, running, dead, done, document_status_eq,
  job_status_eq,
}
use dian_service.Domain.Errors.{Result, ok, err, Message}
use dian_service.Domain.Jobs.{new_transmit}
use dian_service.Domain.Json.{Json}
use dian_service.Domain.Models.{Job, QueueDepth}
use dian_service.Store.State.{State, StoredJob, has_active_job, insert_job, change_job}
use dian_service.Store.Transitions.{done_job, dead_job, set_status}

abbrev pub lease_expired : ℕ → Option ℕ → Bool
lease_expired now none = false
lease_expired now (some t) = ltb t now

-- `sort_by_key`, which is stable.
unfoldable pub place : (ℕ → ℕ) → ℕ → List ℕ → List ℕ
place key x [] = x ∷ []
place key x (y ∷ ys) = if leb (key x) (key y) then x ∷ y ∷ ys else y ∷ place key x ys

unfoldable pub sort_by_key : (ℕ → ℕ) → List ℕ → List ℕ
unfolding place
sort_by_key key [] = []
sort_by_key key (x ∷ xs) = place key x (sort_by_key key xs)

module _ {V : Type 0} where
  abbrev pub claimable : ℕ → StoredJob V → Bool
  claimable now j =
      (j.status == queued && leb j.run_at now
        || j.status == running && lease_expired now j.locked_until)
      && ltb j.attempts j.max_attempts

  -- `state.jobs[id].run_at`; the ids are those of stored jobs.
  abbrev pub run_at_of : State V → ℕ → ℕ
  run_at_of s id = elim (lookup id s.jobs) [ none ↦ 0 | some j ↦ j.run_at ]

  unfoldable pub ready : ℕ → ℤ → State V → List ℕ
  unfolding sort_by_key
  ready now limit s =
      take (pos_part limit)
        (sort_by_key (run_at_of s) (map (λ j. j.id) (keep (claimable now) (values s.jobs))))

  abbrev pub start : ℕ → StoredJob V → StoredJob V
  start until j = record j {
    status = running;
    attempts = j.attempts + 1;
    locked_until = some until;
  }

  abbrev pub claimed : StoredJob V → Job V
  claimed j = record {
    id = j.id;
    kind = j.kind;
    document_id = j.document_id;
    payload = j.payload;
    attempts = j.attempts;
    max_attempts = j.max_attempts;
  }

  -- The ids are those of stored jobs, so the `none` case, a panic in the code, is not reached.
  unfoldable pub claim_all : ℕ → List ℕ → State V → List (Job V) × State V
  claim_all until [] s = ([], s)
  claim_all until (id ∷ ids) s =
      let (js, t) = claim_all until ids (record s { jobs = adjust id (start until) s.jobs }) in
      elim (lookup id s.jobs) [ none ↦ (js, t) | some j ↦ (claimed (start until j) ∷ js, t) ]

  unfoldable pub claim : ℕ → ℤ → ℕ → State V → List (Job V) × State V
  unfolding ready claim_all
  claim now limit lease s = claim_all (now + lease) (ready now limit s) s

  unfoldable pub complete : ℕ → State V → Result (Unit {0}) × State V
  complete id = change_job id done_job

  abbrev pub requeued : ℕ → Message → StoredJob V → StoredJob V
  requeued run_at error j = record j {
    status = queued;
    run_at = run_at;
    locked_until = none;
    last_error = some error;
  }

  unfoldable pub retry : ℕ → ℕ → Message → State V → Result (Unit {0}) × State V
  retry id run_at error = change_job id (requeued run_at error)

  abbrev pub released : ℕ → StoredJob V → StoredJob V
  released run_at j = record j {
    status = queued;
    run_at = run_at;
    locked_until = none;
    attempts = j.attempts - 1;
  }

  unfoldable pub release : ℕ → ℕ → State V → Result (Unit {0}) × State V
  release id run_at = change_job id (released run_at)

  unfoldable pub bury : ℕ → Message → State V → Result (Unit {0}) × State V
  bury id error = change_job id (dead_job error)

  abbrev pub count_job : ℕ → StoredJob V → QueueDepth → QueueDepth
  count_job now j d = elim j.status [
    | queued ↦
        if leb j.run_at now
        then record d { ready = d.ready + 1 }
        else record d { scheduled = d.scheduled + 1 }
    | running ↦ record d { running = d.running + 1 }
    | dead ↦ record d { dead = d.dead + 1 }
    | done ↦ d
  ]

  unfoldable pub depth_from : ℕ → QueueDepth → List (StoredJob V) → QueueDepth
  depth_from now d [] = d
  depth_from now d (j ∷ js) = depth_from now (count_job now j d) js

  unfoldable pub queue_depth : ℕ → State V → QueueDepth
  unfolding depth_from
  queue_depth now s =
      depth_from now (record { ready = 0; scheduled = 0; running = 0; dead = 0 }) (values s.jobs)

  unfoldable pub contingency_candidates : ℤ → State V → List ℕ
  contingency_candidates limit s = take (pos_part limit) (
      keep (λ id. not (has_active_job s id JobKind.transmit))
        (map (λ d. d.id) (keep (λ d. d.status == contingency_pending) (values s.documents))))

module _ {V : Type 0} (J : Json V) where
  -- `fresh i` is the id of the `i`-th new job. The first job that is refused ends the loop.
  unfoldable pub requeue_all : (ℕ → ℕ) → ℕ → ℕ → ℕ → List ℕ → State V → Result (Unit {0}) × State V
  requeue_all fresh i now max_attempts [] s = (ok tt, s)
  requeue_all fresh i now max_attempts (id ∷ ids) s =
      let (r, t) =
        insert_job (new_transmit J (fresh i) now id max_attempts)
          (set_status id DocumentStatus.pending s) in
      elim r [ ok _ ↦ requeue_all fresh (suc i) now max_attempts ids t | err e ↦ (err e, t) ]

  unfoldable pub requeue_contingency : (ℕ → ℕ) → ℕ → ℤ → ℕ → State V → Result ℕ × State V
  requeue_contingency fresh now limit max_attempts s =
      let ids = contingency_candidates limit s in
      let (r, t) = requeue_all fresh 0 now max_attempts ids s in
      (elim r [ ok _ ↦ ok (length ids) | err e ↦ err e ], t)
