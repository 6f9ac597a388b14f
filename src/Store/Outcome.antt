-- ===== src/Store/Outcome.antt =====
-- What a transition has done once it has succeeded.
use dian_service.Base.{
  ℕ, ◌≡◌, ◌≢◌, refl, ◌∙◌, ◌⊎◌, inl, inr, Bool, true, false, Bool-cases, Option, none, some, arith,
  lookup, adjust, lookup-insert, lookup-adjust, Option-cases, nat_eq,
}
use dian_service.Domain.Enums.{DocumentStatus, queued, running}
use dian_service.Domain.Errors.{ok, err, Result-cases, Message}
use dian_service.Domain.Json.{Json}
use dian_service.Domain.Lifecycle.{can_transition_to}
use dian_service.Domain.Models.{Document, NewJob}
use dian_service.Domain.Ports.{Transition, JobOutcome, complete, bury}
use dian_service.Store.State.{
  State, StoredJob, has_active_job, insert_job, change_job, stored, ◌>>=◌, ◌>>◌,
}
use dian_service.Store.Transitions.{
  apply_transition, set_status, notify, push_event, finish, close_job, enqueue_follow_up, done_job,
  dead_job,
}
use dian_service.Store.Evolution.{with_status}
use dian_service.Store.Operations.{finish-SameDocuments, moved}

-- The transition closes this job.
abbrev pub Closes : ℕ → Option JobOutcome → Type 0
Closes id o = (o ≡ some (complete id)) ⊎ ((m : Message) × (o ≡ some (bury id m)))

module _ {V : Type 0} where
  -- The job is in the store and no worker holds it.
  pub record Settled (id : ℕ) (s : State V) : Type 0 where
    pub job : StoredJob V
    pub there : lookup id s.jobs ≡ some job
    pub free : job.status ≢ running

  pub change_job-Settled :
      (id : ℕ) (f : StoredJob V → StoredJob V) (s : State V) (a : Unit {0})
      → ((j : StoredJob V) → (f j).status ≢ running)
      → (change_job id f s).0 ≡ ok a
      → Settled id (change_job id f s).1
  unfolding change_job
  change_job-Settled id f s a free h = elim (Option-cases (lookup id s.jobs)) [
    | inl e ↦ absurd (clash (rw (e, change_job) at h))
    | inr (j, e) ↦
        rw (e, change_job)
          (record {
            job = f j;
            there = ground (arith, lookup-adjust id id f s.jobs, e);
            free = free j;
          })
  ]
    where
      clash : {x : _} → (err x ≡ ok a) → ⊥
      clash e = cc

  insert_job-Settled :
      (id : ℕ) (j : NewJob V) (s : State V) → Settled id s → Settled id (insert_job j s).1
  unfolding insert_job
  insert_job-Settled id j s h = elim (Bool-cases (has_active_job s j.document_id j.kind)) [
    | inl busy ↦ rw busy h
    | inr idle ↦ elim (Bool-cases (nat_eq j.id id)) [
      | inl same ↦ rw idle (record {
        job = stored j;
        there = rw (lookup-insert j.id id (stored j) s.jobs) (rw same refl);
        free = λ e. cc;
      })
      | inr other ↦ rw idle (record {
        job = h.job;
        there = rw (lookup-insert j.id id (stored j) s.jobs) (rw other h.there);
        free = h.free;
      })
    ]
  ]

  close_job-Settled :
      (id : ℕ) (o : Option JobOutcome) (s : State V) (a : Unit {0})
      → Closes id o
      → (close_job o s).0 ≡ ok a
      → Settled id (close_job o s).1
  unfolding close_job
  close_job-Settled id o s a (inl e) h =
      rw (e, close_job) (change_job-Settled id done_job s a (λ j e. cc) (rw (e, close_job) at h))
  close_job-Settled id o s a (inr (m, e)) h =
      rw (e, close_job)
        (change_job-Settled id (dead_job m) s a (λ j e. cc) (rw (e, close_job) at h))

  -- The job that is to follow is in the store, queued and with no attempt made.
  abbrev pub Followed : Option (NewJob V) → State V → Type 0
  Followed none s = Unit
  Followed (some j) s =
      lookup j.id s.jobs
      ≡ some (record {
        id = j.id;
        kind = j.kind;
        document_id = j.document_id;
        payload = j.payload;
        status = queued;
        attempts = 0;
        max_attempts = j.max_attempts;
        run_at = j.run_at;
        locked_until = none;
        last_error = none;
      })

  enqueue_follow_up-Followed :
      (o : Option (NewJob V)) (s : State V) (a : Unit {0})
      → (enqueue_follow_up o s).0 ≡ ok a
      → Followed o (enqueue_follow_up o s).1
  unfolding enqueue_follow_up insert_job
  enqueue_follow_up-Followed none s a h = tt
  enqueue_follow_up-Followed (some j) s a h =
      elim (Bool-cases (has_active_job s j.document_id j.kind)) [
        | inl busy ↦ let h : err _ ≡ ok a = rw busy at h in cc
        | inr idle ↦ rw idle (ground (arith, lookup-insert j.id j.id (stored j) s.jobs))
      ]

  enqueue_follow_up-Settled :
      (id : ℕ) (o : Option (NewJob V)) (s : State V)
      → Settled id s
      → Settled id (enqueue_follow_up o s).1
  unfolding enqueue_follow_up
  enqueue_follow_up-Settled id none s h = h
  enqueue_follow_up-Settled id (some j) s h = insert_job-Settled id j s h

  finish-Settled :
      (t : Transition V) (s : State V) (b : Bool)
      → (finish t s).0 ≡ ok b
      → (b ≡ true)
        × ((id : ℕ) → Closes id t.job → Settled id (finish t s).1)
        × Followed t.follow_up (finish t s).1
  unfolding finish
  finish-Settled t s b h = elim (Result-cases (close_job t.job s).0) [
    | inr (e, failed) ↦ absurd (clash (rw (failed, finish, ◌>>◌, ◌>>=◌) at h))
    | inl (a, closed) ↦ elim (Result-cases (enqueue_follow_up t.follow_up u).0) [
      | inr (e, failed) ↦
          absurd (clash (rw (failed, ◌>>=◌) at (rw (closed, finish, ◌>>◌, ◌>>=◌) at h)))
      | inl (x, accepted) ↦ (
        yes (rw (accepted, ◌>>=◌) at (rw (closed, finish, ◌>>◌, ◌>>=◌) at h)),
        λ id closes.
            rw (closed, finish, ◌>>◌, ◌>>=◌)
              (rw (accepted, ◌>>=◌)
                (enqueue_follow_up-Settled id t.follow_up u
                  (close_job-Settled id t.job s a closes closed))),
        rw (closed, finish, ◌>>◌, ◌>>=◌)
            (rw (accepted, ◌>>=◌) (enqueue_follow_up-Followed t.follow_up u x accepted)),
      )
    ]
  ]
    where
      u : State V
      u = (close_job t.job s).1

      yes : ok true ≡ ok b → b ≡ true
      yes e = cc

      clash : {x : _} → (err x ≡ ok b) → ⊥
      clash e = cc

  change_job-jobs :
      (id : ℕ) (f : StoredJob V → StoredJob V) (s : State V)
      → (change_job id f s).1 ≡ record s { jobs = (change_job id f s).1.jobs }
  unfolding change_job
  change_job-jobs id f s = ground arith

  insert_job-jobs :
      (j : NewJob V) (s : State V)
      → (insert_job j s).1 ≡ record s { jobs = (insert_job j s).1.jobs }
  unfolding insert_job
  insert_job-jobs j s = ground arith

  close_job-jobs :
      (o : Option JobOutcome) (s : State V)
      → (close_job o s).1 ≡ record s { jobs = (close_job o s).1.jobs }
  unfolding close_job
  close_job-jobs none s = refl
  close_job-jobs (some (complete id)) s = change_job-jobs id done_job s
  close_job-jobs (some (bury id m)) s = change_job-jobs id (dead_job m) s

  enqueue_follow_up-jobs :
      (o : Option (NewJob V)) (s : State V)
      → (enqueue_follow_up o s).1 ≡ record s { jobs = (enqueue_follow_up o s).1.jobs }
  unfolding enqueue_follow_up
  enqueue_follow_up-jobs none s = refl
  enqueue_follow_up-jobs (some j) s = insert_job-jobs j s

  set_status-documents :
      (id : ℕ) (to : DocumentStatus) (s : State V)
      → (set_status id to s).documents ≡ adjust id (λ d. with_status d to) s.documents
  unfolding set_status
  set_status-documents id to s = refl

  -- Closing the job and queueing the next one touches the jobs only.
  finish-jobs :
      (t : Transition V) (s : State V) → (finish t s).1 ≡ record s { jobs = (finish t s).1.jobs }
  unfolding finish
  finish-jobs t s =
      ground
        (arith, close_job-jobs t.job s, enqueue_follow_up-jobs t.follow_up (close_job t.job s).1)

module _ {V : Type 0} (J : Json V) (fresh : ℕ → ℕ) (now : ℕ) (t : Transition V) where
  -- The document, its notifications and the event, before the jobs.
  abbrev pub changed : Document V → State V → State V
  changed d s = push_event t.event (notify J fresh now d t.to (set_status t.document_id t.to s))

  pub record Applied (s u : State V) : Type 0 where
    pub document : Document V
    pub found : lookup t.document_id s.documents ≡ some document
    pub allowed : can_transition_to document.status t.to ≡ true
    pub moved_to : lookup t.document_id u.documents ≡ some (with_status document t.to)
    pub effect : u ≡ record (changed document s) { jobs = u.jobs }
    pub settled : (id : ℕ) → Closes id t.job → Settled id u
    pub followed : Followed t.follow_up u

  pub record Refused (s u : State V) : Type 0 where
    pub document : Document V
    pub found : lookup t.document_id s.documents ≡ some document
    pub refused : can_transition_to document.status t.to ≡ false
    pub unchanged : u ≡ s

  applied :
      (s : State V) (d : Document V) (b : Bool)
      → lookup t.document_id s.documents ≡ some d
      → can_transition_to d.status t.to ≡ true
      → (finish t (changed d s)).0 ≡ ok b
      → (b ≡ true) × Applied s (finish t (changed d s)).1
  applied s d b found allowed h =
      let (is_true, settled, followed) = finish-Settled t (changed d s) b h in
      (
        is_true,
        record {
          document = d;
          found = found;
          allowed = allowed;
          moved_to =
              rw same
                (ground (arith, lookup-adjust t.document_id t.document_id to s.documents, found));
          effect = finish-jobs t (changed d s);
          settled = settled;
          followed = followed;
        },
      )
    where
      to : Document V → Document V
      to d = with_status d t.to

      same : (finish t (changed d s)).1.documents ≡ adjust t.document_id to s.documents
      same =
          (finish-SameDocuments t (changed d s)).documents
          ∙ (moved J fresh now t d s).documents
          ∙ set_status-documents t.document_id t.to s

  pub apply_transition-ok :
      (s : State V) (b : Bool)
      → (apply_transition J fresh now t s).0 ≡ ok b
      → ((b ≡ true) × Applied s (apply_transition J fresh now t s).1)
        ⊎ ((b ≡ false) × Refused s (apply_transition J fresh now t s).1)
  unfolding apply_transition
  apply_transition-ok s b h = elim (Option-cases (lookup t.document_id s.documents)) [
    | inl missing ↦ absurd (clash (rw (missing, apply_transition) at h))
    | inr (d, found) ↦ elim (Bool-cases (can_transition_to d.status t.to)) [
      | inl allowed ↦
          rw (found, apply_transition)
            (rw allowed (
              inl
                (applied s d b found allowed (rw allowed at (rw (found, apply_transition) at h)))))
      | inr refused ↦
          rw (found, apply_transition)
            (rw refused (
              inr (
                no (rw refused at (rw (found, apply_transition) at h)),
                record { document = d; found = found; refused = refused; unchanged = refl },
              )))
    ]
  ]
    where
      clash : {x : _} → (err x ≡ ok b) → ⊥
      clash e = cc

      no : ok false ≡ ok b → b ≡ false
      no e = cc
