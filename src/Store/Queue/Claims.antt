-- ===== src/Store/Queue/Claims.antt =====
-- What `claim` hands out, and that nobody else is given a job whose lease runs.
use dian_service.Base.{
  ℕ, ◌+◌, ◌≡◌, ◌≢◌, refl, sym, ◌∙◌, ◌≤◌, true, false, List, [], ◌∷◌, some, arith, any, length, ap,
  lookup, adjust, lookup-adjust, Keyed, lookup-Keyed, All, All-mono, nat_eq, nat_eq_iff,
  if◌then◌else◌, ◌⊎◌, ◌<◌, Option, none, inl, inr, Option-cases,
}
use mathlib.Core.Option
use dian_service.Base.Int.{ℤ, pos_part}
use dian_service.Domain.Enums.{queued, running, job_status_eq}
use dian_service.Domain.Models.{Job}
use dian_service.Store.State.{State, StoredJob}
use dian_service.Store.Queue.{claimable, ready, start, claimed, claim_all, claim}
use dian_service.Store.Queue.Sorting.{
  Other, Distinct, Ready, job_key, ready-Distinct, ready-Ready, length-ready-le,
}

Other-any : (x : ℕ) (xs : List ℕ) → All (Other x) xs → any (nat_eq x) xs ≡ false
Other-any x [] h = refl
Other-any x (y ∷ ys) h = ground (arith, Other-any x ys h.1, h.0)

members : (xs : List ℕ) → All (λ x. any (nat_eq x) xs ≡ true) xs
members [] = tt
members (x ∷ xs) = (ground arith, All-mono xs (λ y h. ground (arith, h)) (members xs))

-- The lease is over.
abbrev pub Expired : ℕ → Option ℕ → Type 0
Expired now none = ⊥
Expired now (some t) = t < now

module _ {V : Type 0} (now until : ℕ) where
  -- The jobs that a list of ids stands for, as a worker is given them.
  abbrev Handed : State V → List ℕ → List (Job V) → Type 0
  Handed s [] [] = Unit
  Handed s (id ∷ ids) (j ∷ js) =
      ((y : StoredJob V) × (lookup id s.jobs ≡ some y)
        × (claimable now y ≡ true)
        × (j ≡ claimed (start until y)))
      × Handed s ids js
  Handed s _ _ = ⊥

  Handed-of_eq :
      (s t : State V) (ids : List ℕ) (js : List (Job V))
      → All (λ id. lookup id s.jobs ≡ lookup id t.jobs) ids
      → Handed s ids js
      → Handed t ids js
  Handed-of_eq s t [] [] h k = tt
  Handed-of_eq s t [] (j ∷ js) h k = k
  Handed-of_eq s t (id ∷ ids) [] h k = k
  Handed-of_eq s t (id ∷ ids) (j ∷ js) h ((y, e, c, q), k) =
      ((y, sym h.0 ∙ e, c, q), Handed-of_eq s t ids js h.1 k)

  abbrev started : ℕ → State V → State V
  started id s = record s { jobs = adjust id (start until) s.jobs }

  untouched :
      (id : ℕ) (s : State V) (ids : List ℕ)
      → All (Other id) ids
      → All (λ k. lookup k (started id s).jobs ≡ lookup k s.jobs) ids
  untouched id s ids h =
      All-mono ids (λ k other. ground (arith, lookup-adjust id k (start until) s.jobs, other)) h

  still_Ready :
      (id : ℕ) (s : State V) (ids : List ℕ)
      → All (Other id) ids
      → All (Ready now s) ids
      → All (Ready now (started id s)) ids
  still_Ready id s [] h r = tt
  still_Ready id s (k ∷ ks) h ((y, e, c), r) = (
    (y, ground (arith, lookup-adjust id k (start until) s.jobs, h.0, e), c),
    still_Ready id s ks h.1 r,
  )

  claim_all-Handed :
      (ids : List ℕ) (s : State V)
      → Distinct ids
      → All (Ready now s) ids
      → Handed s ids (claim_all until ids s).0
  unfolding claim_all
  claim_all-Handed [] s d r = tt
  claim_all-Handed (id ∷ ids) s d ((y, e, c), r) =
      rw (e, claim_all)
        (
          (y, e, c, refl),
          Handed-of_eq (started id s) s ids _ (untouched id s ids d.0)
              (claim_all-Handed ids (started id s) d.1 (still_Ready id s ids d.0 r)),
        )

  lookup-claim_all :
      (k : ℕ) (ids : List ℕ) (s : State V)
      → Distinct ids
      → lookup k (claim_all until ids s).1.jobs ≡ (
          if any (nat_eq k) ids
          then Option.map (start until) (lookup k s.jobs)
          else lookup k s.jobs)
  unfolding claim_all
  lookup-claim_all k [] s d = refl
  lookup-claim_all k (id ∷ ids) s d = ground (
    arith,
    lookup-claim_all k ids (started id s) d.1,
    lookup-adjust id k (start until) s.jobs,
    Other-any id ids d.0,
    nat_eq_iff k id,
  )

  claimable-due :
      (y : StoredJob V)
      → claimable now y ≡ true
      → (((y.status ≡ queued) × (y.run_at ≤ now))
          ⊎ ((y.status ≡ running) × Expired now y.locked_until))
        × (y.attempts < y.max_attempts)
  claimable-due y c = elim (Option-cases y.locked_until) [
    | inl e ↦ ground (arith, e)
    | inr (t, e) ↦ ground (arith, e)
  ]

  -- The job was there and could be claimed; it is given as it now stands in the store.
  pub record Claimed (s t : State V) (j : Job V) : Type 0 where
    pub before : StoredJob V
    pub found : lookup j.id s.jobs ≡ some before
    pub due :
        ((before.status ≡ queued) × (before.run_at ≤ now))
        ⊎ ((before.status ≡ running) × Expired now before.locked_until)
    pub left : before.attempts < before.max_attempts
    pub given : j ≡ record {
      id = before.id;
      kind = before.kind;
      document_id = before.document_id;
      payload = before.payload;
      attempts = before.attempts + 1;
      max_attempts = before.max_attempts;
    }
    pub held :
        lookup j.id t.jobs
        ≡ some (record before {
          status = running;
          attempts = before.attempts + 1;
          locked_until = some until;
        })

  Handed-Claimed :
      (s t : State V) (ids : List ℕ) (js : List (Job V))
      → Keyed job_key s.jobs
      → All (λ id. lookup id t.jobs ≡ Option.map (start until) (lookup id s.jobs)) ids
      → Handed s ids js
      → (length js ≡ length ids) × All (Claimed s t) js
  Handed-Claimed s t [] [] keyed h k = (refl, tt)
  Handed-Claimed s t [] (j ∷ js) keyed h k = absurd k
  Handed-Claimed s t (id ∷ ids) [] keyed h k = absurd k
  Handed-Claimed s t (id ∷ ids) (j ∷ js) keyed h ((y, e, c, q), k) =
      let (n, rest) = Handed-Claimed s t ids js keyed h.1 k in
      (
        ground (arith, n),
        (
          record {
            before = y;
            found = rw same e;
            due = (claimable-due y c).0;
            left = (claimable-due y c).1;
            given = q;
            held = rw same (ground (arith, h.0, e));
          },
          rest,
        ),
      )
    where
      same : j.id ≡ id
      same = ap (λ x. x.id) q ∙ lookup-Keyed job_key id y s.jobs keyed e

module _ {V : Type 0} where
  -- A claim hands out at most `limit` jobs. Each was queued and due, or left behind by a worker whose
  -- lease is over, and had an attempt left; it is running now with one attempt more, and with a lease.
  pub claim-Claimed :
      (now : ℕ) (limit : ℤ) (lease : ℕ) (s : State V)
      → Keyed job_key s.jobs
      → (length (claim now limit lease s).0 ≤ pos_part limit)
        × All (Claimed now (now + lease) s (claim now limit lease s).1) (claim now limit lease s).0
  unfolding claim
  claim-Claimed now limit lease s keyed =
      let (n, all) =
        Handed-Claimed now (now + lease) s _ ids _ keyed
          (All-mono ids (λ id m. lookup-claim_all now (now + lease) id ids s d ∙ rw m refl)
            (members ids))
          (claim_all-Handed now (now + lease) ids s d (ready-Ready now limit s keyed)) in
      (rw n (length-ready-le now limit s), all)
    where
      ids : List ℕ
      ids = ready now limit s

      d : Distinct ids
      d = ready-Distinct now limit s keyed

  -- While the lease of a running job runs, no claim hands that job out.
  pub claim-skips-held :
      (now : ℕ) (limit : ℤ) (lease : ℕ) (s : State V) (id until : ℕ) (j : StoredJob V)
      → Keyed job_key s.jobs
      → lookup id s.jobs ≡ some j
      → j.status ≡ running
      → j.locked_until ≡ some until
      → now ≤ until
      → All (λ k. k.id ≢ id) (claim now limit lease s).0
  claim-skips-held now limit lease s id until j keyed found runs locked early =
      All-mono (claim now limit lease s).0 other (claim-Claimed now limit lease s keyed).1
    where
      held :
          ((j.status ≡ queued) × (j.run_at ≤ now))
            ⊎ ((j.status ≡ running) × Expired now j.locked_until)
          → ⊥
      held (inl (q, _)) = let q : queued ≡ running = sym q ∙ runs in cc
      held (inr (_, x)) = omega (arith, early, rw locked at x)

      other : (k : Job V) → Claimed now (now + lease) s (claim now limit lease s).1 k → k.id ≢ id
      other k h e = clash (rw e at h.found)
        where
          clash : lookup id s.jobs ≡ some h.before → ⊥
          clash f = let same : h.before ≡ j = cc in held (rw same at h.due)
