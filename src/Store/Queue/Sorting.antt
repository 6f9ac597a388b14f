-- ===== src/Store/Queue/Sorting.antt =====
-- The ids that `claim` picks: each once, and all of jobs that may be claimed.
use dian_service.Base.{
  ℕ, suc, zero, ◌≡◌, ◌≤◌, Bool, true, false, Bool-cases, inl, inr, List, [], ◌∷◌, none, some, arith,
  map, keep, take, length, length-take-le, Dict, lookup, values, Keyed, values-Keyed, All, All-keep,
  All-map, All-take, nat_eq, nat_eq_iff, leb,
}
use dian_service.Base.Int.{ℤ, pos_part}
use dian_service.Store.State.{State, StoredJob}
use dian_service.Store.Queue.{place, sort_by_key, claimable, ready}

abbrev pub Other : ℕ → ℕ → Type 0
Other x y = nat_eq x y ≡ false

abbrev pub Distinct : List ℕ → Type 0
Distinct [] = Unit
Distinct (x ∷ xs) = All (Other x) xs × Distinct xs

module _ {ℓ} (P : ℕ → Type ℓ) (key : ℕ → ℕ) where
  All-place : (x : ℕ) (ys : List ℕ) → P x → All P ys → All P (place key x ys)
  unfolding place
  All-place x [] h hs = (h, hs)
  All-place x (y ∷ ys) h hs = elim (Bool-cases (leb (key x) (key y))) [
    | inl first ↦ rw first (h, hs)
    | inr later ↦ rw later (hs.0, All-place x ys h hs.1)
  ]

  All-sort_by_key : (xs : List ℕ) → All P xs → All P (sort_by_key key xs)
  unfolding sort_by_key
  All-sort_by_key [] h = h
  All-sort_by_key (x ∷ xs) h = All-place x (sort_by_key key xs) h.0 (All-sort_by_key xs h.1)

module _ (key : ℕ → ℕ) where
  flip : (x y : ℕ) → Other x y → Other y x
  flip x y h = ground arith

  place-Distinct :
      (x : ℕ) (ys : List ℕ) → All (Other x) ys → Distinct ys → Distinct (place key x ys)
  unfolding place
  place-Distinct x [] h d = (tt, tt)
  place-Distinct x (y ∷ ys) h d = elim (Bool-cases (leb (key x) (key y))) [
    | inl first ↦ rw first (h, d)
    | inr later ↦
        rw later (All-place (Other y) key x ys (flip x y h.0) d.0, place-Distinct x ys h.1 d.1)
  ]

  sort_by_key-Distinct : (xs : List ℕ) → Distinct xs → Distinct (sort_by_key key xs)
  unfolding sort_by_key
  sort_by_key-Distinct [] d = d
  sort_by_key-Distinct (x ∷ xs) d =
      place-Distinct x (sort_by_key key xs) (All-sort_by_key (Other x) key xs d.0)
        (sort_by_key-Distinct xs d.1)

take-Distinct : (n : ℕ) (xs : List ℕ) → Distinct xs → Distinct (take n xs)
take-Distinct zero xs d = tt
take-Distinct (suc n) [] d = tt
take-Distinct (suc n) (x ∷ xs) d = (All-take (Other x) n xs d.0, take-Distinct n xs d.1)

module _ {V : Type 0} where
  abbrev pub job_key : StoredJob V → ℕ
  job_key j = j.id

  new_key :
      (k : ℕ) (m : Dict (StoredJob V)) (j : StoredJob V)
      → lookup k m ≡ none
      → lookup j.id m ≡ some j
      → Other k j.id
  new_key k m j new old = elim (Bool-cases (nat_eq k j.id)) [
    | inl same ↦ absurd (clash (rw ((nat_eq_iff k j.id).0 same) at new))
    | inr other ↦ other
  ]
    where
      clash : lookup j.id m ≡ none → ⊥
      clash e = cc

  ids-Distinct :
      (p : StoredJob V → Bool) (m : Dict (StoredJob V))
      → Keyed job_key m
      → Distinct (map job_key (keep p (values m)))
  ids-Distinct p [] h = tt
  ids-Distinct p ((k, j) ∷ m) h = elim (Bool-cases (p j)) [
    | inr dropped ↦ rw dropped (ids-Distinct p m h.2)
    | inl kept ↦ rw kept (others, ids-Distinct p m h.2)
  ]
    where
      others : All (Other j.id) (map job_key (keep p (values m)))
      others = rw h.0 (
          All-map (Other k) job_key _
            (All-keep p (values m) (λ x _ e. new_key k m x h.1 e) (values-Keyed job_key m h.2)))

  -- The job is there and may be claimed.
  abbrev pub Ready : ℕ → State V → ℕ → Type 0
  Ready now s id = (j : StoredJob V) × (lookup id s.jobs ≡ some j) × (claimable now j ≡ true)

  pub ready-Distinct :
      (now : ℕ) (limit : ℤ) (s : State V) → Keyed job_key s.jobs → Distinct (ready now limit s)
  unfolding ready
  ready-Distinct now limit s keyed =
      take-Distinct _ _ (sort_by_key-Distinct _ _ (ids-Distinct (claimable now) s.jobs keyed))

  pub ready-Ready :
      (now : ℕ) (limit : ℤ) (s : State V)
      → Keyed job_key s.jobs
      → All (Ready now s) (ready now limit s)
  unfolding ready
  ready-Ready now limit s keyed = All-take (Ready now s) _ _ (
      All-sort_by_key (Ready now s) _ _ (
        All-map (Ready now s) job_key _
          (All-keep _ _ (λ j e h. (j, h, e)) (values-Keyed job_key s.jobs keyed))))

  pub length-ready-le :
      (now : ℕ) (limit : ℤ) (s : State V) → length (ready now limit s) ≤ pos_part limit
  unfolding ready
  length-ready-le now limit s = length-take-le _ _
