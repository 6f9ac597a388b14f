-- ===== src/Application/Webhooks/Results.antt =====
-- The dispatcher's report is what the store says.
use dian_service.Base.{
  ℕ, ◌+◌, ◌≤◌, ◌≡◌, refl, ◌∙◌, inl, inr, Bool, true, false, not, List, [], ◌∷◌, Option, none, some,
  String, arith, length, lookup, lookup-adjust, Option-cases, ltb, leb, ◌&&◌, if◌then◌else◌,
}
use dian_service.Base.Int.{ℤ}
use dian_service.Domain.Errors.{Result, ok, err, DomainError, Message, shown, http_status}
use dian_service.Domain.Ports.{WebhookDelivery}
use dian_service.Store.State.{State, StoredDelivery}
use dian_service.Store.Deliveries.{
  change_delivery, complete_delivery, retry_delivery, bury_delivery, claim_deliveries,
}
use dian_service.Application.World.{
  World, Outside, Action, give, ◌>>=◌, and_then, or_stop, port, utc_now, case_result,
}
use dian_service.Application.Webhooks.Delivery.{
  DispatchConfig, DispatchStats, Outcome, delivered, retried, dead, bury, retry, failed, posted,
  deliver, count, deliver_all, run_once,
}

abbrev pub stored_as : Outcome → String
stored_as delivered = "delivered"
stored_as retried = "queued"
stored_as dead = "dead"

module _ {V : Type 0} where
  -- The delivery is in the store as the outcome says.
  pub record Recorded (id : ℕ) (o : Outcome) (s : State V) : Type 0 where
    pub delivery : StoredDelivery V
    pub there : lookup id s.deliveries ≡ some delivery
    pub status : delivery.status ≡ stored_as o

  change_delivery-Recorded :
      (id : ℕ) (o : Outcome) (f : StoredDelivery V → StoredDelivery V) (s : State V) (a : Unit {0})
      → ((d : StoredDelivery V) → (f d).status ≡ stored_as o)
      → (change_delivery id f s).0 ≡ ok a
      → Recorded id o (change_delivery id f s).1
  unfolding change_delivery
  change_delivery-Recorded id o f s a status h = elim (Option-cases (lookup id s.deliveries)) [
    | inl e ↦ absurd (clash (rw (e, change_delivery) at h))
    | inr (d, e) ↦
        rw (e, change_delivery)
          (record {
            delivery = f d;
            there = ground (arith, lookup-adjust id id f s.deliveries, e);
            status = status d;
          })
  ]
    where
      clash : {x : _} → (err x ≡ ok a) → ⊥
      clash e = cc

  -- What an action reports is recorded.
  abbrev Records : ℕ → Action V (Result Outcome) → Type 0
  Records id m = (w : World V) (o : Outcome) → (m w).0 ≡ ok o → Recorded id o (m w).1.store

  module _ (O : Outside V) where
    Records-port :
        (id : ℕ) (k : Outcome) (f : ℕ → State V → Result (Unit {0}) × State V)
        → ((n : ℕ) (s : State V) (a : Unit {0}) → (f n s).0 ≡ ok a → Recorded id k (f n s).1)
        → Records id (and_then (port O f) (λ _. give (ok k)))
    unfolding and_then ◌>>=◌ port or_stop give
    Records-port id k f h w o e = go (f w.calls (O.others w.calls w.store)).0 refl e
      where
        s : State V
        s = O.others w.calls w.store

        go :
            (r : Result (Unit {0}))
            → (f w.calls s).0 ≡ r
            → (or_stop r (λ _. give (ok k)) (port O f w).1).0 ≡ ok o
            → Recorded id o (or_stop r (λ _. give (ok k)) (port O f w).1).1.store
        go (ok a) q x = let same : k ≡ o = cc in rw (← same) (h w.calls s a q)
        go (err y) q x = absurd (clash x)
          where
            clash : (err y ≡ ok o) → ⊥
            clash z = cc

    Records-bind :
        {A : Type 0} (id : ℕ) (m : Action V A) (f : A → Action V (Result Outcome))
        → ((a : A) → Records id (f a))
        → Records id (m >>= f)
    unfolding ◌>>=◌
    Records-bind id m f k w o h = k (m w).0 (m w).1 o h

    Records-if :
        (id : ℕ) (b : Bool) (m k : Action V (Result Outcome))
        → Records id m
        → Records id k
        → Records id (if b then m else k)
    Records-if id true m k h i = h
    Records-if id false m k h i = i

    Records-result :
        {A : Type 0} (id : ℕ) (r : Result A) (f : A → Action V (Result Outcome))
        (g : DomainError → Action V (Result Outcome))
        → ((a : A) → Records id (f a))
        → ((e : DomainError) → Records id (g e))
        → Records id (case_result r f g)
    Records-result id (ok a) f g h k = h a
    Records-result id (err e) f g h k = k e

abbrev pub total : DispatchStats → ℕ
total s = s.delivered + s.retried + s.dead

-- One for a result that is this outcome.
abbrev counts : Outcome → Result Outcome → ℕ
counts delivered (ok delivered) = 1
counts retried (ok retried) = 1
counts dead (ok dead) = 1
counts _ _ = 0

abbrev pub number_of : Outcome → List (Result Outcome) → ℕ
number_of o [] = 0
number_of o (r ∷ rs) = counts o r + number_of o rs

count-Counts :
    (r : Result Outcome) (s : DispatchStats)
    → ((count r s).claimed ≡ s.claimed)
      × ((count r s).delivered ≡ s.delivered + counts delivered r)
      × ((count r s).retried ≡ s.retried + counts retried r)
      × ((count r s).dead ≡ s.dead + counts dead r)
count-Counts (ok delivered) s = (refl, omega arith, omega arith, omega arith)
count-Counts (ok retried) s = (refl, omega arith, omega arith, omega arith)
count-Counts (ok dead) s = (refl, omega arith, omega arith, omega arith)
count-Counts (err e) s = (refl, omega arith, omega arith, omega arith)

count-total :
    (r : Result Outcome) (s : DispatchStats)
    → ((count r s).claimed ≡ s.claimed) × (total (count r s) ≤ total s + 1)
count-total (ok delivered) s = (refl, omega arith)
count-total (ok retried) s = (refl, omega arith)
count-total (ok dead) s = (refl, omega arith)
count-total (err e) s = (refl, omega arith)

module _ {V : Type 0} (O : Outside V) (c : DispatchConfig)
    (post : ℕ → WebhookDelivery V → ℕ → Result ℕ) where
  bury-Records :
      (d : WebhookDelivery V) (m : Message) (code : Option ℕ)
      → Records d.id (bury O c post d m code)
  unfolding bury bury_delivery
  bury-Records d m code =
      Records-port O d.id dead _ (λ n s a. change_delivery-Recorded d.id dead _ s a (λ x. refl))

  retry-Records :
      (d : WebhookDelivery V) (now : ℕ) (m : Message) (code : Option ℕ)
      → Records d.id (retry O c post d now m code)
  unfolding retry retry_delivery
  retry-Records d now m code = Records-bind O d.id _ _ (λ delay.
      Records-port O d.id retried _
        (λ n s a. change_delivery-Recorded d.id retried _ s a (λ x. refl)))

  failed-Records :
      (d : WebhookDelivery V) (now : ℕ) (m : Message) (code : Option ℕ)
      → Records d.id (failed O c post d now m code)
  unfolding failed
  failed-Records d now m code =
      Records-if O d.id (leb d.max_attempts d.attempts) _ _ (bury-Records d m code)
        (retry-Records d now m code)

  posted-Records :
      (d : WebhookDelivery V) (now code : ℕ) → Records d.id (posted O c post d now code)
  unfolding posted complete_delivery
  posted-Records d now code =
      Records-if O d.id (leb 200 code && ltb code 300) _ _
        (Records-port O d.id delivered _
          (λ n s a. change_delivery-Recorded d.id delivered _ s a (λ x. refl)))
        (failed-Records d now (http_status code) (some code))

  -- Whatever the target answers, the outcome that the dispatcher reports for a delivery is the one that
  -- the store keeps: delivered, in the queue again, or dead.
  pub deliver-Recorded :
      (d : WebhookDelivery V) (now : ℕ) (w : World V) (o : Outcome)
      → (deliver O c post d now w).0 ≡ ok o
      → Recorded d.id o (deliver O c post d now w).1.store
  unfolding deliver
  deliver-Recorded d now = Records-if O d.id (not d.active) _ _ (bury-Records d _ none) (
      Records-bind O d.id _ _ (λ r.
        Records-result O d.id r _ _ (posted-Records d now)
          (λ e. failed-Records d now (shown e) none)))

  deliver_all-total :
      (ds : List (WebhookDelivery V)) (s : DispatchStats) (w : World V)
      → let r = (deliver_all O c post ds s w).0 in
        (r.claimed ≡ s.claimed) × (total r ≤ total s + length ds)
  unfolding deliver_all ◌>>=◌ utc_now give
  deliver_all-total [] s w = (refl, omega arith)
  deliver_all-total (d ∷ ds) s w =
      let v = deliver O c post d (O.utc w.calls) w in
      let h = deliver_all-total ds (count v.0 s) v.1 in
      let k = count-total v.0 s in (h.0 ∙ k.0, omega (arith, h.1, k.1))

  -- What the deliveries of a pass give, one after the other.
  abbrev pub Results : List (WebhookDelivery V) → List (Result Outcome) → World V → Type 0
  Results [] [] w = Unit
  Results (d ∷ ds) (r ∷ rs) w =
      ((deliver O c post d (O.utc w.calls) w).0 ≡ r)
      × Results ds rs (deliver O c post d (O.utc w.calls) w).1
  Results _ _ w = ⊥

  -- The statistics `t` count these results on top of `s`.
  pub record Counts (s t : DispatchStats) (rs : List (Result Outcome)) : Type 0 where
    pub claimed : t.claimed ≡ s.claimed
    pub delivered : t.delivered ≡ s.delivered + number_of delivered rs
    pub retried : t.retried ≡ s.retried + number_of retried rs
    pub dead : t.dead ≡ s.dead + number_of dead rs

  deliver_all-Counts :
      (ds : List (WebhookDelivery V)) (s : DispatchStats) (w : World V)
      → (rs : List (Result Outcome)) × Results ds rs w × Counts s (deliver_all O c post ds s w).0 rs
  unfolding deliver_all ◌>>=◌ utc_now give
  deliver_all-Counts [] s w = (
    [],
    tt,
    record { claimed = refl; delivered = omega arith; retried = omega arith; dead = omega arith },
  )
  deliver_all-Counts (d ∷ ds) s w =
      let v = deliver O c post d (O.utc w.calls) w in
      let (rs, results, k) = deliver_all-Counts ds (count v.0 s) v.1 in
      let one = count-Counts v.0 s in
      (
        v.0 ∷ rs,
        (refl, results),
        record {
          claimed = k.claimed ∙ one.0;
          delivered = omega (arith, k.delivered, one.1);
          retried = omega (arith, k.retried, one.2);
          dead = omega (arith, k.dead, one.3);
        },
      )

  -- If a pass ends well, it has claimed deliveries of the store as it was then, and its statistics
  -- are the number of these and, of the results of delivering them one after the other, those that
  -- were delivered, put back in the queue, and given up; together no more than were claimed.
  pub run_once-total :
      (limit : ℤ) (w : World V) (s : DispatchStats)
      → (run_once O c post limit w).0 ≡ ok s
      → (ds : List (WebhookDelivery V)) × (rs : List (Result Outcome)) × (((port O
              (λ n. claim_deliveries (O.utc n) limit c.lease))
            w).0
          ≡ ok ds)
        × Results ds rs ((port O (λ n. claim_deliveries (O.utc n) limit c.lease)) w).1
        × (s.claimed ≡ length ds)
        × (s.delivered ≡ number_of delivered rs)
        × (s.retried ≡ number_of retried rs)
        × (s.dead ≡ number_of dead rs)
        × (total s ≤ s.claimed)
  unfolding run_once and_then ◌>>=◌ or_stop give
  run_once-total limit w s h =
      go (port O (λ n. claim_deliveries (O.utc n) limit c.lease) w).0 refl h
    where
      begin : ℕ → DispatchStats
      begin n = record { claimed = n; delivered = 0; retried = 0; dead = 0 }

      rest : List (WebhookDelivery V) → Action V (Result DispatchStats)
      rest ds = deliver_all O c post ds (begin (length ds)) >>= λ t. give (ok t)

      v : World V
      v = (port O (λ n. claim_deliveries (O.utc n) limit c.lease) w).1

      go :
          (r : Result (List (WebhookDelivery V)))
          → (port O (λ n. claim_deliveries (O.utc n) limit c.lease) w).0 ≡ r
          → (or_stop r rest v).0 ≡ ok s
          → (ds : List (WebhookDelivery V)) × (rs : List (Result Outcome)) × ((port O
                (λ n. claim_deliveries (O.utc n) limit c.lease)
                w).0
              ≡ ok ds)
            × Results ds rs v
            × (s.claimed ≡ length ds)
            × (s.delivered ≡ number_of delivered rs)
            × (s.retried ≡ number_of retried rs)
            × (s.dead ≡ number_of dead rs)
            × (total s ≤ s.claimed)
      go (ok ds) q e =
          let k = deliver_all-total ds (begin (length ds)) v in
          let (rs, results, counts) = deliver_all-Counts ds (begin (length ds)) v in
          let same : (deliver_all O c post ds (begin (length ds)) v).0 ≡ s = cc in
          (
            ds,
            rs,
            q,
            results,
            rw (← same) counts.claimed,
            rw (← same) (omega (arith, counts.delivered)),
            rw (← same) (omega (arith, counts.retried)),
            rw (← same) (omega (arith, counts.dead)),
            rw (← same) (omega (arith, k)),
          )
      go (err y) q e = absurd (clash e)
        where
          clash : (err y ≡ ok s) → ⊥
          clash z = cc
