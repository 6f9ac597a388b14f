-- ===== src/Store/InForce.antt =====
-- Which numbering range `issue_outbound` picks.
use dian_service.Base.{
  ℕ, ◌≡◌, refl, sym, ap, ◌≤◌, ◌⊎◌, inl, inr, Bool, true, List, [], ◌∷◌, some, arith, All, All-mono,
  keep, values, ltb, if◌then◌else◌, Bool-cases, ℕ_eq, string_eq, eq_iff,
}
use dian_service.Domain.Enums.{document_type_eq, document_type_index_iff}
use dian_service.Domain.Models.{NumberingRange}
use dian_service.Domain.Ports.{NewOutboundDocument}
use dian_service.Store.State.{State}
use dian_service.Store.Documents.{latest, latest_from, applies, pick_range}

abbrev pub Among : {A : Type 0} → A → List A → Type 0
Among x [] = ⊥
Among x (y ∷ ys) = (x ≡ y) ⊎ Among x ys

-- The range is for the document's tenant, type and prefix, and in force at the time.
pub record Applies {V : Type 0} (now : ℕ) (d : NewOutboundDocument V) (r : NumberingRange)
    : Type 0 where
  pub tenant : r.tenant_id ≡ d.tenant_id
  pub type : r.document_type ≡ d.document_type
  pub prefix : r.prefix ≡ d.prefix
  pub started : r.valid_date_from ≤ now
  pub not_ended : now ≤ r.valid_date_to

-- Of the ranges that apply it is one that starts last.
pub record IsLatest {V : Type 0} (now : ℕ) (d : NewOutboundDocument V) (s : State V)
    (r : NumberingRange) : Type 0 where
  pub there : Among r (values s.ranges)
  pub applying : Applies now d r
  pub last : All (λ q. Applies now d q → q.valid_date_from ≤ r.valid_date_from) (values s.ranges)

abbrev IsLast : NumberingRange → List NumberingRange → Type 0
IsLast m rs = Among m rs × All (λ q. q.valid_date_from ≤ m.valid_date_from) rs

IsLast-eq : (m n : NumberingRange) (rs : List NumberingRange) → m ≡ n → IsLast m rs → IsLast n rs
IsLast-eq m n rs e h = rw e at h

keep_best :
    (m best r : NumberingRange) (rs : List NumberingRange)
    → r.valid_date_from ≤ best.valid_date_from
    → IsLast m (best ∷ rs)
    → IsLast m (best ∷ r ∷ rs)
keep_best m best r rs e (inl q, (first, rest)) = (inl q, (first, (omega (arith, e, first), rest)))
keep_best m best r rs e (inr q, (first, rest)) =
    (inr (inr q), (first, (omega (arith, e, first), rest)))

latest_from-IsLast :
    (rs : List NumberingRange) (best : NumberingRange) → IsLast (latest_from best rs) (best ∷ rs)
unfolding latest_from
latest_from-IsLast [] best = (inl refl, (omega arith, tt))
latest_from-IsLast (r ∷ rs) best = elim (Bool-cases (ltb r.valid_date_from best.valid_date_from)) [
  | inl e ↦
      IsLast-eq _ _ (best ∷ r ∷ rs) (sym (ap (λ b. latest_from (if b then best else r) rs) e))
        (keep_best (latest_from best rs) best r rs (ground (arith, e)) (latest_from-IsLast rs best))
  | inr e ↦
      let (there, all) = latest_from-IsLast rs r in
      IsLast-eq _ _ (best ∷ r ∷ rs) (sym (ap (λ b. latest_from (if b then best else r) rs) e))
        (inr there, (ground (arith, e, all.0), all))
]

latest-IsLast : (rs : List NumberingRange) (m : NumberingRange) → latest rs ≡ some m → IsLast m rs
unfolding latest
latest-IsLast [] m h = cc
latest-IsLast (r ∷ rs) m h =
    IsLast-eq (latest_from r rs) m (r ∷ rs) (some_eq h) (latest_from-IsLast rs r)
  where
    some_eq : some (latest_from r rs) ≡ some m → latest_from r rs ≡ m
    some_eq e = cc

Among-keep :
    {A : Type 0} (p : A → Bool) (x : A) (xs : List A)
    → Among x (keep p xs)
    → Among x xs × (p x ≡ true)
Among-keep p x [] = λ h. absurd h
Among-keep p x (y ∷ ys) = elim (Bool-cases (p y)) [
  | inl e ↦ rw e (λ h. elim h [
    | inl q ↦ (inl q, rw q e)
    | inr k ↦ let (there, holds) = Among-keep p x ys k in (inr there, holds)
  ])
  | inr e ↦ rw e (λ h. let (there, holds) = Among-keep p x ys h in (inr there, holds))
]

All-keep_back :
    {A : Type 0} (P : A → Type 0) (p : A → Bool) (xs : List A)
    → All P (keep p xs)
    → All (λ x. p x ≡ true → P x) xs
All-keep_back P p [] = λ h. tt
All-keep_back P p (x ∷ xs) = elim (Bool-cases (p x)) [
  | inl e ↦ rw e (λ h. ((λ _. h.0), All-keep_back P p xs h.1))
  | inr e ↦ rw e (λ h. ((λ k. cc), All-keep_back P p xs h))
]

module _ {V : Type 0} (now : ℕ) (d : NewOutboundDocument V) where
  applies-Applies : (r : NumberingRange) → applies now d r ≡ true → Applies now d r
  applies-Applies r h = record {
    tenant = ground (arith, h);
    type = ground (arith, h, document_type_index_iff r.document_type d.document_type);
    prefix = ground (arith, h, eq_iff r.prefix d.prefix);
    started = ground (arith, h);
    not_ended = ground (arith, h);
  }

  Applies-applies : (r : NumberingRange) → Applies now d r → applies now d r ≡ true
  Applies-applies r h = ground (
    arith,
    h.tenant,
    h.type,
    h.prefix,
    h.started,
    h.not_ended,
    document_type_index_iff r.document_type d.document_type,
    eq_iff r.prefix d.prefix,
  )

  pub pick_range-IsLatest :
      (s : State V) (r : NumberingRange) → pick_range now d s ≡ some r → IsLatest now d s r
  unfolding pick_range
  pick_range-IsLatest s r h =
      let (among, last) = latest-IsLast (keep (applies now d) (values s.ranges)) r h in
      let (there, holds) = Among-keep (applies now d) r (values s.ranges) among in
      record {
        there = there;
        applying = applies-Applies r holds;
        last =
            All-mono (values s.ranges) (λ q h k. h (Applies-applies q k))
              (All-keep_back (λ q. q.valid_date_from ≤ r.valid_date_from) (applies now d)
                (values s.ranges) last);
      }
