-- ===== src/Store/Evolution.antt =====
-- How the documents of a store may change: each keeps its identity, and its status follows the
-- diagram of Domain/Lifecycle/Graph.antt.
use dian_service.Base.{
  ℕ, ◌≡◌, refl, ◌∙◌, inl, inr, Bool-cases, none, some, arith, Dict, lookup, insert, adjust,
  lookup-insert, lookup-adjust, Keyed, insert-Keyed, adjust-Keyed, nat_eq, nat_eq_iff,
}
use dian_service.Domain.Enums.{DocumentStatus}
use dian_service.Domain.Lifecycle.Graph.{◌⟶*◌, here, ⟶*-trans}
use dian_service.Domain.Models.{Document}

module _ {V : Type 0} where
  pub record Follows (d e : Document V) : Type 0 where
    pub id : e.id ≡ d.id
    pub tenant_id : e.tenant_id ≡ d.tenant_id
    pub direction : e.direction ≡ d.direction
    pub issuer_nit : e.issuer_nit ≡ d.issuer_nit
    pub document_type : e.document_type ≡ d.document_type
    pub prefix : e.prefix ≡ d.prefix
    pub document_number : e.document_number ≡ d.document_number
    pub numbering_range_id : e.numbering_range_id ≡ d.numbering_range_id
    pub payload : e.payload ≡ d.payload
    pub created_at : e.created_at ≡ d.created_at
    pub status : d.status ⟶* e.status

  abbrev pub with_status : Document V → DocumentStatus → Document V
  with_status d to = record d { status = to }

  -- Only the status changes.
  pub with_status-Follows :
      (d : Document V) (to : DocumentStatus) → d.status ⟶* to → Follows d (with_status d to)
  with_status-Follows d to h = record {
    id = refl;
    tenant_id = refl;
    direction = refl;
    issuer_nit = refl;
    document_type = refl;
    prefix = refl;
    document_number = refl;
    numbering_range_id = refl;
    payload = refl;
    created_at = refl;
    status = h;
  }

  pub Follows-refl : (d : Document V) → Follows d d
  Follows-refl d = with_status-Follows d d.status here

  pub Follows-trans : {d e f : Document V} → Follows d e → Follows e f → Follows d f
  Follows-trans h k = record {
    id = k.id ∙ h.id;
    tenant_id = k.tenant_id ∙ h.tenant_id;
    direction = k.direction ∙ h.direction;
    issuer_nit = k.issuer_nit ∙ h.issuer_nit;
    document_type = k.document_type ∙ h.document_type;
    prefix = k.prefix ∙ h.prefix;
    document_number = k.document_number ∙ h.document_number;
    numbering_range_id = k.numbering_range_id ∙ h.numbering_range_id;
    payload = k.payload ∙ h.payload;
    created_at = k.created_at ∙ h.created_at;
    status = ⟶*-trans h.status k.status;
  }

  -- A document that was there is there and follows; a new one may appear.
  pub record Evolves (m n : Dict (Document V)) : Type 0 where
    pub keeps :
        (id : ℕ) (d : Document V)
        → lookup id m ≡ some d
        → (e : Document V) × (lookup id n ≡ some e) × Follows d e
    pub keyed : Keyed (λ d. d.id) m → Keyed (λ d. d.id) n

  pub Evolves-refl : (m : Dict (Document V)) → Evolves m m
  Evolves-refl m = record { keeps = λ id d h. (d, h, Follows-refl d); keyed = λ h. h }

  pub Evolves-of_eq : {m n : Dict (Document V)} → n ≡ m → Evolves m n
  Evolves-of_eq {m} e = rw e (Evolves-refl m)

  pub Evolves-trans : {m n o : Dict (Document V)} → Evolves m n → Evolves n o → Evolves m o
  Evolves-trans h k = record {
    keeps = λ id d e.
        let (d', e', f) = h.keeps id d e in
        let (d'', e'', g) = k.keeps id d' e' in (d'', e'', Follows-trans f g);
    keyed = λ x. k.keyed (h.keyed x);
  }

  adjust-keeps :
      (k : ℕ) (f : Document V → Document V) (m : Dict (Document V))
      → ((d : Document V) → lookup k m ≡ some d → Follows d (f d))
      → (id : ℕ) (d : Document V) → lookup id m ≡ some d
      → (e : Document V) × (lookup id (adjust k f m) ≡ some e) × Follows d e
  adjust-keeps k f m follows id d h = elim (Bool-cases (nat_eq k id)) [
    | inl same ↦
        (f d, rw (lookup-adjust k id f m, same, h), follows d (rw ((nat_eq_iff k id).0 same) h))
    | inr other ↦ (d, rw (lookup-adjust k id f m, other) h, Follows-refl d)
  ]

  -- A change of one document that follows the diagram.
  pub adjust-Evolves :
      (k : ℕ) (f : Document V → Document V) (m : Dict (Document V))
      → ((d : Document V) → (f d).id ≡ d.id)
      → ((d : Document V) → lookup k m ≡ some d → Follows d (f d))
      → Evolves m (adjust k f m)
  adjust-Evolves k f m same follows = record {
    keeps = adjust-keeps k f m follows;
    keyed = adjust-Keyed (λ d. d.id) k f m same;
  }

  -- A document under a new id, its own.
  pub insert-Evolves :
      (d : Document V) (m : Dict (Document V)) → lookup d.id m ≡ none → Evolves m (insert d.id d m)
  insert-Evolves new m fresh = record {
    keeps = λ id d h. (d, ground (arith, lookup-insert new.id id new m), Follows-refl d);
    keyed = insert-Keyed (λ d. d.id) new.id new m refl;
  }
