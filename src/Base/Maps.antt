-- ===== src/Base/Maps.antt =====
-- A `HashMap` with `Uuid` keys as an association list. The order of the list stands for the map's
-- unspecified iteration order.
use Prim.Native.Nat.{ℕ}
use mathlib.Core.Path.{◌≡◌, refl, ◌∙◌}
use mathlib.Core.Bool.{Bool, false}
use mathlib.Core.List.{List, [], ◌∷◌}
use mathlib.Core.Option
use mathlib.Core.Option.{Option, none, some}
use native.Mathlib.Omega.{arith}
use mathlib.Core.Logic.{inl, inr}
use dian_service.Base.Lists.{All, All-mono, any}
use dian_service.Base.Tests.{nat_eq, nat_eq_iff, Bool-cases, if◌then◌else◌}

abbrev pub Dict {ℓ} : Type ℓ → Type ℓ
Dict V = List (ℕ × V)

module _ {ℓ} {V : Type ℓ} where
  unfoldable pub lookup : ℕ → Dict V → Option V
  lookup k [] = none
  lookup k ((j, v) ∷ m) = if nat_eq j k then some v else lookup k m

  unfoldable pub insert : ℕ → V → Dict V → Dict V
  insert k v [] = (k, v) ∷ []
  insert k v ((j, w) ∷ m) = if nat_eq j k then (k, v) ∷ m else (j, w) ∷ insert k v m

  -- `get_mut(k)` followed by a change of the value, where the key is there.
  unfoldable pub adjust : ℕ → (V → V) → Dict V → Dict V
  adjust k f [] = []
  adjust k f ((j, w) ∷ m) = if nat_eq j k then (j, f w) ∷ m else (j, w) ∷ adjust k f m

  abbrev pub values : Dict V → List V
  values [] = []
  values ((k, v) ∷ m) = v ∷ values m

  pub lookup-insert :
      (k j : ℕ) (v : V) (m : Dict V)
      → lookup j (insert k v m) ≡ (if nat_eq k j then some v else lookup j m)
  unfolding lookup insert
  lookup-insert k j v [] = refl
  lookup-insert k j v (entry ∷ m) = ground (arith, lookup-insert k j v m)

  pub lookup-adjust :
      (k j : ℕ) (f : V → V) (m : Dict V)
      → lookup j (adjust k f m) ≡ (if nat_eq k j then Option.map f (lookup j m) else lookup j m)
  unfolding lookup adjust
  lookup-adjust k j f [] = ground arith
  lookup-adjust k j f ((i, w) ∷ m) = ground (arith, lookup-adjust k j f m)

  pub any-lookup :
      (p : V → Bool) (k : ℕ) (v : V) (m : Dict V)
      → any p (values m) ≡ false
      → lookup k m ≡ some v
      → p v ≡ false
  unfolding lookup
  any-lookup p k v [] h e = cc
  any-lookup p k v ((j, w) ∷ m) h e = ground (arith, any-lookup p k v m)

module _ {ℓ} {V : Type ℓ} (key : V → ℕ) where
  -- Every value is stored under its own key, and no key is stored twice.
  abbrev pub Keyed : Dict V → Type ℓ
  Keyed [] = Unit
  Keyed ((k, v) ∷ m) = (key v ≡ k) × (lookup k m ≡ none) × Keyed m

  pub insert-Keyed : (k : ℕ) (v : V) (m : Dict V) → key v ≡ k → Keyed m → Keyed (insert k v m)
  unfolding insert lookup
  insert-Keyed k v [] e h = (e, refl, tt)
  insert-Keyed k v ((j, w) ∷ m) e h = elim (Bool-cases (nat_eq j k)) [
    | inl same ↦ rw same (e, rw (← (nat_eq_iff j k).0 same) h.1, h.2)
    | inr other ↦
        rw other (h.0, ground (arith, lookup-insert k j v m, h.1), insert-Keyed k v m e h.2)
  ]

  pub adjust-Keyed :
      (k : ℕ) (f : V → V) (m : Dict V)
      → ((v : V) → key (f v) ≡ key v)
      → Keyed m
      → Keyed (adjust k f m)
  unfolding adjust
  adjust-Keyed k f [] keeps h = tt
  adjust-Keyed k f ((j, w) ∷ m) keeps h = elim (Bool-cases (nat_eq j k)) [
    | inl same ↦ rw same (keeps w ∙ h.0, h.1, h.2)
    | inr other ↦
        rw other (h.0, rw (lookup-adjust k j f m, h.1) (ground arith), adjust-Keyed k f m keeps h.2)
  ]

  pub lookup-Keyed : (k : ℕ) (v : V) (m : Dict V) → Keyed m → lookup k m ≡ some v → key v ≡ k
  unfolding lookup
  lookup-Keyed k v [] h e = cc
  lookup-Keyed k v ((j, w) ∷ m) h e = ground (arith, h.0, lookup-Keyed k v m h.2, nat_eq_iff j k)

  skip :
      (k : ℕ) (w : V) (m : Dict V) (v : V)
      → lookup k m ≡ none
      → lookup (key v) m ≡ some v
      → lookup (key v) ((k, w) ∷ m) ≡ some v
  unfolding lookup
  skip k w m v new old = elim (Bool-cases (nat_eq k (key v))) [
    | inl same ↦ absurd (clash (rw (← (nat_eq_iff k (key v)).0 same) at old))
    | inr other ↦ rw other old
  ]
    where
      clash : lookup k m ≡ some v → ⊥
      clash e = cc

  pub values-Keyed : (m : Dict V) → Keyed m → All (λ v. lookup (key v) m ≡ some v) (values m)
  unfolding lookup
  values-Keyed [] h = tt
  values-Keyed ((k, w) ∷ m) h =
      (ground (arith, h.0), All-mono (values m) (λ v. skip k w m v h.1) (values-Keyed m h.2))
