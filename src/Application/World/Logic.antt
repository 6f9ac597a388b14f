-- ===== src/Application/World/Logic.antt =====
-- Properties of actions, put together from those of their parts: what holds once an action has
-- succeeded, and how an action may change the store. Neither depends on what the other tasks do,
-- except where an assumption on them is stated.
use dian_service.Base.{
  ℕ, ◌≡◌, refl, Bool, true, false, List, Option, none, some, ◌⊎◌, inl, inr, if◌then◌else◌,
}
use dian_service.Domain.Errors.{Result, ok, err, DomainError}
use dian_service.Store.State.{State}
use dian_service.Application.Resilience.{CircuitBreaker}
use dian_service.Application.World.{
  World, Outside, Action, give, case_option, case_result, case_sum, ◌>>=◌, or_stop, and_then, port,
  on_breaker, remote, send, utc_now,
}

module _ {V : Type 0} (G : State V → Type 0) where
  -- If the action succeeds, the store is then as `G` says.
  abbrev pub Ends : {A : Type 0} → Action V (Result A) → Type 0
  Ends {A} m = (w : World V) (a : A) → (m w).0 ≡ ok a → G (m w).1.store

  pub Ends-err : {A : Type 0} (e : _) → Ends (give {A = Result A} (err e))
  unfolding give
  Ends-err e w a h = cc

  Ends-or_stop :
      {A B : Type 0} (r : Result A) (f : A → Action V (Result B))
      → ((a : A) → Ends (f a))
      → Ends (or_stop r f)
  unfolding or_stop give
  Ends-or_stop (ok a) f k w b h = k a w b h
  Ends-or_stop (err e) f k w b h = cc

  pub Ends-and_then :
      {A B : Type 0} (m : Action V (Result A)) (f : A → Action V (Result B))
      → ((a : A) → Ends (f a))
      → Ends (and_then m f)
  unfolding and_then ◌>>=◌
  Ends-and_then m f k w b h = Ends-or_stop (m w).0 f k (m w).1 b h

  pub Ends-if :
      {A : Type 0} (b : Bool) (m k : Action V (Result A))
      → (b ≡ true → Ends m)
      → (b ≡ false → Ends k)
      → Ends (if b then m else k)
  Ends-if true m k h i = h refl
  Ends-if false m k h i = i refl

  pub Ends-option :
      {A B : Type 0} (o : Option A) (m : Action V (Result B)) (f : A → Action V (Result B))
      → Ends m
      → ((a : A) → Ends (f a))
      → Ends (case_option o m f)
  Ends-option none m f h k = h
  Ends-option (some a) m f h k = k a

  -- The same in one world, with what the test has found.
  abbrev pub EndsIn : {B : Type 0} → World V → B → Action V (Result B) → Type 0
  EndsIn w b m = (m w).0 ≡ ok b → G (m w).1.store

  pub EndsIn-if :
      {B : Type 0} (w : World V) (b : B) (t : Bool) (m k : Action V (Result B))
      → (t ≡ true → EndsIn w b m)
      → (t ≡ false → EndsIn w b k)
      → EndsIn w b (if t then m else k)
  EndsIn-if w b true m k h i = h refl
  EndsIn-if w b false m k h i = i refl

  pub EndsIn-option :
      {A B : Type 0} (w : World V) (b : B) (o : Option A) (m : Action V (Result B))
      (f : A → Action V (Result B))
      → (o ≡ none → EndsIn w b m)
      → ((a : A) → o ≡ some a → EndsIn w b (f a))
      → EndsIn w b (case_option o m f)
  EndsIn-option w b none m f h k = h refl
  EndsIn-option w b (some a) m f h k = k a refl

  pub Ends-result :
      {A B : Type 0} (r : Result A) (f : A → Action V (Result B))
      (g : DomainError → Action V (Result B))
      → ((a : A) → Ends (f a))
      → ((e : DomainError) → Ends (g e))
      → Ends (case_result r f g)
  Ends-result (ok a) f g h k = h a
  Ends-result (err e) f g h k = k e

  pub Ends-sum :
      {A B C : Type 0} (x : A ⊎ B) (f : A → Action V (Result C)) (g : B → Action V (Result C))
      → ((a : A) → Ends (f a))
      → ((b : B) → Ends (g b))
      → Ends (case_sum x f g)
  Ends-sum (inl a) f g h k = h a
  Ends-sum (inr b) f g h k = k b

  pub Ends-bind :
      {A B : Type 0} (m : Action V A) (f : A → Action V (Result B))
      → ((a : A) → Ends (f a))
      → Ends (m >>= f)
  unfolding ◌>>=◌
  Ends-bind m f k w b h = k (m w).0 (m w).1 b h

  pub Ends-port :
      {A : Type 0} (O : Outside V) (f : ℕ → State V → Result A × State V)
      → ((n : ℕ) (s : State V) (a : A) → (f n s).0 ≡ ok a → G (f n s).1)
      → Ends (port O f)
  unfolding port
  Ends-port O f k w a h = k w.calls (O.others w.calls w.store) a h

-- A relation between the stores before and after that all actions of a kind respect.
pub record IsFrame {V : Type 0} (P : State V → State V → Type 0) : Type 0 where
  pub same : (s : State V) → P s s
  pub compose : {s t u : State V} → P s t → P t u → P s u

module _ {V : Type 0} (P : State V → State V → Type 0) where
  abbrev pub Respects : {A : Type 0} → Action V A → Type 0
  Respects m = (w : World V) → P w.store (m w).1.store

  module _ (F : IsFrame P) where
    pub Respects-give : {A : Type 0} (a : A) → Respects (give {V = V} a)
    unfolding give
    Respects-give a w = F.same w.store

    pub Respects-if :
        {A : Type 0} (b : Bool) (m k : Action V A)
        → Respects m
        → Respects k
        → Respects (if b then m else k)
    Respects-if true m k h i = h
    Respects-if false m k h i = i

    pub Respects-option :
        {A B : Type 0} (o : Option A) (m : Action V B) (f : A → Action V B)
        → Respects m
        → ((a : A) → Respects (f a))
        → Respects (case_option o m f)
    Respects-option none m f h k = h
    Respects-option (some a) m f h k = k a

    pub Respects-result :
        {A B : Type 0} (r : Result A) (f : A → Action V B) (g : DomainError → Action V B)
        → ((a : A) → Respects (f a))
        → ((e : DomainError) → Respects (g e))
        → Respects (case_result r f g)
    Respects-result (ok a) f g h k = h a
    Respects-result (err e) f g h k = k e

    pub Respects-sum :
        {A B C : Type 0} (x : A ⊎ B) (f : A → Action V C) (g : B → Action V C)
        → ((a : A) → Respects (f a))
        → ((b : B) → Respects (g b))
        → Respects (case_sum x f g)
    Respects-sum (inl a) f g h k = h a
    Respects-sum (inr b) f g h k = k b

    pub Respects-bind :
        {A B : Type 0} (m : Action V A) (f : A → Action V B)
        → Respects m
        → ((a : A) → Respects (f a))
        → Respects (m >>= f)
    unfolding ◌>>=◌
    Respects-bind m f h k w = F.compose (h w) (k (m w).0 (m w).1)

    Respects-or_stop :
        {A B : Type 0} (r : Result A) (f : A → Action V (Result B))
        → ((a : A) → Respects (f a))
        → Respects (or_stop r f)
    unfolding or_stop give
    Respects-or_stop (ok a) f k w = k a w
    Respects-or_stop (err e) f k w = F.same w.store

    pub Respects-and_then :
        {A B : Type 0} (m : Action V (Result A)) (f : A → Action V (Result B))
        → Respects m
        → ((a : A) → Respects (f a))
        → Respects (and_then m f)
    unfolding and_then ◌>>=◌
    Respects-and_then m f h k w = F.compose (h w) (Respects-or_stop (m w).0 f k (m w).1)

    pub Respects-port :
        {A : Type 0} (O : Outside V) (f : ℕ → State V → A × State V)
        → ((n : ℕ) (s : State V) → P s (O.others n s))
        → ((n : ℕ) (s : State V) → P s (f n s).1)
        → Respects (port O f)
    unfolding port
    Respects-port O f others h w =
        F.compose (others w.calls w.store) (h w.calls (O.others w.calls w.store))

    pub Respects-on_breaker :
        {A : Type 0} (O : Outside V) (is_hab : Bool) (f : ℕ → CircuitBreaker → A × CircuitBreaker)
        → Respects (on_breaker O is_hab f)
    unfolding on_breaker
    Respects-on_breaker O is_hab f w = F.same w.store

    pub Respects-remote : {A : Type 0} (O : Outside V) (f : ℕ → A) → Respects (remote O f)
    unfolding remote
    Respects-remote O f w = F.same w.store

    pub Respects-send :
        {A : Type 0} (O : Outside V) (zip : List ℕ) (f : ℕ → A) → Respects (send O zip f)
    unfolding send
    Respects-send O zip f w = F.same w.store

    pub Respects-utc_now : (O : Outside V) → Respects (utc_now O)
    unfolding utc_now
    Respects-utc_now O w = F.same w.store

module _ {V : Type 0} (G : State V → Type 0) (O : Outside V) where
  -- The rest of an action is known to start from the store that its first call has left.
  pub Ends-after :
      {A B : Type 0} (f : ℕ → State V → Result A × State V) (k : A → Action V (Result B))
      → ((n : ℕ) (s : State V) (a : A) (w : World V) (b : B)
          → (f n s).0 ≡ ok a
          → w.store ≡ (f n s).1
          → (k a w).0 ≡ ok b
          → G (k a w).1.store)
      → Ends G (and_then (port O f) k)
  unfolding and_then ◌>>=◌ port or_stop give
  Ends-after {A} {B} f k h w b e = go (f w.calls s).0 refl e
    where
      s : State V
      s = O.others w.calls w.store

      v : World V
      v = (port O f w).1

      go :
          (r : Result A)
          → (f w.calls s).0 ≡ r
          → (or_stop r k v).0 ≡ ok b
          → G (or_stop r k v).1.store
      go (ok a) q x = h w.calls s a v b q refl x
      go (err y) q x = absurd (clash x)
        where
          clash : (err y ≡ ok b) → ⊥
          clash z = cc

  pub EndsIn-read :
      {A B : Type 0} (v : World V) (b : B) (f : State V → A) (k : A → Action V (Result B))
      → ((w : World V) → w.store ≡ O.others v.calls v.store → EndsIn G w b (k (f w.store)))
      → EndsIn G v b (port O (λ _ s. (f s, s)) >>= k)
  unfolding ◌>>=◌ port
  EndsIn-read v b f k h e = h (port O (λ _ s. (f s, s)) v).1 refl e
