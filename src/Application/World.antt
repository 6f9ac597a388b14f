-- ===== src/Application/World.antt =====
-- What the use cases run in: the store, the circuit breakers and the outside. Between two calls that
-- a use case awaits, other tasks may do anything to the store and the breakers, the network may
-- answer anything, and time passes; all of this is a function of the number of calls made so far.
pub mod Logic
pub mod Runs
use dian_service.Base.{ℕ, suc, Bool, List, ◌∷◌, String, Option, none, some, ◌⊎◌, inl, inr}
use dian_service.Domain.Errors.{Result, ok, err, DomainError}
use dian_service.Domain.Ports.{DianResponse}
use dian_service.Store.State.{State}
use dian_service.Application.Resilience.{CircuitBreaker, Breakers, for_environment, set_environment}

pub record World (V : Type 0) : Type 0 where
  pub store : State V
  pub breakers : Breakers
  pub calls : ℕ
  -- The archives that were handed to the DIAN, the last one first.
  pub sent : List (List ℕ)

-- The first argument of each field is the number of calls made so far.
pub record Outside (V : Type 0) : Type 0 where
  pub utc : ℕ → ℕ
  pub instant : ℕ → ℕ
  pub random : ℕ → ℕ
  pub new_id : ℕ → ℕ → ℕ
  pub others : ℕ → State V → State V
  pub other_breakers : ℕ → Breakers → Breakers
  -- `CryptoSigner` and `DianSoapClient`: tenant first, and whether the environment is habilitacion last.
  pub sign : ℕ → ℕ → String → Result String
  pub get_status : ℕ → ℕ → String → Bool → Result DianResponse
  pub get_status_zip : ℕ → ℕ → String → Bool → Result DianResponse
  pub send_bill_sync : ℕ → ℕ → List ℕ → Bool → Result DianResponse
  pub send_test_set_async : ℕ → ℕ → List ℕ → String → Bool → Result String

abbrev pub Action : Type 0 → Type 0 → Type 0
Action V A = World V → A × World V

module _ {V : Type 0} where
  unfoldable pub give : {A : Type 0} → A → Action V A
  give a w = (a, w)

  infixl 5 ◌>>=◌ ◌>>◌
  unfoldable pub ◌>>=◌ : {A B : Type 0} → Action V A → (A → Action V B) → Action V B
  ◌>>=◌ m f w = f (m w).0 (m w).1

  abbrev pub ◌>>◌ : {A B : Type 0} → Action V A → Action V B → Action V B
  ◌>>◌ m k = m >>= λ _. k

  -- Branches on a computed value.
  abbrev pub case_option : {A B : Type 0} → Option A → Action V B → (A → Action V B) → Action V B
  case_option none m f = m
  case_option (some a) m f = f a

  abbrev pub case_result :
      {A B : Type 0} → Result A → (A → Action V B) → (DomainError → Action V B) → Action V B
  case_result (ok a) f g = f a
  case_result (err e) f g = g e

  abbrev pub case_sum : {A B C : Type 0} → A ⊎ B → (A → Action V C) → (B → Action V C) → Action V C
  case_sum (inl a) f g = f a
  case_sum (inr b) f g = g b

  unfoldable pub or_stop :
      {A B : Type 0} → Result A → (A → Action V (Result B)) → Action V (Result B)
  unfolding give
  or_stop (ok a) f = f a
  or_stop (err e) f = give (err e)

  -- `m?`, then the rest.
  unfoldable pub and_then :
      {A B : Type 0} → Action V (Result A) → (A → Action V (Result B)) → Action V (Result B)
  unfolding ◌>>=◌ or_stop
  and_then m f = m >>= λ r. or_stop r f

module _ {V : Type 0} (O : Outside V) where
  -- A call of a port, which is given the number of calls before it.
  unfoldable pub port : {A : Type 0} → (ℕ → State V → A × State V) → Action V A
  port f w =
      let (a, s) = f w.calls (O.others w.calls w.store) in
      (a, record w { store = s; calls = suc w.calls })

  -- A call of the breaker of an environment.
  unfoldable pub on_breaker :
      {A : Type 0} → Bool → (ℕ → CircuitBreaker → A × CircuitBreaker) → Action V A
  on_breaker is_hab f w =
      let b = O.other_breakers w.calls w.breakers in
      let (a, c) = f (O.instant w.calls) (for_environment is_hab b) in
      (a, record w { breakers = set_environment is_hab c b; calls = suc w.calls })

  -- A call that changes nothing here.
  unfoldable pub remote : {A : Type 0} → (ℕ → A) → Action V A
  remote f w = (f w.calls, record w { calls = suc w.calls })

  unfoldable pub send : {A : Type 0} → List ℕ → (ℕ → A) → Action V A
  send zip f w = (f w.calls, record w { calls = suc w.calls; sent = zip ∷ w.sent })

  unfoldable pub utc_now : Action V ℕ
  utc_now w = (O.utc w.calls, w)
