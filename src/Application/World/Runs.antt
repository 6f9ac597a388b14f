-- ===== src/Application/World/Runs.antt =====
-- What holds of the result and of the world after an action that succeeds, from what holds after its
-- parts.
use dian_service.Base.{◌≡◌, refl, Bool, true, false, if◌then◌else◌}
use dian_service.Domain.Errors.{Result, ok, err, DomainError}
use dian_service.Application.World.{World, Action, give, ◌>>=◌, or_stop, and_then}

module _ {V B : Type 0} (C : B → World V → Type 0) where
  abbrev pub Returns : Action V (Result B) → World V → Type 0
  Returns m w = (b : B) → (m w).0 ≡ ok b → C b (m w).1

  pub Returns-or_stop :
      {A : Type 0} (r : Result A) (f : A → Action V (Result B)) (w : World V)
      → ((a : A) → r ≡ ok a → Returns (f a) w)
      → Returns (or_stop r f) w
  unfolding or_stop give
  Returns-or_stop (ok a) f w k = k a refl
  Returns-or_stop (err e) f w k = λ b h. cc

  pub Returns-and_then :
      {A : Type 0} (m : Action V (Result A)) (f : A → Action V (Result B)) (w : World V)
      → ((a : A) → (m w).0 ≡ ok a → Returns (f a) (m w).1)
      → Returns (and_then m f) w
  unfolding and_then ◌>>=◌
  Returns-and_then m f w k = Returns-or_stop (m w).0 f (m w).1 k

  pub Returns-err : (e : DomainError) (w : World V) → Returns (give (err e)) w
  unfolding give
  Returns-err e w b h = cc

  pub Returns-if :
      (t : Bool) (m k : Action V (Result B)) (w : World V)
      → (t ≡ true → Returns m w)
      → (t ≡ false → Returns k w)
      → Returns (if t then m else k) w
  Returns-if true m k w h i = h refl
  Returns-if false m k w h i = i refl
