-- ===== src/Application/Processing/Outcomes.antt =====
-- What has become of a job and its document once `process` has returned `Ok`.
use dian_service.Base.{ℕ, ◌≡◌, Bool, true, false, ◌⊎◌, inl, inr, if◌then◌else◌}
use dian_service.Domain.Enums.{JobKind, document_status_eq}
use dian_service.Domain.Errors.{ok, Message}
use dian_service.Domain.Json.{Json}
use dian_service.Domain.Models.{Job}
use dian_service.Domain.Ports.{Transition}
use dian_service.Store.State.{State}
use dian_service.Store.Outcome.{Settled, change_job-Settled, Applied, Refused, apply_transition-ok}
use dian_service.Store.Queue.{retry, release, complete, bury}
use dian_service.Store.Transitions.{apply_transition}
use dian_service.Application.Engine.{Engine}
use dian_service.Application.World.{World, Outside, give, port}
use dian_service.Application.World.Logic.{Ends, EndsIn, Ends-port, Ends-after}
use dian_service.Application.Processing.{ProcessorConfig, transition}
use dian_service.Application.Processing.Transmission.{transmit}
use dian_service.Application.Processing.Polling.{process, poll}
use dian_service.Application.Processing.Endings.{Finishes, poll-Ends, transmit-EndsIn}

abbrev Anyone : ℕ → Type 0
Anyone id = Unit {0}

module _ {V : Type 0} (J : Json V) (O : Outside V) (c : ProcessorConfig) (job : Job V) where
  complete-Settled : Ends (Settled job.id) (port O (λ _. complete job.id))
  unfolding complete
  complete-Settled =
      Ends-port (Settled job.id) O _ (λ n s a. change_job-Settled job.id _ s a (λ j e. cc))

  bury-Settled : (m : Message) → Ends (Settled job.id) (port O (λ _. bury job.id m))
  unfolding bury
  bury-Settled m =
      Ends-port (Settled job.id) O _ (λ n s a. change_job-Settled job.id _ s a (λ j e. cc))

  -- A transition that succeeded has been applied, or it was refused and the job was closed alone.
  pub transition-Ends :
      (G : State V → Type 0) (t : Transition V)
      → ((fresh : ℕ → ℕ) (now : ℕ) (s u : State V) → Applied J fresh now t s u → G u)
      → ((fresh : ℕ → ℕ) (now : ℕ) (s : State V) (w : World V) (b : Unit {0})
          → Refused J fresh now t s w.store
          → EndsIn G w b (port O (λ _. complete job.id)))
      → Ends G (transition J O c job t)
  unfolding transition give
  transition-Ends G t applied refused = Ends-after G O _ _ (λ n s a w b e same.
      after a n s w b same (apply_transition-ok J (O.new_id n) (O.utc n) t s a e))
    where
      after :
          (a : Bool) (n : ℕ) (s : State V) (w : World V) (b : Unit {0})
          → w.store ≡ (apply_transition J (O.new_id n) (O.utc n) t s).1
          → ((a ≡ true)
              × Applied J
                  (O.new_id n)
                  (O.utc n)
                  t
                  s
                  (apply_transition J (O.new_id n) (O.utc n) t s).1)
            ⊎ ((a ≡ false)
                × Refused J
                    (O.new_id n)
                    (O.utc n)
                    t
                    s
                    (apply_transition J (O.new_id n) (O.utc n) t s).1)
          → EndsIn G w b (if a then give (ok tt) else port O (λ _. complete job.id))
      after a n s w b same (inl (e, h)) = rw e (λ _. rw same (applied (O.new_id n) (O.utc n) s _ h))
      after a n s w b same (inr (e, h)) = rw e (refused (O.new_id n) (O.utc n) s w b (rw same h))

  Settled-Finishes : Finishes J O c job Anyone (Settled job.id)
  unfolding retry release
  Settled-Finishes = record {
    retried = λ run_at m.
        Ends-port (Settled job.id) O _ (λ n s a. change_job-Settled job.id _ s a (λ j e. cc));
    released = λ run_at.
        Ends-port (Settled job.id) O _ (λ n s a. change_job-Settled job.id _ s a (λ j e. cc));
    moved = λ t closes allowed mine.
        transition-Ends (Settled job.id) t (λ fresh now s u h. h.settled job.id closes)
          (λ fresh now s w b h. complete-Settled w b);
  }

module _ {V Invoice Payroll Support : Type 0} (J : Json V) (E : Engine V Invoice Payroll Support)
    (O : Outside V) (c : ProcessorConfig) (job : Job V) where
  process-EndsIn :
      (w : World V) (k : JobKind)
      → EndsIn (Settled job.id) w tt (elim k [
        | JobKind.transmit ↦ transmit J E O c job
        | JobKind.poll_status ↦ poll J O c job
      ])
  process-EndsIn w JobKind.transmit =
      transmit-EndsIn J E O c job Anyone (Settled job.id) (Settled-Finishes J O c job) w tt
        (λ v m _ _. bury-Settled J O c job m v tt) (λ v d _ _ _. complete-Settled J O c job v tt)
        (λ d _. tt)
  process-EndsIn w JobKind.poll_status =
      poll-Ends J O c job Anyone (Settled job.id) (Settled-Finishes J O c job)
        (bury-Settled J O c job) (complete-Settled J O c job) (λ d. tt) w tt

  -- A job whose processing returns `Ok` is in the queue again, done or dead, never left running: on
  -- every branch, whatever the outside answers and whatever the other tasks do meanwhile.
  pub process-Settled :
      (w : World V)
      → (process J E O c job w).0 ≡ ok tt
      → Settled job.id (process J E O c job w).1.store
  unfolding process
  process-Settled w = process-EndsIn w job.kind
