-- ===== src/Domain/Lifecycle/Graph.antt =====
-- The diagram of a document's life, and that the code's table is that diagram.
use dian_service.Base.{◌≡◌, refl, ◌↔◌, true, arith}
use dian_service.Domain.Enums.{
  DocumentStatus, pending, sent_dian, dian_accepted, dian_rejected, contingency_pending,
  processing_failed,
}
use dian_service.Domain.Lifecycle.{can_transition_to, is_terminal}

-- Who may be transmitted: the documents that wait, or that contingency holds back.
pub data Unsent : DocumentStatus → Type 0 where
  waiting : Unsent pending
  held : Unsent contingency_pending

infix 40 ◌⟶◌ ◌⟶*◌
pub data ◌⟶◌ : DocumentStatus → DocumentStatus → Type 0 where
  requeue : contingency_pending ⟶ pending
  hold : pending ⟶ contingency_pending
  send : {s : DocumentStatus} → Unsent s → s ⟶ sent_dian
  give_up : {s : DocumentStatus} → Unsent s → s ⟶ processing_failed
  accept_unsent : {s : DocumentStatus} → Unsent s → s ⟶ dian_accepted
  reject_unsent : {s : DocumentStatus} → Unsent s → s ⟶ dian_rejected
  accept : sent_dian ⟶ dian_accepted
  reject : sent_dian ⟶ dian_rejected

pub data ◌⟶*◌ (s : DocumentStatus) : DocumentStatus → Type 0 where
  here : s ⟶* s
  next : {t u : DocumentStatus} → s ⟶* t → t ⟶ u → s ⟶* u

ruleset edges =
    (waiting, held, requeue, hold, send, give_up, accept_unsent, reject_unsent, accept, reject)

⟶-allowed : {s t : DocumentStatus} → s ⟶ t → can_transition_to s t ≡ true
unfolding can_transition_to
⟶-allowed requeue = refl
⟶-allowed hold = refl
⟶-allowed (send waiting) = refl
⟶-allowed (send held) = refl
⟶-allowed (give_up waiting) = refl
⟶-allowed (give_up held) = refl
⟶-allowed (accept_unsent waiting) = refl
⟶-allowed (accept_unsent held) = refl
⟶-allowed (reject_unsent waiting) = refl
⟶-allowed (reject_unsent held) = refl
⟶-allowed accept = refl
⟶-allowed reject = refl

allowed-⟶ : (s t : DocumentStatus) → can_transition_to s t ≡ true → s ⟶ t
unfolding can_transition_to
allowed-⟶ s t h = grind (arith, edges)

-- The table of allowed predecessors allows exactly the edges of the diagram.
pub can_transition_to_iff : (s t : DocumentStatus) → (can_transition_to s t ≡ true) ↔ (s ⟶ t)
can_transition_to_iff s t = (allowed-⟶ s t, ⟶-allowed)

-- A final state has no edge out of it.
pub terminal_stuck : {s t : DocumentStatus} → is_terminal s ≡ true → s ⟶ t → ⊥
unfolding is_terminal
terminal_stuck h requeue = cc
terminal_stuck h hold = cc
terminal_stuck h (send waiting) = cc
terminal_stuck h (send held) = cc
terminal_stuck h (give_up waiting) = cc
terminal_stuck h (give_up held) = cc
terminal_stuck h (accept_unsent waiting) = cc
terminal_stuck h (accept_unsent held) = cc
terminal_stuck h (reject_unsent waiting) = cc
terminal_stuck h (reject_unsent held) = cc
terminal_stuck h accept = cc
terminal_stuck h reject = cc

pub ⟶*-trans : {s t u : DocumentStatus} → s ⟶* t → t ⟶* u → s ⟶* u
⟶*-trans p here = p
⟶*-trans p (next q e) = next (⟶*-trans p q) e
