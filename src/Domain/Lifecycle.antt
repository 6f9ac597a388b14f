-- ===== src/Domain/Lifecycle.antt =====
-- core-domain/src/lifecycle.rs.
pub mod Graph
use dian_service.Base.{Bool, true, false, List, [], ◌∷◌, ◌==◌, any}
use dian_service.Domain.Enums.{
  DocumentStatus, draft, pending, sent_dian, dian_accepted, dian_rejected, contingency_pending,
  contingency_sent, processing_failed, document_status_eq,
}

unfoldable pub allowed_predecessors : DocumentStatus → List DocumentStatus
allowed_predecessors pending = contingency_pending ∷ []
allowed_predecessors sent_dian = pending ∷ contingency_pending ∷ []
allowed_predecessors dian_accepted = pending ∷ sent_dian ∷ contingency_pending ∷ []
allowed_predecessors dian_rejected = pending ∷ sent_dian ∷ contingency_pending ∷ []
allowed_predecessors contingency_pending = pending ∷ []
allowed_predecessors processing_failed = pending ∷ contingency_pending ∷ []
allowed_predecessors draft = []
allowed_predecessors contingency_sent = []

unfoldable pub can_transition_to : DocumentStatus → DocumentStatus → Bool
unfolding allowed_predecessors
can_transition_to s next = any (λ p. p == s) (allowed_predecessors next)

unfoldable pub is_terminal : DocumentStatus → Bool
is_terminal dian_accepted = true
is_terminal dian_rejected = true
is_terminal processing_failed = true
is_terminal _ = false
