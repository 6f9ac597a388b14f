-- ===== src/Application/Processing/Safety.antt =====
-- Processing keeps the documents on the diagram of their life.
use dian_service.Base.{ℕ}
use dian_service.Domain.Json.{Json}
use dian_service.Domain.Models.{Job}
use dian_service.Store.State.{State}
use dian_service.Store.Frame.{change_job-SameDocuments}
use dian_service.Store.Documents.{record_event}
use dian_service.Store.Evolution.{Evolves, Evolves-refl, Evolves-trans, Evolves-of_eq}
use dian_service.Store.Operations.{apply_transition-Evolves, store_artifacts-Evolves}
use dian_service.Application.Engine.{Engine}
use dian_service.Application.World.{World, Outside}
use dian_service.Application.Processing.{ProcessorConfig}
use dian_service.Application.Processing.Polling.{process}
use dian_service.Application.Processing.Frames.{Allows, process-Respects}

module _ {V : Type 0} where
  abbrev pub Evolution : State V → State V → Type 0
  Evolution s t = Evolves s.documents t.documents

  Evolution-Allows :
      (J : Json V) (O : Outside V) (id : ℕ)
      → ((n : ℕ) (s : State V) → Evolution s (O.others n s))
      → Allows J O id Evolution
  unfolding record_event
  Evolution-Allows J O id others = record {
    frame = record { same = λ s. Evolves-refl s.documents; compose = Evolves-trans };
    others = others;
    moves = apply_transition-Evolves J;
    signs = store_artifacts-Evolves;
    logs = λ e s. Evolves-refl s.documents;
    changes = λ f s. Evolves-of_eq (change_job-SameDocuments id f s).documents;
  }

-- While a job is processed, whatever the signer and the DIAN answer and wherever it fails, each
-- document keeps its identity and moves along edges of the diagram only, if the other tasks keep to
-- the diagram as well.
pub process-Evolves :
    {V Invoice Payroll Support : Type 0} (J : Json V) (E : Engine V Invoice Payroll Support)
    (O : Outside V) (c : ProcessorConfig) (job : Job V) (w : World V)
    → ((n : ℕ) (s : State V) → Evolution s (O.others n s))
    → Evolution w.store (process J E O c job w).1.store
process-Evolves J E O c job w others =
    process-Respects J E O c job Evolution (Evolution-Allows J O job.id others) w
