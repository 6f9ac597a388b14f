-- ===== src/Tests/Store.antt =====
-- The theorems of the store at work.
use dian_service.Base.{◌≡◌, refl, ◌∷◌, [], List, some, lookup}
use dian_service.Domain.Enums.{pending, dian_accepted, job_kind_eq}
use dian_service.Domain.Models.{Document}
use dian_service.Domain.Ports.{new_transition}
use dian_service.Store.State.{State}
use dian_service.Domain.Lifecycle.{can_transition_to, is_terminal}
use dian_service.Store.Transitions.{apply_transition}
use dian_service.Store.Evolution.{Evolves}
use dian_service.Store.History.{Call, issue, move, claims, run, HaveNewIds, step}
use dian_service.Store.History.Lifecycle.{run-Evolves, run-terminal}
use dian_service.Store.Documents.{issued_document}
use dian_service.Tests.Samples.{Sample, sample_json, empty, request, first_job, range}
use dian_service.Base.Int.{pos}

-- An invoice is issued, claimed and accepted.
abbrev calls : List (Call Sample)
calls =
    issue 50 (request 21 "a") (first_job 31 21)
    ∷ claims 60 (pos 10) 100
    ∷ move (λ i. i) 70 (new_transition 21 dian_accepted)
    ∷ []

calls-HaveNewIds : HaveNewIds sample_json calls empty
unfolding lookup
calls-HaveNewIds = (refl, (tt, (tt, tt)))

run-Evolves_example : Evolves empty.documents (run sample_json calls empty).documents
run-Evolves_example = run-Evolves sample_json calls empty calls-HaveNewIds tt

abbrev accepted : Document Sample
accepted = record (issued_document 50 (request 21 "a") range (pos 1)) { status = dian_accepted }

abbrev one_accepted : State Sample
one_accepted = record empty { documents = (21, accepted) ∷ [] }

abbrev more_calls : List (Call Sample)
more_calls =
    move (λ i. i) 70 (new_transition 21 pending) ∷ issue 80 (request 22 "b") (first_job 32 22) ∷ []

more_calls-HaveNewIds : HaveNewIds sample_json more_calls one_accepted
unfolding lookup step apply_transition can_transition_to new_transition
more_calls-HaveNewIds = (tt, (refl, tt))

run-terminal_example :
    (e : Document Sample) × (lookup 21 (run sample_json more_calls one_accepted).documents ≡ some e)
    × (e.status ≡ dian_accepted)
unfolding lookup is_terminal
run-terminal_example =
    run-terminal sample_json more_calls one_accepted 21 accepted more_calls-HaveNewIds
      (refl, refl, tt) refl refl
