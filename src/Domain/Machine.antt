-- ===== src/Domain/Machine.antt =====
-- The lifecycle as one machine: the five functions of src/domain/processing-request.ts as commands,
-- the diagram of README.md as a relation on statuses, and what every history of commands does.
use processing_catalog.Prelude.{ℕ, String, ◌≡◌, arith}
use processing_catalog.Value.{Value}
use processing_catalog.Outcome.{Result, ok}
use processing_catalog.Domain.Request.{
  received, queued, processing, completed, failed, Status, ProcessingRequest,
}
use processing_catalog.Domain.Transitions.{
  Returned, same_object, new_object, request_of, accept_processing_request,
  complete_processing_request, start_processing_request, fail_processing_request,
  reject_processing_request,
}
use processing_catalog.Domain.Invariant.{
  IsWellFormed, accept-IsWellFormed, complete-IsWellFormed, start-IsWellFormed, fail-IsWellFormed,
  reject-IsWellFormed,
}

-- What the consumed events ask of a request.
pub data Command : Type 0 where
  accept : String → Command
  start : Command
  complete : String → Command
  fail reject : Value → Command

unfoldable pub perform : ℕ → Command → ProcessingRequest → Result Returned
perform now (accept uuid) r = accept_processing_request uuid now r
perform now start r = start_processing_request now r
perform now (complete key) r = complete_processing_request now r key
perform now (fail code) r = fail_processing_request now r code
perform now (reject code) r = reject_processing_request now r code

-- The arrows of the diagram.
infix 40 ◌⟶◌
pub data ◌⟶◌ : Status → Status → Type 0 where
  on_accepted : received ⟶ queued
  on_rejected : received ⟶ failed
  on_started : queued ⟶ processing
  on_completed : queued ⟶ completed
  on_completed_started : processing ⟶ completed
  on_failed : queued ⟶ failed
  on_failed_started : processing ⟶ failed

ruleset arrows = (
  on_accepted, on_rejected, on_started, on_completed, on_completed_started, on_failed,
  on_failed_started,
)

-- A command that changes a request moves it along an arrow of the diagram.
pub perform-⟶ :
    (now : ℕ) (c : Command) (r r' : ProcessingRequest)
    → perform now c r ≡ ok (new_object r')
    → r.status ⟶ r'.status
unfolding perform accept_processing_request start_processing_request complete_processing_request
    fail_processing_request reject_processing_request
perform-⟶ now (accept uuid) r r' h = grind (arith, arrows)
perform-⟶ now start r r' h = grind (arith, arrows)
perform-⟶ now (complete key) r r' h = grind (arith, arrows)
perform-⟶ now (fail code) r r' h = grind (arith, arrows)
perform-⟶ now (reject code) r r' h = grind (arith, arrows)

pub perform_same_object :
    (now : ℕ) (c : Command) (r r' : ProcessingRequest)
    → perform now c r ≡ ok (same_object r')
    → r' ≡ r
unfolding perform accept_processing_request start_processing_request complete_processing_request
    fail_processing_request reject_processing_request
perform_same_object now (accept uuid) r r' h = ground arith
perform_same_object now start r r' h = ground arith
perform_same_object now (complete key) r r' h = ground arith
perform_same_object now (fail code) r r' h = ground arith
perform_same_object now (reject code) r r' h = ground arith

pub perform-IsWellFormed :
    (now : ℕ) (c : Command) (r : ProcessingRequest) (out : Returned)
    → perform now c r ≡ ok out
    → IsWellFormed r
    → IsWellFormed (request_of out)
unfolding perform
perform-IsWellFormed now (accept uuid) r out h w = accept-IsWellFormed uuid now r out h w
perform-IsWellFormed now start r out h w = start-IsWellFormed now r out h w
perform-IsWellFormed now (complete key) r out h w = complete-IsWellFormed now r key out h w
perform-IsWellFormed now (fail code) r out h w = fail-IsWellFormed now r code out h w
perform-IsWellFormed now (reject code) r out h w = reject-IsWellFormed now r code out h w
