-- ===== src/UseCase/Start.antt =====
-- src/application/start-processing-request.use-case.ts.
use processing_catalog.Prelude.{ℕ, String, not, Option, none, some, if◌then◌else◌}
use processing_catalog.Text.{◌<>◌}
use processing_catalog.Outcome.{domain_error}
use processing_catalog.Action.{Action, return, throw, lift, ◌>>=◌, ◌>>◌}
use processing_catalog.Repository.{Repository, TransactionContext, UnitOfWork, run_in_transaction}
use processing_catalog.Domain.Request.{ProcessingRequest}
use processing_catalog.Domain.Transitions.{
  request_of, is_unchanged, is_stale_attempt, start_processing_request,
}
use processing_catalog.UseCase.Routes.{require}

pub record StartInput : Type 0 where
  pub event_id : String
  pub processing_request_id : String
  pub attempt_id : String
  pub occurred_at : String

module _ {S : Type 0} (repository : Repository S) (unit_of_work : UnitOfWork S) (now : ℕ)
    (input : StartInput) where
  unfoldable pub apply_to : TransactionContext S → ProcessingRequest → Action S ProcessingRequest
  apply_to ctx request = do
    out ← lift (start_processing_request now request)
    let updated = request_of out
    if not (is_unchanged out) then ctx.requests.update updated else return tt
    ctx.requests.mark_event_processed input.event_id (some updated.processing_request_id)
    return updated

  unfoldable pub ignore_stale :
      TransactionContext S → ProcessingRequest → Action S ProcessingRequest
  ignore_stale ctx request = do
    ctx.requests.mark_event_processed input.event_id (some request.processing_request_id)
    return request

  unfoldable pub on_found :
      TransactionContext S → Option ProcessingRequest → Action S ProcessingRequest
  on_found ctx none =
      throw (domain_error ("Processing request " <> input.processing_request_id <> " not found"))
  on_found ctx (some request) = do
    again ← ctx.requests.has_event_been_processed input.event_id
    if again
        then return request
        else if is_stale_attempt request (some input.attempt_id)
        then ignore_stale ctx request
        else apply_to ctx request

  unfoldable pub in_transaction : Option ProcessingRequest → Action S ProcessingRequest
  in_transaction (some existing) = return existing
  in_transaction none =
      run_in_transaction unit_of_work λ ctx. do
        found ← ctx.requests.find_for_update input.processing_request_id
        on_found ctx found

  unfoldable pub execute : Action S ProcessingRequest
  unfolding apply_to ignore_stale on_found in_transaction
  execute = do
    require input.event_id "eventId is required"
    require input.processing_request_id "processingRequestId is required"
    seen ← repository.has_event_been_processed input.event_id
    existing ← if seen then repository.find_by_event_id input.event_id else return none
    in_transaction existing
