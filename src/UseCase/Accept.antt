-- ===== src/UseCase/Accept.antt =====
-- src/application/accept-processing-request.use-case.ts.
use processing_catalog.Prelude.{ℕ, String, Option, none, some, if◌then◌else◌}
use processing_catalog.Text.{◌<>◌}
use processing_catalog.Value.{string, Fields, field}
use processing_catalog.Outcome.{domain_error}
use processing_catalog.Action.{Action, return, throw, lift, ◌>>=◌, ◌>>◌}
use processing_catalog.Repository.{Repository, TransactionContext, UnitOfWork, run_in_transaction}
use processing_catalog.Domain.Request.{ProcessingRequest}
use processing_catalog.Domain.Transitions.{request_of, accept_processing_request}
use processing_catalog.UseCase.Routes.{processing_queued, optional, correlation, require}

pub record AcceptInput : Type 0 where
  pub event_id : String
  pub processing_request_id : String
  pub occurred_at : String

abbrev pub queued_payload : String → String → ProcessingRequest → Fields
queued_payload event_uuid occurred_at updated = field "eventId" (string event_uuid) (
    field "processingRequestId" (string updated.processing_request_id) (
      field "ownerUserId" (string updated.owner_user_id) (
        field "sourceStorageKey" (string updated.source_storage_key) (
          field "attemptId" (optional updated.attempt_id)
            (field "occurredAt" (string occurred_at) (correlation updated.correlation_id))))))

-- `attempt_uuid` and `event_uuid` are the two answers of randomUUID(), in the order of the calls.
module _ {S : Type 0} (repository : Repository S) (unit_of_work : UnitOfWork S)
    (attempt_uuid : String) (event_uuid : String) (now : ℕ) (input : AcceptInput) where
  unfoldable pub apply_to : TransactionContext S → ProcessingRequest → Action S ProcessingRequest
  apply_to ctx request = do
    out ← lift (accept_processing_request attempt_uuid now request)
    let updated = request_of out
    ctx.requests.update updated
    ctx.outbox.add processing_queued.queue processing_queued.pattern
        (queued_payload event_uuid input.occurred_at updated)
    ctx.requests.mark_event_processed input.event_id (some updated.processing_request_id)
    return updated

  unfoldable pub on_found :
      TransactionContext S → Option ProcessingRequest → Action S ProcessingRequest
  on_found ctx none =
      throw (domain_error ("Processing request " <> input.processing_request_id <> " not found"))
  on_found ctx (some request) = do
    again ← ctx.requests.has_event_been_processed input.event_id
    if again then return request else apply_to ctx request

  unfoldable pub in_transaction : Option ProcessingRequest → Action S ProcessingRequest
  in_transaction (some existing) = return existing
  in_transaction none =
      run_in_transaction unit_of_work λ ctx. do
        found ← ctx.requests.find_for_update input.processing_request_id
        on_found ctx found

  unfoldable pub execute : Action S ProcessingRequest
  unfolding apply_to on_found in_transaction
  execute = do
    require input.event_id "eventId is required"
    require input.processing_request_id "processingRequestId is required"
    seen ← repository.has_event_been_processed input.event_id
    existing ← if seen then repository.find_by_event_id input.event_id else return none
    in_transaction existing
