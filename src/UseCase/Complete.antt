-- ===== src/UseCase/Complete.antt =====
-- src/application/complete-processing-request.use-case.ts.
use processing_catalog.Prelude.{ℕ, String, Option, none, some, if◌then◌else◌}
use processing_catalog.Text.{◌<>◌}
use processing_catalog.Value.{string, Fields, field}
use processing_catalog.Outcome.{domain_error}
use processing_catalog.Action.{Action, return, throw, lift, ◌>>=◌, ◌>>◌}
use processing_catalog.Repository.{Repository, TransactionContext, UnitOfWork, run_in_transaction}
use processing_catalog.Domain.Request.{ProcessingRequest, status_text}
use processing_catalog.Domain.Transitions.{
  request_of, is_unchanged, is_stale_attempt, complete_processing_request,
}
use processing_catalog.UseCase.Routes.{terminal_event, optional, correlation, require}

pub record CompleteInput : Type 0 where
  pub event_id : String
  pub processing_request_id : String
  pub attempt_id : String
  pub zip_storage_key : String
  pub occurred_at : String

abbrev pub completed_payload : String → String → ProcessingRequest → Fields
completed_payload event_uuid occurred_at updated = field "eventId" (string event_uuid) (
    field "processingRequestId" (string updated.processing_request_id) (
      field "ownerUserId" (string updated.owner_user_id) (
        field "ownerEmail" (string updated.owner_email) (
          field "status" (string (status_text updated.status)) (
            field "zipStorageKey" (optional updated.zip_storage_key) (
              field "attemptId" (optional updated.attempt_id)
                (field "occurredAt" (string occurred_at) (correlation updated.correlation_id))))))))

module _ {S : Type 0} (repository : Repository S) (unit_of_work : UnitOfWork S)
    (event_uuid : String) (now : ℕ) (input : CompleteInput) where
  unfoldable pub record_seen : TransactionContext S → ProcessingRequest → Action S ProcessingRequest
  record_seen ctx request = do
    ctx.requests.mark_event_processed input.event_id (some request.processing_request_id)
    return request

  unfoldable pub write : TransactionContext S → ProcessingRequest → Action S ProcessingRequest
  write ctx updated = do
    ctx.requests.update updated
    ctx.outbox.add terminal_event.queue terminal_event.pattern
        (completed_payload event_uuid input.occurred_at updated)
    ctx.requests.mark_event_processed input.event_id (some updated.processing_request_id)
    return updated

  unfoldable pub apply_to : TransactionContext S → ProcessingRequest → Action S ProcessingRequest
  apply_to ctx request = do
    out ← lift (complete_processing_request now request input.zip_storage_key)
    let updated = request_of out
    if is_unchanged out then record_seen ctx updated else write ctx updated

  unfoldable pub on_found :
      TransactionContext S → Option ProcessingRequest → Action S ProcessingRequest
  on_found ctx none =
      throw (domain_error ("Processing request " <> input.processing_request_id <> " not found"))
  on_found ctx (some request) = do
    again ← ctx.requests.has_event_been_processed input.event_id
    if again
        then return request
        else if is_stale_attempt request (some input.attempt_id)
        then record_seen ctx request
        else apply_to ctx request

  unfoldable pub in_transaction : Option ProcessingRequest → Action S ProcessingRequest
  in_transaction (some existing) = return existing
  in_transaction none =
      run_in_transaction unit_of_work λ ctx. do
        found ← ctx.requests.find_for_update input.processing_request_id
        on_found ctx found

  unfoldable pub execute : Action S ProcessingRequest
  unfolding record_seen write apply_to on_found in_transaction
  execute = do
    require input.event_id "eventId is required"
    require input.processing_request_id "processingRequestId is required"
    require input.zip_storage_key "zipStorageKey is required"
    seen ← repository.has_event_been_processed input.event_id
    existing ← if seen then repository.find_by_event_id input.event_id else return none
    in_transaction existing
