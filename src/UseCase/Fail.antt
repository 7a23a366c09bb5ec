-- ===== src/UseCase/Fail.antt =====
-- src/application/fail-processing-request.use-case.ts.
use processing_catalog.Prelude.{
  ℕ, String, Bool, true, false, ◌&&◌, Option, none, some, if◌then◌else◌,
}
use processing_catalog.Text.{◌<>◌}
use processing_catalog.Value.{Value, string, Fields, field}
use processing_catalog.Outcome.{domain_error}
use processing_catalog.Action.{Action, return, throw, lift, ◌>>=◌, ◌>>◌}
use processing_catalog.Repository.{Repository, TransactionContext, UnitOfWork, run_in_transaction}
use processing_catalog.Domain.Request.{
  ProcessingRequest, FailureCode, failure_reason_for, status_text,
}
use processing_catalog.Domain.Transitions.{
  request_of, is_stale_attempt, known_failure_code, fail_processing_request,
  reject_processing_request,
}
use processing_catalog.UseCase.Routes.{terminal_event, optional, correlation, require}

pub data FailureOrigin : Type 0 where
  validation processing : FailureOrigin

-- The failure code is what the message carries: a cast gives it its type, and no check.
pub record FailInput : Type 0 where
  pub event_id : String
  pub origin : FailureOrigin
  pub attempt_id : Option String
  pub processing_request_id : String
  pub failure_code : Value
  pub occurred_at : String

abbrev pub is_processing : FailureOrigin → Bool
is_processing validation = false
is_processing processing = true

abbrev pub failed_payload : String → String → FailureCode → ProcessingRequest → Fields
failed_payload event_uuid occurred_at code updated = field "eventId" (string event_uuid) (
    field "processingRequestId" (string updated.processing_request_id) (
      field "ownerUserId" (string updated.owner_user_id) (
        field "ownerEmail" (string updated.owner_email) (
          field "status" (string (status_text updated.status)) (
            field "failureReason" (string (failure_reason_for code)) (
              field "attemptId" (optional updated.attempt_id)
                (field "occurredAt" (string occurred_at) (correlation updated.correlation_id))))))))

module _ {S : Type 0} (repository : Repository S) (unit_of_work : UnitOfWork S)
    (event_uuid : String) (now : ℕ) (input : FailInput) where
  unfoldable pub record_seen : TransactionContext S → ProcessingRequest → Action S ProcessingRequest
  record_seen ctx request = do
    ctx.requests.mark_event_processed input.event_id (some request.processing_request_id)
    return request

  -- `code` is the input's failure code, past the check at the start of `execute`
  unfoldable pub apply_to :
      FailureCode → TransactionContext S → ProcessingRequest → Action S ProcessingRequest
  apply_to code ctx request = do
    out ← lift (
        if is_processing input.origin
        then fail_processing_request now request input.failure_code
        else reject_processing_request now request input.failure_code)
    let updated = request_of out
    ctx.requests.update updated
    ctx.outbox.add terminal_event.queue terminal_event.pattern
        (failed_payload event_uuid input.occurred_at code updated)
    ctx.requests.mark_event_processed input.event_id (some updated.processing_request_id)
    return updated

  unfoldable pub on_found :
      FailureCode → TransactionContext S → Option ProcessingRequest → Action S ProcessingRequest
  on_found code ctx none =
      throw (domain_error ("Processing request " <> input.processing_request_id <> " not found"))
  on_found code ctx (some request) = do
    again ← ctx.requests.has_event_been_processed input.event_id
    if again
        then return request
        else if is_processing input.origin && is_stale_attempt request input.attempt_id
        then record_seen ctx request
        else apply_to code ctx request

  unfoldable pub in_transaction :
      FailureCode → Option ProcessingRequest → Action S ProcessingRequest
  in_transaction code (some existing) = return existing
  in_transaction code none = run_in_transaction unit_of_work λ ctx. do
    found ← ctx.requests.find_for_update input.processing_request_id
    on_found code ctx found

  unfoldable pub execute : Action S ProcessingRequest
  unfolding record_seen apply_to on_found in_transaction
  execute = do
    require input.event_id "eventId is required"
    require input.processing_request_id "processingRequestId is required"
    code ← lift (known_failure_code input.failure_code)
    seen ← repository.has_event_been_processed input.event_id
    existing ← if seen then repository.find_by_event_id input.event_id else return none
    in_transaction code existing
