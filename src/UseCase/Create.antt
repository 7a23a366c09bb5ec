-- ===== src/UseCase/Create.antt =====
-- src/application/create-processing-request.use-case.ts.
pub mod Outcomes
use processing_catalog.Prelude.{ℕ, String, Option, none, some, not, ◌==◌, if◌then◌else◌}
use processing_catalog.IsoDate.{to_iso_string}
use processing_catalog.Value.{Value, undefined, string, Fields, field}
use processing_catalog.Outcome.{
  Error, Result, ok, err, domain_error, duplicate_source, duplicate_idempotency_key,
  idempotency_conflict,
}
use processing_catalog.Action.{Action, return, throw, lift, ◌>>=◌, ◌>>◌}
use processing_catalog.Repository.{Repository, TransactionContext, UnitOfWork, run_in_transaction}
use processing_catalog.Domain.Request.{ProcessingRequest, create_processing_request}
use processing_catalog.Correlation.{parse_correlation_id}
use processing_catalog.UseCase.Routes.{video_validation_requested, correlation, require}

-- The correlation id is what the body of the call holds, of whatever type.
pub record CreateInput : Type 0 where
  pub event_id : String
  pub owner_user_id : String
  pub owner_email : String
  pub source_storage_key : String
  pub idempotency_key : String
  pub correlation_id : Value

pub data CreateOutcome : Type 0 where
  created replayed : CreateOutcome

pub record CreateResult : Type 0 where
  pub request : ProcessingRequest
  pub outcome : CreateOutcome

unfoldable pub or_refuse : Option String → Result (Option String)
or_refuse none = err (domain_error "correlationId must be 1 to 128 printable ASCII characters")
or_refuse (some id) = ok (some id)

unfoldable pub valid_correlation_id : Value → Result (Option String)
unfolding or_refuse
valid_correlation_id undefined = ok none
valid_correlation_id raw = or_refuse (parse_correlation_id raw)

abbrev pub validation_payload : String → ProcessingRequest → Fields
validation_payload event_id request = field "eventId" (string event_id) (
    field "processingRequestId" (string request.processing_request_id) (
      field "ownerUserId" (string request.owner_user_id) (
        field "sourceStorageKey" (string request.source_storage_key) (
          field "occurredAt" (string (to_iso_string request.created_at))
            (correlation request.correlation_id)))))

-- `uuid` is the answer of randomUUID(), `now` that of new Date().
module _ {S : Type 0} (repository : Repository S) (unit_of_work : UnitOfWork S) (uuid : String)
    (now : ℕ) (input : CreateInput) where
  unfoldable pub replay : ProcessingRequest → Action S CreateResult
  replay bound =
      if not (bound.source_storage_key == input.source_storage_key)
      then throw idempotency_conflict
      else return (record { request = bound; outcome = replayed })

  -- the callback of the transaction
  unfoldable pub write : ProcessingRequest → TransactionContext S → Action S CreateResult
  write request ctx = do
    ctx.requests.save request
    ctx.outbox.add video_validation_requested.queue video_validation_requested.pattern
        (validation_payload input.event_id request)
    ctx.requests.mark_event_processed input.event_id (some request.processing_request_id)
    return (record { request = request; outcome = created })

  unfoldable pub answer_source : Error → Option ProcessingRequest → Action S CreateResult
  answer_source error none = throw error
  answer_source error (some winner) = return (record { request = winner; outcome = replayed })

  unfoldable pub answer_key : Error → Option ProcessingRequest → Action S CreateResult
  answer_key error none = throw error
  answer_key error (some winner) = replay winner

  -- the `catch` around the transaction
  unfoldable pub recover : Error → Action S CreateResult
  recover (duplicate_source owner source) = do
    winner ← repository.find_by_owner_and_source input.owner_user_id input.source_storage_key
    answer_source (duplicate_source owner source) winner
  recover (duplicate_idempotency_key owner key) = do
    winner ← repository.find_by_owner_and_idempotency_key input.owner_user_id input.idempotency_key
    answer_key (duplicate_idempotency_key owner key) winner
  recover error = throw error

  unfoldable pub attempt : Result CreateResult × S → Result CreateResult × S
  attempt (ok result, s) = (ok result, s)
  attempt (err error, s) = recover error s

  unfoldable pub on_known : ProcessingRequest → Option ProcessingRequest → Action S CreateResult
  on_known request (some known) = return (record { request = known; outcome = replayed })
  on_known request none = λ s. attempt (run_in_transaction unit_of_work (write request) s)

  unfoldable pub on_bound : ProcessingRequest → Option ProcessingRequest → Action S CreateResult
  on_bound request (some bound) = replay bound
  on_bound request none = do
    known ← repository.find_by_owner_and_source input.owner_user_id input.source_storage_key
    on_known request known

  unfoldable pub on_existing : Option String → Option ProcessingRequest → Action S CreateResult
  on_existing correlation_id (some existing) =
      return (record { request = existing; outcome = replayed })
  on_existing correlation_id none = do
    request ← lift (
        create_processing_request uuid now (record {
          owner_user_id = input.owner_user_id;
          owner_email = input.owner_email;
          source_storage_key = input.source_storage_key;
          idempotency_key = some input.idempotency_key;
          correlation_id = correlation_id;
        }))
    bound ← repository.find_by_owner_and_idempotency_key input.owner_user_id input.idempotency_key
    on_bound request bound

  unfoldable pub execute : Action S CreateResult
  unfolding replay write answer_source answer_key recover attempt on_known on_bound on_existing
  execute = do
    require input.event_id "eventId is required"
    require input.idempotency_key "idempotencyKey is required"
    correlation_id ← lift (valid_correlation_id input.correlation_id)
    existing ← repository.find_by_event_id input.event_id
    on_existing correlation_id existing
