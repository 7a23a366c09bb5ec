-- ===== src/Persistence/TypeOrm.antt =====
-- src/infrastructure/persistence/typeorm-processing-request.repository.ts and
-- src/infrastructure/persistence/typeorm-unit-of-work.ts, over any entity manager.
use mathlib.Core.Option.{map as map_option, Option}
use processing_catalog.Prelude.{
  map, if◌then◌else◌, some, none, ◌==◌, String, Option, ℕ, Bool, false, true, ltb, List, ◌∷◌, [],
}
use processing_catalog.Domain.Request.{ProcessingRequest}
use processing_catalog.Persistence.Manager.{
  ProcessingRequestEntity, EntityManager, Where, anything, created_at, descending,
  processing_request_id, ascending, ProcessedEventEntity,
}
use processing_catalog.Outcome.{
  Error, query_failed, Result, duplicate_idempotency_key, ok, duplicate_source, err,
}
use processing_catalog.Domain.Transitions.{same_text}
use processing_catalog.Repository.{UnitOfWork, Repository}
use processing_catalog.Value.{Fields}
use processing_catalog.Memory.Store.{text_or_empty}
use processing_catalog.Action.{return, ◌>>=◌, Action}

-- The violated constraint of a failed insert, if it is a unique violation.
unfoldable pub violated_unique_index : Error → Option String
violated_unique_index (query_failed code constraint) =
    if same_text code (some "23505") then constraint else none
violated_unique_index _ = none

unfoldable pub to_domain : ProcessingRequestEntity → ProcessingRequest
to_domain row = record {
  processing_request_id = row.processing_request_id;
  owner_user_id = row.owner_user_id;
  owner_email = row.owner_email;
  source_storage_key = row.source_storage_key;
  status = row.status;
  attempt_id = row.attempt_id;
  zip_storage_key = row.zip_storage_key;
  failure_code = row.failure_code;
  idempotency_key = row.idempotency_key;
  correlation_id = row.correlation_id;
  created_at = row.created_at;
  updated_at = row.updated_at;
}

unfoldable pub to_row : ProcessingRequest → ProcessingRequestEntity
to_row request = record {
  processing_request_id = request.processing_request_id;
  owner_user_id = request.owner_user_id;
  owner_email = request.owner_email;
  source_storage_key = request.source_storage_key;
  status = request.status;
  attempt_id = request.attempt_id;
  zip_storage_key = request.zip_storage_key;
  failure_code = request.failure_code;
  idempotency_key = request.idempotency_key;
  correlation_id = request.correlation_id;
  created_at = request.created_at;
  updated_at = request.updated_at;
}

-- the `catch` of `save`, where the key that violates the index is there
unfoldable pub save_error : ProcessingRequest → Error → Error
save_error request error =
    if same_text (violated_unique_index error) (some "uq_processing_request_owner_idempotency")
    then duplicate_idempotency_key request.owner_user_id (text_or_empty request.idempotency_key)
    else if same_text (violated_unique_index error) (some "uq_processing_request_owner_source")
    then duplicate_source request.owner_user_id request.source_storage_key
    else error

saved : ProcessingRequest → Result (Unit {0}) → Result (Unit {0})
saved request (ok u) = ok tt
saved request (err error) = err (save_error request error)

-- event?.processingRequestId
abbrev pub request_id_of : Option ProcessedEventEntity → Option String
request_id_of none = none
request_id_of (some event) = event.processing_request_id

abbrev by_id : String → Where
by_id id = record anything { processing_request_id = some id }

abbrev by_owner : String → Where
by_owner owner = record anything { owner_user_id = some owner }

-- `now` is the answer of new Date()
module _ {S : Type 0} (manager : EntityManager S) (now : ℕ) where
  unfoldable pub save : ProcessingRequest → Action S (Unit {0})
  unfolding saved
  save request s = (
    saved request (manager.insert_request (to_row request) s).0,
    (manager.insert_request (to_row request) s).1,
  )

  unfoldable pub update : ProcessingRequest → Action S (Unit {0})
  update request = manager.save_request (to_row request)

  find_one : Where → Bool → Action S (Option ProcessingRequest)
  find_one query lock = do
    row ← manager.find_one_request query lock
    return (map_option to_domain row)

  unfoldable pub find_by_processing_request_id : String → Action S (Option ProcessingRequest)
  unfolding find_one
  find_by_processing_request_id id = find_one (by_id id) false

  unfoldable pub find_for_update : String → Action S (Option ProcessingRequest)
  unfolding find_one
  find_for_update id = find_one (by_id id) true

  -- `!event?.processingRequestId` holds of a missing row, of null and of the empty text
  unfoldable pub request_of_event : Option String → Action S (Option ProcessingRequest)
  request_of_event none = return none
  request_of_event (some id) = if id == "" then return none else find_by_processing_request_id id

  unfoldable pub find_by_event_id : String → Action S (Option ProcessingRequest)
  unfolding request_of_event
  find_by_event_id event_id = do
    event ← manager.find_one_event event_id
    request_of_event (request_id_of event)

  unfoldable pub mark_event_processed : String → Option String → Action S (Unit {0})
  mark_event_processed event_id id =
      manager.insert_event
        (record { event_id = event_id; processing_request_id = id; processed_at = now })

  unfoldable pub has_event_been_processed : String → Action S Bool
  has_event_been_processed event_id = do count ← manager.count_events event_id; return (ltb 0 count)

  unfoldable pub find_page_by_owner : String → ℕ → ℕ → Action S (List ProcessingRequest)
  find_page_by_owner owner offset limit = do
    rows ←
        manager.find_requests (by_owner owner)
          ((created_at, descending) ∷ (processing_request_id, ascending) ∷ []) offset limit
    return (map to_domain rows)

  unfoldable pub count_by_owner : String → Action S ℕ
  count_by_owner owner = manager.count_requests (by_owner owner)

  unfoldable pub find_by_id_and_owner : String → String → Action S (Option ProcessingRequest)
  unfolding find_one
  find_by_id_and_owner id owner =
      find_one (record anything { processing_request_id = some id; owner_user_id = some owner })
        false

  unfoldable pub find_by_owner_and_idempotency_key :
      String → String → Action S (Option ProcessingRequest)
  unfolding find_one
  find_by_owner_and_idempotency_key owner key =
      find_one (record anything { owner_user_id = some owner; idempotency_key = some key }) false

  unfoldable pub find_by_owner_and_source : String → String → Action S (Option ProcessingRequest)
  unfolding find_one
  find_by_owner_and_source owner source =
      find_one (record anything { owner_user_id = some owner; source_storage_key = some source })
        false

  abbrev pub typeorm_repository : Repository S
  typeorm_repository = record {
    save = save;
    update = update;
    find_by_processing_request_id = find_by_processing_request_id;
    find_for_update = find_for_update;
    find_by_event_id = find_by_event_id;
    mark_event_processed = mark_event_processed;
    has_event_been_processed = has_event_been_processed;
    find_page_by_owner = find_page_by_owner;
    count_by_owner = count_by_owner;
    find_by_id_and_owner = find_by_id_and_owner;
    find_by_owner_and_idempotency_key = find_by_owner_and_idempotency_key;
    find_by_owner_and_source = find_by_owner_and_source;
  }

  unfoldable pub add : String → String → Fields → Action S (Unit {0})
  add queue pattern payload = manager.insert_outbox queue pattern payload

  -- dataSource.transaction commits if the callback resolves, and rolls back if it throws.
  abbrev pub typeorm_unit_of_work : (S → S) → UnitOfWork S
  typeorm_unit_of_work meanwhile = record {
    context = record { requests = typeorm_repository; outbox = record { add = add } };
    meanwhile = meanwhile;
    on_throw = λ start s. start;
  }
