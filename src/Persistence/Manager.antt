-- ===== src/Persistence/Manager.antt =====
-- What src/infrastructure/persistence asks of TypeORM's EntityManager, which is not in the
-- repository: a record of the calls that the adapters make, over an unknown state. The entities
-- are those of processing-request.entity.ts and processed-event.entity.ts.
use processing_catalog.Action.{Action}
use processing_catalog.Domain.Request.{Status, FailureCode}
use processing_catalog.Value.{Fields}
use processing_catalog.Prelude.{none, String, Option, ℕ, Bool, List}

-- The text columns `status` and `failure_code` hold the text of a status or of a code, as toRow
-- wrote it; the type assertions of toDomain take them for that. A null column is `none`.
pub record ProcessingRequestEntity : Type 0 where
  pub processing_request_id : String
  pub owner_user_id : String
  pub owner_email : String
  pub source_storage_key : String
  pub status : Status
  pub attempt_id : Option String
  pub zip_storage_key : Option String
  pub failure_code : Option FailureCode
  pub idempotency_key : Option String
  pub correlation_id : Option String
  pub created_at : ℕ
  pub updated_at : ℕ

pub record ProcessedEventEntity : Type 0 where
  pub event_id : String
  pub processing_request_id : Option String
  pub processed_at : ℕ

-- `where` of a query: the columns that it fixes
pub record Where : Type 0 where
  pub processing_request_id : Option String
  pub owner_user_id : Option String
  pub idempotency_key : Option String
  pub source_storage_key : Option String

abbrev pub anything : Where
anything = record {
  processing_request_id = none;
  owner_user_id = none;
  idempotency_key = none;
  source_storage_key = none;
}

pub data Direction : Type 0 where
  ascending descending : Direction

pub data Column : Type 0 where
  created_at processing_request_id : Column

pub record EntityManager (S : Type 0) : Type 0 where
  -- manager.insert(ProcessingRequestEntity, row) and manager.save(ProcessingRequestEntity, row)
  pub insert_request : ProcessingRequestEntity → Action S (Unit {0})
  pub save_request : ProcessingRequestEntity → Action S (Unit {0})
  -- manager.findOne(ProcessingRequestEntity, { where, lock }): whether it asks for the row's lock
  pub find_one_request : Where → Bool → Action S (Option ProcessingRequestEntity)
  -- manager.find(ProcessingRequestEntity, { where, order, skip, take })
  pub find_requests :
      Where → List (Column × Direction) → ℕ → ℕ → Action S (List ProcessingRequestEntity)
  -- manager.count(ProcessingRequestEntity, { where })
  pub count_requests : Where → Action S ℕ
  -- the same of ProcessedEventEntity, where the event id is fixed
  pub insert_event : ProcessedEventEntity → Action S (Unit {0})
  pub find_one_event : String → Action S (Option ProcessedEventEntity)
  pub count_events : String → Action S ℕ
  -- manager.query(`INSERT INTO outbox …`, [queue, pattern, JSON.stringify(payload)]), by the payload
  pub insert_outbox : String → String → Fields → Action S (Unit {0})
