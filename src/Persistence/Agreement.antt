-- ===== src/Persistence/Agreement.antt =====
-- The two implementations of the repository compared, operation by operation.
use processing_catalog.Persistence.Refines.{
  find_by_id-Agrees, find_for_update-Agrees, find_by_id_and_owner-Agrees, find_by_key-Agrees,
  find_by_source-Agrees, count-Agrees, page-Agrees, has_event-Agrees,
}
use processing_catalog.Persistence.Writes.{mark-Agrees, add-Agrees, update-Agrees}
use processing_catalog.Persistence.Events.{find_by_event-Agrees}
use processing_catalog.Memory.Store as Store
use processing_catalog.Persistence.Manager.{EntityManager}
use processing_catalog.Persistence.Database.{Tables, IsDatabase, fits_payload}
use processing_catalog.Prelude.{some, ℕ, ◌≡◌, String, true, Option, ◌==◌, false, ◌&&◌, ◌<◌}
use processing_catalog.Memory.Store.{Memory}
use processing_catalog.Persistence.View.{tables_of, IsKeyed, Agrees}
use processing_catalog.Domain.Request.{ProcessingRequest}
use processing_catalog.Persistence.Columns.{fits_row, fits_uuid, fits_text, fits_optional}
use processing_catalog.Persistence.TypeOrm.{to_row}
use processing_catalog.Map.{get, has}
use processing_catalog.Value.{Fields}
use processing_catalog.Persistence.TypeOrm

-- Let the entity manager be one of a database, and let its tables stand for a memory whose
-- requests have distinct ids and stand under them. For an id that is a UUID in lower case, texts
-- without the character 0, a limit that is not 0, and an event whose recorded request id, if not
-- empty, is such a UUID, each of the nine reads of the repository over PostgreSQL answers what
-- the in-memory one answers, and leaves the tables as they were.
pub reads-Agree :
    {S : Type 0} (manager : EntityManager S) (view : S → Tables) (now : ℕ)
    → IsDatabase manager view
    → (s : S) (m : Memory) → view s ≡ tables_of m
    → IsKeyed m.requests
    → (id owner key source event_id : String) (offset limit : ℕ) → 0 < limit
    → fits_uuid id ≡ true
    → fits_text owner ≡ true
    → fits_text key ≡ true
    → fits_text source ≡ true
    → fits_text event_id ≡ true
    → ((x : String)
        → get event_id m.event_id_to_request_id ≡ some x
        → (x == "") ≡ false
        → fits_uuid x ≡ true)
    → Agrees view
        (TypeOrm.find_by_processing_request_id manager now id s)
        (Store.find_by_processing_request_id id m)
      × Agrees view (TypeOrm.find_for_update manager now id s) (Store.find_for_update id m)
      × Agrees view
          (TypeOrm.find_by_event_id manager now event_id s)
          (Store.find_by_event_id event_id m)
      × Agrees view
          (TypeOrm.has_event_been_processed manager now event_id s)
          (Store.has_event_been_processed event_id m)
      × Agrees view
          (TypeOrm.find_page_by_owner manager now owner offset limit s)
          (Store.find_page_by_owner owner offset limit m)
      × Agrees view (TypeOrm.count_by_owner manager now owner s) (Store.count_by_owner owner m)
      × Agrees view
          (TypeOrm.find_by_id_and_owner manager now id owner s)
          (Store.find_by_id_and_owner id owner m)
      × Agrees view
          (TypeOrm.find_by_owner_and_idempotency_key manager now owner key s)
          (Store.find_by_owner_and_idempotency_key owner key m)
      × Agrees view
          (TypeOrm.find_by_owner_and_source manager now owner source s)
          (Store.find_by_owner_and_source owner source m)
reads-Agree manager view now database s m related keyed id owner key source event_id offset limit
      positive fits_id fits_owner fits_key fits_source fits_event recorded =
    (
      find_by_id-Agrees manager view now database s m related keyed id fits_id,
      find_for_update-Agrees manager view now database s m related keyed id fits_id,
      find_by_event-Agrees manager view now database s m related keyed event_id fits_event recorded,
      has_event-Agrees manager view now database s m related keyed event_id fits_event,
      page-Agrees manager view now database s m related keyed owner offset limit positive
          fits_owner,
      count-Agrees manager view now database s m related keyed owner fits_owner,
      find_by_id_and_owner-Agrees manager view now database s m related keyed id owner fits_id
          fits_owner,
      find_by_key-Agrees manager view now database s m related keyed owner key fits_owner fits_key,
      find_by_source-Agrees manager view now database s m related keyed owner source fits_owner
          fits_source,
    )

-- Let the entity manager be one of a database, and let its tables stand for a memory whose requests
-- have distinct ids and stand under them. `update` of a request that is there, with the same owner,
-- key and source and with texts that fit the columns, `markEventProcessed` of an event that is not
-- there, and `add` of an entry with texts that jsonb holds return over PostgreSQL as in memory, and
-- leave the tables that stand for the memory the in-memory one leaves.
pub writes-Agree :
    {S : Type 0} (manager : EntityManager S) (view : S → Tables) (now : ℕ)
    → IsDatabase manager view
    → (s : S) (m : Memory) → view s ≡ tables_of m
    → IsKeyed m.requests
    → (r before : ProcessingRequest) → fits_row (to_row r) ≡ true
    → get r.processing_request_id m.requests ≡ some before
    → r.owner_user_id ≡ before.owner_user_id
    → r.idempotency_key ≡ before.idempotency_key
    → r.source_storage_key ≡ before.source_storage_key
    → (event_id : String) (id : Option String) → fits_text event_id ≡ true
    → fits_optional fits_uuid id ≡ true
    → has event_id m.event_id_to_request_id ≡ false
    → (queue pattern : String) (payload : Fields)
    → (fits_text queue && fits_text pattern && fits_payload payload) ≡ true
    → Agrees view (TypeOrm.update manager now r s) (Store.update r m)
      × Agrees view
          (TypeOrm.mark_event_processed manager now event_id id s)
          (Store.mark_event_processed event_id id m)
      × Agrees view
          (TypeOrm.add manager now queue pattern payload s)
          (Store.add queue pattern payload m)
writes-Agree manager view now database s m related keyed r before fits there owner key source
      event_id id fits_event fits_id fresh queue pattern payload fits_entry =
    (
      update-Agrees manager view now database s m related keyed r before fits there owner key
          source,
      mark-Agrees manager view now database s m related event_id id fits_event fits_id fresh,
      add-Agrees manager view now database s m related queue pattern payload fits_entry,
    )
