-- ===== src/Persistence/Database.antt =====
-- What the adapters rely on of PostgreSQL under TypeORM: the three tables of
-- src/infrastructure/persistence/migrations, and what each call does to them.
use mathlib.Core.Option.{map as map_option}
use processing_catalog.Prelude.{
  ℕ, String, Bool, ◌≡◌, ◌⊎◌, true, false, ◌&&◌, ◌||◌, Option, none, some, List, [], ◌∷◌, ◌++◌,
  filter, All, find, any, take, drop, length, ◌==◌, if◌then◌else◌, ◌<◌,
}
use processing_catalog.Map.{get, has}
use processing_catalog.Value.{Fields, end, field, undefined, string, get_field, Value}
use processing_catalog.Outcome.{Result, ok, err, query_failed}
use processing_catalog.Domain.Transitions.{same_text, is_present}
use processing_catalog.Query.Order.{UnitsLe}
use processing_catalog.Text.{utf16}
use mathlib.Core.List.{Permᴰ}
use processing_catalog.Persistence.Manager.{
  EntityManager, ProcessingRequestEntity, ProcessedEventEntity, Where, anything, created_at,
  processing_request_id, ascending, descending,
}
use processing_catalog.Persistence.Columns.{
  fits_text, fits_uuid, fits_optional, fits_row, fits_where,
}

-- A jsonb document answers for its fields, in no order; one that is undefined is not there.
pub record OutboxRow : Type 0 where
  pub queue : String
  pub pattern : String
  pub payload : String → Value

abbrev pub outbox_row : String → String → Fields → OutboxRow
outbox_row queue pattern payload = record {
  queue = queue;
  pattern = pattern;
  payload = λ name. get_field name payload;
}

-- The rows in the order of their insertion; of an event, its id and that of its request.
pub record Tables : Type 0 where
  pub requests : List ProcessingRequestEntity
  pub events : List (String × Option String)
  pub outbox : List OutboxRow

abbrev is_fixed : Option String → Option String → Bool
is_fixed none column = true
is_fixed (some value) column = same_text column (some value)

unfoldable pub matches : Where → ProcessingRequestEntity → Bool
matches w row =
    is_fixed w.processing_request_id (some row.processing_request_id)
    && is_fixed w.owner_user_id (some row.owner_user_id)
    && is_fixed w.idempotency_key row.idempotency_key
    && is_fixed w.source_storage_key (some row.source_storage_key)

-- The query fixes the columns of the primary key or of a unique index, so at most one row matches.
abbrev pub is_unique_query : Where → Bool
is_unique_query w =
    is_present w.processing_request_id
    || (is_present w.owner_user_id
        && (is_present w.idempotency_key || is_present w.source_storage_key))

-- The unique indexes that a new row violates. Where the key is null the index on it lets any pass.
abbrev when : Bool → String → List String
when b name = if b then name ∷ [] else []

unfoldable pub violated : ProcessingRequestEntity → List ProcessingRequestEntity → List String
violated row rows =
    when (any (λ r. r.processing_request_id == row.processing_request_id) rows)
      "processing_request_pkey"
    ++ when
        (is_present row.idempotency_key
          && any
              (λ r.
                r.owner_user_id == row.owner_user_id
                && same_text r.idempotency_key row.idempotency_key)
              rows)
        "uq_processing_request_owner_idempotency"
    ++ when
        (any
          (λ r.
            r.owner_user_id == row.owner_user_id && r.source_storage_key == row.source_storage_key)
          rows)
        "uq_processing_request_owner_source"

-- UPDATE … WHERE processing_request_id = $1
unfoldable pub replace_row :
    ProcessingRequestEntity → List ProcessingRequestEntity → List ProcessingRequestEntity
replace_row row [] = []
replace_row row (r ∷ rows) =
    (if r.processing_request_id == row.processing_request_id then row else r) ∷ replace_row row rows

-- ORDER BY created_at DESC, processing_request_id ASC, of two rows. The code units of two ids in
-- canonical lower case compare as the bytes of the column do.
abbrev pub ComesFirst : ProcessingRequestEntity → ProcessingRequestEntity → Type 0
ComesFirst a b =
    (b.created_at < a.created_at)
    ⊎ (a.created_at ≡ b.created_at)
      × UnitsLe (utf16 a.processing_request_id) (utf16 b.processing_request_id)

-- Each row comes before all those after it.
abbrev pub InOrder : List ProcessingRequestEntity → Type 0
InOrder [] = Unit
InOrder (row ∷ rows) = All (ComesFirst row) rows × InOrder rows

-- Every text of a payload is one that jsonb can hold.
unfoldable pub fits_payload : Fields → Bool
fits_payload end = true
fits_payload (field k undefined fs) = fits_payload fs
fits_payload (field k (string s) fs) = fits_text k && fits_text s && fits_payload fs
fits_payload (field k v fs) = false

-- What a read does: its answer, and the tables as they were.
abbrev pub Reads {ℓ} : {S : Type 0} {A : Type ℓ} → (S → Tables) → S → A → A × S → Type ℓ
Reads view s answer out = (out.0 ≡ answer) × (view out.1 ≡ view s)

-- What a write does: it returns, and leaves these tables.
abbrev pub Writes : {S : Type 0} → (S → Tables) → Tables → Result (Unit {0}) × S → Type 0
Writes view tables out = (out.0 ≡ ok tt) × (view out.1 ≡ tables)

-- What an insert of a row does: it adds the row, or fails on some index that the row violates.
abbrev pub Inserts :
    {S : Type 0} → (S → Tables) → ProcessingRequestEntity → S → Result (Unit {0}) × S → Type 0
Inserts view row s out =
    ((violated row (view s).requests ≡ [])
      × Writes view (record (view s) { requests = (view s).requests ++ row ∷ [] }) out)
    ⊎ ((index : String) × (any (λ name. name == index) (violated row (view s).requests) ≡ true)
        × (out.0 ≡ err (query_failed (some "23505") (some index)))
        × (view out.1 ≡ view s))

-- The manager is one of a database whose tables `view` shows. Nothing is said of a text that its
-- column cannot hold, nor of a query that more than one row can match without an order.
pub record IsDatabase {S : Type 0} (manager : EntityManager S) (view : S → Tables) : Type 0 where
  pub inserts_request :
      (row : ProcessingRequestEntity) (s : S)
      → fits_row row ≡ true
      → Inserts view row s (manager.insert_request row s)
  -- save updates the row that has the id; its indexed columns do not change here
  pub saves_request :
      (row before : ProcessingRequestEntity) (s : S)
      → fits_row row ≡ true
      → find
          (matches (record anything { processing_request_id = some row.processing_request_id }))
          (view s).requests
        ≡ some before
      → row.owner_user_id ≡ before.owner_user_id
      → row.idempotency_key ≡ before.idempotency_key
      → row.source_storage_key ≡ before.source_storage_key
      → Writes view
          (record (view s) { requests = replace_row row (view s).requests })
          (manager.save_request row s)
  pub finds_request :
      (query : Where) (lock : Bool) (s : S)
      → is_unique_query query ≡ true
      → fits_where query ≡ true
      → Reads view s
          (ok (find (matches query) (view s).requests))
          (manager.find_one_request query lock s)
  -- the rows that match, in an order that the query asks for; of these, the page
  pub finds_page :
      (query : Where) (skip limit : ℕ) (s : S)
      → 0 < limit
      → fits_where query ≡ true
      → (ordered : List ProcessingRequestEntity) × Permᴰ ordered
          (filter (matches query) (view s).requests)
        × InOrder ordered
        × Reads view s (ok (take limit (drop skip ordered))) (
            manager.find_requests query
              ((created_at, descending) ∷ (processing_request_id, ascending) ∷ [])
              skip
              limit
              s)
  pub counts_requests :
      (query : Where) (s : S)
      → fits_where query ≡ true
      → Reads view s
          (ok (length (filter (matches query) (view s).requests)))
          (manager.count_requests query s)
  pub inserts_event :
      (event : ProcessedEventEntity) (s : S)
      → fits_text event.event_id ≡ true
      → fits_optional fits_uuid event.processing_request_id ≡ true
      → has event.event_id (view s).events ≡ false
      → Writes view
          (record (view s) {
            events = (view s).events ++ (event.event_id, event.processing_request_id) ∷ [];
          })
          (manager.insert_event event s)
  pub finds_event :
      (id : String) (s : S)
      → fits_text id ≡ true
      → (found : Option ProcessedEventEntity) × (map_option (λ e. e.processing_request_id) found
          ≡ get id (view s).events)
        × Reads view s (ok found) (manager.find_one_event id s)
  pub counts_events :
      (id : String) (s : S)
      → fits_text id ≡ true
      → Reads view s (ok (if has id (view s).events then 1 else 0)) (manager.count_events id s)
  pub inserts_outbox :
      (queue pattern : String) (payload : Fields) (s : S)
      → (fits_text queue && fits_text pattern && fits_payload payload) ≡ true
      → Writes view
          (record (view s) { outbox = (view s).outbox ++ outbox_row queue pattern payload ∷ [] })
          (manager.insert_outbox queue pattern payload s)
