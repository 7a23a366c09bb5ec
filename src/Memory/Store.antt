-- ===== src/Memory/Store.antt =====
-- src/infrastructure/in-memory-processing-request.repository.ts,
-- src/infrastructure/in-memory-unit-of-work.ts. The two `Map`s of the repository and the entries
-- of the outbox writer are one state.
use processing_catalog.Prelude.{
  ℕ, String, Bool, not, ◌&&◌, ◌||◌, Option, none, some, List, [], ◌∷◌, ◌++◌, filter, find, any,
  take, drop, length, ltb, ◌==◌, if◌then◌else◌,
}
use processing_catalog.Text.{text_lt}
use processing_catalog.Map.{get, set, has, values}
use processing_catalog.Value.{Fields}
use processing_catalog.Outcome.{ok, err, duplicate_idempotency_key, duplicate_source}
use processing_catalog.Action.{Action}
use processing_catalog.Domain.Request.{ProcessingRequest}
use processing_catalog.Domain.Transitions.{same_text, is_present}
use processing_catalog.Repository.{Repository, TransactionContext, UnitOfWork}

pub record OutboxEntry : Type 0 where
  pub queue : String
  pub pattern : String
  pub payload : Fields

pub record Memory : Type 0 where
  pub requests : List (String × ProcessingRequest)
  pub event_id_to_request_id : List (String × String)
  pub entries : List OutboxEntry

abbrev pub empty : Memory
empty = record { requests = []; event_id_to_request_id = []; entries = [] }

unfoldable pub owned_by : String → Memory → List ProcessingRequest
owned_by owner s = filter (λ r. r.owner_user_id == owner) (values s.requests)

abbrev pub has_idempotency_key : Option String → ProcessingRequest → Bool
has_idempotency_key key r = same_text r.idempotency_key key

abbrev pub has_source : String → ProcessingRequest → Bool
has_source source r = r.source_storage_key == source

abbrev pub text_or_empty : Option String → String
text_or_empty none = ""
text_or_empty (some s) = s

unfoldable pub save : ProcessingRequest → Action Memory (Unit {0})
save request s =
    let owned = owned_by request.owner_user_id s in
    if is_present request.idempotency_key && any (has_idempotency_key request.idempotency_key) owned
    then (
      err (duplicate_idempotency_key request.owner_user_id (text_or_empty request.idempotency_key)),
      s,
    )
    else if any (has_source request.source_storage_key) owned
    then (err (duplicate_source request.owner_user_id request.source_storage_key), s)
    else (ok tt, record s { requests = set request.processing_request_id request s.requests })

unfoldable pub update : ProcessingRequest → Action Memory (Unit {0})
update request s =
    (ok tt, record s { requests = set request.processing_request_id request s.requests })

unfoldable pub find_by_processing_request_id : String → Action Memory (Option ProcessingRequest)
find_by_processing_request_id id s = (ok (get id s.requests), s)

unfoldable pub find_for_update : String → Action Memory (Option ProcessingRequest)
unfolding find_by_processing_request_id
find_for_update id = find_by_processing_request_id id

-- `!processingRequestId` holds of a missing entry and of the empty text
abbrev pub request_named :
    Option String → List (String × ProcessingRequest) → Option ProcessingRequest
request_named none requests = none
request_named (some id) requests = if id == "" then none else get id requests

unfoldable pub find_by_event_id : String → Action Memory (Option ProcessingRequest)
find_by_event_id event_id s =
    (ok (request_named (get event_id s.event_id_to_request_id) s.requests), s)

unfoldable pub mark_event_processed : String → Option String → Action Memory (Unit {0})
mark_event_processed event_id id s = (
  ok tt,
  record s { event_id_to_request_id = set event_id (text_or_empty id) s.event_id_to_request_id },
)

unfoldable pub has_event_been_processed : String → Action Memory Bool
has_event_been_processed event_id s = (ok (has event_id s.event_id_to_request_id), s)

-- The comparison of `findPageByOwner` answers at most 0: newer first, then by id.
unfoldable pub stands_before : ProcessingRequest → ProcessingRequest → Bool
stands_before a b =
    ltb b.created_at a.created_at
    || (not (ltb a.created_at b.created_at)
        && not (text_lt b.processing_request_id a.processing_request_id))

-- `sort` keeps the order of elements that compare as equal.
unfoldable pub insert_sorted : ProcessingRequest → List ProcessingRequest → List ProcessingRequest
insert_sorted x [] = x ∷ []
insert_sorted x (y ∷ ys) = if stands_before x y then x ∷ y ∷ ys else y ∷ insert_sorted x ys

unfoldable pub sort : List ProcessingRequest → List ProcessingRequest
unfolding insert_sorted stands_before
sort [] = []
sort (x ∷ xs) = insert_sorted x (sort xs)

unfoldable pub find_page_by_owner : String → ℕ → ℕ → Action Memory (List ProcessingRequest)
unfolding owned_by
find_page_by_owner owner offset limit s =
    (ok (take limit (drop offset (sort (owned_by owner s)))), s)

unfoldable pub count_by_owner : String → Action Memory ℕ
unfolding owned_by
count_by_owner owner s = (ok (length (owned_by owner s)), s)

-- request?.ownerUserId === ownerUserId ? request : undefined
abbrev pub owned_or_none : String → Option ProcessingRequest → Option ProcessingRequest
owned_or_none owner none = none
owned_or_none owner (some r) = if r.owner_user_id == owner then some r else none

unfoldable pub find_by_id_and_owner : String → String → Action Memory (Option ProcessingRequest)
find_by_id_and_owner id owner s = (ok (owned_or_none owner (get id s.requests)), s)

unfoldable pub find_by_owner_and_idempotency_key :
    String → String → Action Memory (Option ProcessingRequest)
find_by_owner_and_idempotency_key owner key s =
    (ok (find (has_idempotency_key (some key)) (owned_by owner s)), s)

unfoldable pub find_by_owner_and_source : String → String → Action Memory (Option ProcessingRequest)
find_by_owner_and_source owner source s = (ok (find (has_source source) (owned_by owner s)), s)

abbrev pub in_memory_repository : Repository Memory
in_memory_repository = record {
  save = save;
  update = update;
  find_by_processing_request_id = find_by_processing_request_id;
  find_for_update = find_for_update;
  find_by_event_id = find_by_event_id;
  mark_event_processed = mark_event_processed;
  has_event_been_processed = has_event_been_processed;
  find_page_by_owner = find_page_by_owner;
  count_by_owner = count_by_owner;
  find_by_id_and_owner = find_by_id_and_owner;
  find_by_owner_and_idempotency_key = find_by_owner_and_idempotency_key;
  find_by_owner_and_source = find_by_owner_and_source;
}

unfoldable pub add : String → String → Fields → Action Memory (Unit {0})
add queue pattern payload s = (
  ok tt,
  record s {
    entries = s.entries ++ record { queue = queue; pattern = pattern; payload = payload } ∷ [];
  },
)

abbrev pub in_memory_context : TransactionContext Memory
in_memory_context = record { requests = in_memory_repository; outbox = record { add = add } }

-- What becomes of the writes of a callback that throws: the in-memory unit of work cannot roll back,
-- a database transaction (src/infrastructure/persistence/typeorm-unit-of-work.ts) does.
pub data OnThrow : Type 0 where
  keeps_writes rolls_back : OnThrow

abbrev state_on_throw : OnThrow → Memory → Memory → Memory
state_on_throw keeps_writes start s = s
state_on_throw rolls_back start s = start

abbrev pub unit_of_work : OnThrow → (Memory → Memory) → UnitOfWork Memory
unit_of_work policy meanwhile = record {
  context = in_memory_context;
  meanwhile = meanwhile;
  on_throw = state_on_throw policy;
}
