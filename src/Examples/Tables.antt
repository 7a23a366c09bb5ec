-- ===== src/Examples/Tables.antt =====
-- An entity manager over the tables themselves, and the two repositories on a small state.
use mathlib.Core.Option.{map as map_option}
use mathlib.Core.List.{Permᴰ}
use mathlib.Core.List.Permᴰ
use mathlib.Core.Path.{subst}
use processing_catalog.Query.Order.{IsSorted, Precedes}
use processing_catalog.Query.Sorting.{sort-IsSorted}
use processing_catalog.Query.Unique.{sort-perm}
use processing_catalog.Memory.Store as Store
use processing_catalog.Domain.Request.{ProcessingRequest, queued}
use processing_catalog.Memory.Store.{Memory, in_memory_repository, unit_of_work, rolls_back, sort}
use processing_catalog.Persistence.Manager.{
  EntityManager, ProcessingRequestEntity, ProcessedEventEntity,
}
use processing_catalog.Map.{has, get}
use processing_catalog.Persistence.Database.{
  IsDatabase, Tables, violated, replace_row, Inserts, matches, outbox_row, ComesFirst, InOrder,
}
use processing_catalog.Prelude.{
  List, String, Option, ◌∷◌, ◌≡◌, [], some, refl, ◌++◌, none, inl, find, inr, ap, take, drop, any,
  sym, ◌==◌, ◌∙◌, filter, eq_refl, length, if◌then◌else◌, arith, All, map,
}
use processing_catalog.Value.{Fields, Value}
use processing_catalog.Persistence.View.{IsKeyed, Agrees, tables_of}
use processing_catalog.Persistence.Columns.{fits_uuid, fits_text, fits_optional}
use processing_catalog.Examples.Data.{fresh}
use processing_catalog.Outcome.{ok, err, query_failed}
use processing_catalog.Action.{Action}
use processing_catalog.Persistence.TypeOrm.{
  to_row, to_domain, typeorm_repository, typeorm_unit_of_work,
}
use processing_catalog.Persistence.Agreement.{reads-Agree}
use processing_catalog.Persistence.TypeOrm

abbrev inserted : List String → ProcessingRequestEntity → Action Tables (Unit {0})
inserted [] row t = (ok tt, record t { requests = t.requests ++ row ∷ [] })
inserted (index ∷ _) row t = (err (query_failed (some "23505") (some index)), t)

abbrev row_of_event : String → Option String → ProcessedEventEntity
row_of_event event_id id = record {
  event_id = event_id;
  processing_request_id = id;
  processed_at = 0;
}

abbrev newest_first : List ProcessingRequestEntity → List ProcessingRequestEntity
newest_first rows = map to_row (sort (map to_domain rows))

abbrev pub tables : EntityManager Tables
tables = record {
  insert_request = λ row t. inserted (violated row t.requests) row t;
  save_request = λ row t. (ok tt, record t { requests = replace_row row t.requests });
  find_one_request = λ query lock t. (ok (find (matches query) t.requests), t);
  find_requests = λ query order skip limit t.
      (ok (take limit (drop skip (newest_first (filter (matches query) t.requests)))), t);
  count_requests = λ query t. (ok (length (filter (matches query) t.requests)), t);
  insert_event = λ event t.
      (ok tt, record t { events = t.events ++ (event.event_id, event.processing_request_id) ∷ [] });
  find_one_event = λ id t. (ok (map_option (row_of_event id) (get id t.events)), t);
  count_events = λ id t. (ok (if has id t.events then 1 else 0), t);
  insert_outbox = λ queue pattern payload t.
      (ok tt, record t { outbox = t.outbox ++ outbox_row queue pattern payload ∷ [] });
}

abbrev pub shown : Tables → Tables
shown t = t

inserted-Inserts :
    (names : List String) (row : ProcessingRequestEntity) (t : Tables)
    → violated row t.requests ≡ names
    → Inserts shown row t (inserted names row t)
inserted-Inserts [] row t e = inl (e, (refl, refl))
inserted-Inserts (index ∷ rest) row t e =
    inr (index, ap (any (λ name. name == index)) e ∙ rw (eq_refl index) refl, refl, refl)

found_request_id :
    (id : String) (x : Option (Option String))
    → map_option
        (λ (e : ProcessedEventEntity). e.processing_request_id)
        (map_option (row_of_event id) x)
      ≡ x
found_request_id id none = refl
found_request_id id (some x) = refl

back_to_rows : (rows : List ProcessingRequestEntity) → map to_row (map to_domain rows) ≡ rows
unfolding to_row to_domain
back_to_rows [] = refl
back_to_rows (row ∷ rows) = ap (row ∷◌) (back_to_rows rows)

newest_first-perm : (rows : List ProcessingRequestEntity) → Permᴰ (newest_first rows) rows
newest_first-perm rows =
    subst (Permᴰ (newest_first rows)) (back_to_rows rows)
      (Permᴰ.map to_row (sort-perm (map to_domain rows)))

rows-All :
    (r : ProcessingRequest) (xs : List ProcessingRequest)
    → All (Precedes r) xs
    → All (ComesFirst (to_row r)) (map to_row xs)
unfolding to_row
rows-All r [] h = tt
rows-All r (x ∷ xs) (h, hs) = (h, rows-All r xs hs)

rows-InOrder : (xs : List ProcessingRequest) → IsSorted xs → InOrder (map to_row xs)
rows-InOrder [] h = tt
rows-InOrder (x ∷ xs) (h, hs) = (rows-All x xs h, rows-InOrder xs hs)

newest_first-InOrder : (rows : List ProcessingRequestEntity) → InOrder (newest_first rows)
newest_first-InOrder rows =
    rows-InOrder (sort (map to_domain rows)) ((sort-IsSorted (map to_domain rows)).0)

pub tables-IsDatabase : IsDatabase tables shown
tables-IsDatabase = record {
  inserts_request = λ row t fits. inserted-Inserts (violated row t.requests) row t refl;
  saves_request = λ row before t fits there owner key source. (refl, refl);
  finds_request = λ query lock t unique fits. (refl, refl);
  finds_page = λ query skip limit t positive fits. (
    newest_first (filter (matches query) t.requests),
    newest_first-perm (filter (matches query) t.requests),
    newest_first-InOrder (filter (matches query) t.requests),
    (refl, refl),
  );
  counts_requests = λ query t fits. (refl, refl);
  inserts_event = λ event t fits_event fits_id fresh. (refl, refl);
  finds_event = λ id t fits. (
    map_option (row_of_event id) (get id t.events),
    found_request_id id (get id t.events),
    (refl, refl),
  );
  counts_events = λ id t fits. (refl, refl);
  inserts_outbox = λ queue pattern payload t fits. (refl, refl);
}

abbrev pub here : String
here = "00000000-0000-0000-0000-00000000000a"

abbrev pub there : String
there = "00000000-0000-0000-0000-00000000000b"

abbrev pub kept : ProcessingRequest
kept = record fresh { processing_request_id = here }

abbrev pub later : ProcessingRequest
later = record kept { status = queued; attempt_id = some there; updated_at = 2000 }

abbrev pub small : Memory
small = record {
  requests = (here, kept) ∷ [];
  event_id_to_request_id = ("e-1", here) ∷ [];
  entries = [];
}

small-IsKeyed : IsKeyed small.requests
unfolding has
small-IsKeyed = ((refl, tt), (refl, tt))

abbrev entry : Fields
entry = Fields.field "event_id" (Value.string "v-2") Fields.end

reads-Agree_example :
    Agrees shown
      (TypeOrm.find_by_processing_request_id tables 0 here (tables_of small))
      (Store.find_by_processing_request_id here small)
    × Agrees shown
        (TypeOrm.find_for_update tables 0 here (tables_of small))
        (Store.find_for_update here small)
    × Agrees shown
        (TypeOrm.find_by_event_id tables 0 "e-1" (tables_of small))
        (Store.find_by_event_id "e-1" small)
    × Agrees shown
        (TypeOrm.has_event_been_processed tables 0 "e-1" (tables_of small))
        (Store.has_event_been_processed "e-1" small)
    × Agrees shown
        (TypeOrm.find_page_by_owner tables 0 "ann" 0 20 (tables_of small))
        (Store.find_page_by_owner "ann" 0 20 small)
    × Agrees shown
        (TypeOrm.count_by_owner tables 0 "ann" (tables_of small))
        (Store.count_by_owner "ann" small)
    × Agrees shown
        (TypeOrm.find_by_id_and_owner tables 0 here "ann" (tables_of small))
        (Store.find_by_id_and_owner here "ann" small)
    × Agrees shown
        (TypeOrm.find_by_owner_and_idempotency_key tables 0 "ann" "k-1" (tables_of small))
        (Store.find_by_owner_and_idempotency_key "ann" "k-1" small)
    × Agrees shown
        (TypeOrm.find_by_owner_and_source tables 0 "ann" "uploads/a.mp4" (tables_of small))
        (Store.find_by_owner_and_source "ann" "uploads/a.mp4" small)
unfolding get fits_uuid fits_text
reads-Agree_example =
    reads-Agree tables shown 0 tables-IsDatabase (tables_of small) small refl small-IsKeyed here
      "ann" "k-1" "uploads/a.mp4" "e-1" 0 20 (omega arith) refl refl refl refl refl
      (λ x same present. ap (λ o. fits_optional fits_uuid o) (sym same))
