-- ===== src/Persistence/Refines.antt =====
-- The repository over PostgreSQL answers as the in-memory one, for inputs that the columns hold.
use mathlib.Core.Option.{map as map_option}
use processing_catalog.Prelude.{
  ℕ, String, ◌≡◌, refl, sym, ap, ◌∙◌, true, false, Bool, ◌&&◌, Option, none, some, List, map, find,
  filter, length, take, drop, arith, ◌==◌, ◌<◌,
}
use processing_catalog.Map.{get, has, values}
use processing_catalog.Outcome.{ok}
use processing_catalog.Domain.Request.{ProcessingRequest}
use processing_catalog.Memory.Store.{Memory, has_source, has_idempotency_key, sort}
use processing_catalog.Memory.Store as Store
use processing_catalog.Action.{◌>>=◌, return}
use processing_catalog.Persistence.Manager.{EntityManager, Where, anything, ProcessingRequestEntity}
use processing_catalog.Persistence.TypeOrm
use processing_catalog.Persistence.TypeOrm.{to_row, to_domain}
use processing_catalog.Persistence.Columns.{fits_text, fits_uuid, fits_where}
use processing_catalog.Persistence.Database.{
  Tables, IsDatabase, matches, is_unique_query, Reads, InOrder,
}
use mathlib.Core.List.{Permᴰ}
use mathlib.Core.List.Permᴰ
use mathlib.Core.Path.{subst}
use processing_catalog.Persistence.Ordering.{ordered_lem, owned-AreDistinct}
use processing_catalog.Persistence.Lists.{
  find-map, filter-map, length-map, find-filter, map-inverse, map-take, map-drop,
}
use processing_catalog.Persistence.View.{
  tables_of, IsKeyed, Agrees, find-values, has-event_row, find_owned-values, to_domain-to_row,
}

restored : (x : Option ProcessingRequest) → map_option to_domain (map_option to_row x) ≡ x
unfolding to_domain to_row
restored none = refl
restored (some r) = refl

-- A page of the matching rows in order is the page of the requests.
page_lem :
    (p : ProcessingRequestEntity → Bool) (own : ProcessingRequest → Bool) (offset limit : ℕ)
    (m : List (String × ProcessingRequest)) (ordered : List ProcessingRequestEntity)
    → ((r : ProcessingRequest) → p (to_row r) ≡ own r)
    → IsKeyed m
    → Permᴰ ordered (filter p (map to_row (values m)))
    → InOrder ordered
    → map to_domain (take limit (drop offset ordered))
      ≡ take limit (drop offset (sort (filter own (values m))))
page_lem p own offset limit m ordered same keyed arranged sorted =
    let restored =
      ap (map to_domain) (filter-map to_row p own same (values m))
      ∙ map-inverse to_row to_domain to_domain-to_row (filter own (values m)) in
    let arrangement =
      subst (λ xs. Permᴰ (map to_domain ordered) xs) restored (Permᴰ.map to_domain arranged) in
    map-take to_domain limit _
    ∙ ap (take limit) (
        map-drop to_domain offset ordered
        ∙ ap (drop offset) (ordered_lem ordered sorted arrangement (owned-AreDistinct own m keyed)))

module _ {S : Type 0} (manager : EntityManager S) (view : S → Tables) (now : ℕ)
    (database : IsDatabase manager view) (s : S) (m : Memory) (related : view s ≡ tables_of m)
    (keyed : IsKeyed m.requests) where
  found :
      (query : Where) (lock : Bool) (q : ProcessingRequest → Bool)
      → is_unique_query query ≡ true
      → fits_where query ≡ true
      → ((r : ProcessingRequest) → matches query (to_row r) ≡ q r)
      → Reads view s
          (ok (map_option to_row (find q (values m.requests))))
          (manager.find_one_request query lock s)
  found query lock q unique fits same =
      let (answer, kept) = database.finds_request query lock s unique fits in
      (
        answer
            ∙ ap ok (
                ap (λ t. find (matches query) t.requests) related
                ∙ find-map to_row (matches query) q same (values m.requests)),
        kept,
      )

  found_one :
      (query : Where) (lock : Bool) (q : ProcessingRequest → Bool)
      → is_unique_query query ≡ true
      → fits_where query ≡ true
      → ((r : ProcessingRequest) → matches query (to_row r) ≡ q r)
      → Agrees view
          ((manager.find_one_request query lock >>= λ row. return (map_option to_domain row)) s)
          (ok (find q (values m.requests)), m)
  found_one query lock q unique fits same =
      let (answer, kept) = found query lock q unique fits same in
      rw answer (ap ok (restored (find q (values m.requests))), kept ∙ related)

  by_id :
      (id : String) (lock : Bool)
      → fits_uuid id ≡ true
      → Agrees view
          ((manager.find_one_request (record anything { processing_request_id = some id }) lock
              >>= λ row. return (map_option to_domain row))
            s)
          (ok (get id m.requests), m)
  unfolding matches to_row
  by_id id lock fits = rw (sym (find-values id m.requests keyed.0)) (
      found_one (record anything { processing_request_id = some id }) lock
        (λ r. r.processing_request_id == id) refl (ground arith) (λ r. ground arith))

  pub find_by_id-Agrees :
      (id : String)
      → fits_uuid id ≡ true
      → Agrees view
          (TypeOrm.find_by_processing_request_id manager now id s)
          (Store.find_by_processing_request_id id m)
  unfolding TypeOrm.find_by_processing_request_id Store.find_by_processing_request_id
  find_by_id-Agrees id fits = by_id id false fits

  pub find_for_update-Agrees :
      (id : String)
      → fits_uuid id ≡ true
      → Agrees view (TypeOrm.find_for_update manager now id s) (Store.find_for_update id m)
  unfolding TypeOrm.find_for_update Store.find_for_update Store.find_by_processing_request_id
  find_for_update-Agrees id fits = by_id id true fits

  pub find_by_id_and_owner-Agrees :
      (id owner : String)
      → fits_uuid id ≡ true
      → fits_text owner ≡ true
      → Agrees view
          (TypeOrm.find_by_id_and_owner manager now id owner s)
          (Store.find_by_id_and_owner id owner m)
  unfolding TypeOrm.find_by_id_and_owner Store.find_by_id_and_owner matches to_row
  find_by_id_and_owner-Agrees id owner fits_id fits_owner =
      rw (sym (find_owned-values id owner m.requests keyed)) (
        found_one (record anything { processing_request_id = some id; owner_user_id = some owner })
          false (λ r. r.processing_request_id == id && r.owner_user_id == owner) refl (ground arith)
          (λ r. ground arith))

  pub find_by_key-Agrees :
      (owner key : String)
      → fits_text owner ≡ true
      → fits_text key ≡ true
      → Agrees view
          (TypeOrm.find_by_owner_and_idempotency_key manager now owner key s)
          (Store.find_by_owner_and_idempotency_key owner key m)
  unfolding TypeOrm.find_by_owner_and_idempotency_key Store.find_by_owner_and_idempotency_key
      Store.owned_by matches to_row
  find_by_key-Agrees owner key fits_owner fits_key =
      rw
        (find-filter (has_idempotency_key (some key)) (λ r. r.owner_user_id == owner)
          (values m.requests))
        (found_one (record anything { owner_user_id = some owner; idempotency_key = some key })
          false (λ r. r.owner_user_id == owner && has_idempotency_key (some key) r) refl
          (ground arith) (λ r. ground arith))

  pub find_by_source-Agrees :
      (owner source : String)
      → fits_text owner ≡ true
      → fits_text source ≡ true
      → Agrees view
          (TypeOrm.find_by_owner_and_source manager now owner source s)
          (Store.find_by_owner_and_source owner source m)
  unfolding TypeOrm.find_by_owner_and_source Store.find_by_owner_and_source Store.owned_by matches
      to_row
  find_by_source-Agrees owner source fits_owner fits_source =
      rw (find-filter (has_source source) (λ r. r.owner_user_id == owner) (values m.requests)) (
        found_one (record anything { owner_user_id = some owner; source_storage_key = some source })
          false (λ r. r.owner_user_id == owner && has_source source r) refl (ground arith)
          (λ r. ground arith))

  pub count-Agrees :
      (owner : String)
      → fits_text owner ≡ true
      → Agrees view (TypeOrm.count_by_owner manager now owner s) (Store.count_by_owner owner m)
  unfolding TypeOrm.count_by_owner Store.count_by_owner Store.owned_by matches to_row
  count-Agrees owner fits =
      let query = record anything { owner_user_id = some owner } in
      let (answer, kept) = database.counts_requests query s (ground arith) in
      (
        answer
            ∙ ap ok (
                ap (λ t. length (filter (matches query) t.requests)) related
                ∙ ap length (
                    filter-map to_row (matches query) (λ r. r.owner_user_id == owner)
                      (λ r. ground arith) (values m.requests))
                ∙ length-map to_row _),
        kept ∙ related,
      )

  pub page-Agrees :
      (owner : String) (offset limit : ℕ)
      → 0 < limit
      → fits_text owner ≡ true
      → Agrees view
          (TypeOrm.find_page_by_owner manager now owner offset limit s)
          (Store.find_page_by_owner owner offset limit m)
  unfolding TypeOrm.find_page_by_owner Store.find_page_by_owner Store.owned_by matches to_row
  page-Agrees owner offset limit positive fits =
      let query = record anything { owner_user_id = some owner } in
      let (ordered, arranged, sorted, (answer, kept)) =
        database.finds_page query offset limit s positive (ground arith) in
      rw answer (
        ap ok (
            page_lem (matches query) (λ r. r.owner_user_id == owner) offset limit m.requests ordered
              (λ r. ground arith) keyed
              (subst (λ t. Permᴰ ordered (filter (matches query) t.requests)) related arranged)
              sorted),
        kept ∙ related,
      )

  pub has_event-Agrees :
      (id : String)
      → fits_text id ≡ true
      → Agrees view
          (TypeOrm.has_event_been_processed manager now id s)
          (Store.has_event_been_processed id m)
  unfolding TypeOrm.has_event_been_processed Store.has_event_been_processed
  has_event-Agrees id fits =
      let (answer, kept) = database.counts_events id s fits in
      rw answer (
        (let same : has id (view s).events ≡ has id m.event_id_to_request_id =
              ap (λ t. has id t.events) related ∙ has-event_row id m.event_id_to_request_id in
            ground (arith, same)),
        kept ∙ related,
      )
