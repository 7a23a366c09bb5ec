-- ===== src/Persistence/Writes.antt =====
-- The writes of the repository over PostgreSQL other than `save` leave the tables that stand for
-- the memory that the in-memory ones leave, for inputs that the columns hold.
use mathlib.Core.Option.{map as map_option}
use mathlib.Core.Path.{subst}
use processing_catalog.Prelude.{
  ℕ, String, ◌≡◌, refl, sym, ap, ◌∙◌, true, false, ◌&&◌, inl, inr, Option, none, some, List, [],
  ◌∷◌, ◌++◌, map, find, arith, Bool-cases, ◌==◌, eq_iff, if◌then◌else◌,
}
use processing_catalog.Map.{get, has, values}
use processing_catalog.Value.{Fields}
use processing_catalog.Domain.Request.{ProcessingRequest}
use processing_catalog.Memory.Store.{
  Memory, text_or_empty, has_idempotency_key, has_source, request_named,
}
use processing_catalog.Memory.Store as Store
use processing_catalog.Persistence.Manager.{EntityManager, ProcessingRequestEntity, anything}
use processing_catalog.Persistence.TypeOrm
use processing_catalog.Persistence.TypeOrm.{to_row, to_domain, save_error, violated_unique_index}
use processing_catalog.Persistence.Columns.{fits_text, fits_uuid, fits_row, fits_optional}
use processing_catalog.Persistence.Database.{
  outbox_row, Tables, IsDatabase, matches, fits_payload, OutboxRow, replace_row,
}
use processing_catalog.Persistence.Lists.{find-map, map-append}
use processing_catalog.Persistence.View.{
  tables_of, IsKeyed, Agrees, event_row, entry_row, set_new, replace_row-values, find-values,
  has-event_row,
}

-- The empty text is no uuid.
fits_uuid-ne-empty : (id : String) → fits_uuid id ≡ true → (id == "") ≡ false
unfolding fits_uuid
fits_uuid-ne-empty id h = elim (Bool-cases (id == "")) [
  | inl same ↦
      let no : false ≡ true = subst (λ x. fits_uuid x ≡ true) ((eq_iff id "").0 same) h in cc
  | inr other ↦ other
]

column_of :
    (id : Option String)
    → fits_optional fits_uuid id ≡ true
    → (if text_or_empty id == "" then none else some (text_or_empty id)) ≡ id
column_of none h = refl
column_of (some id) h = ground (arith, fits_uuid-ne-empty id)

module _ {S : Type 0} (manager : EntityManager S) (view : S → Tables) (now : ℕ)
    (database : IsDatabase manager view) (s : S) (m : Memory) (related : view s ≡ tables_of m) where
  pub mark-Agrees :
      (event_id : String) (id : Option String)
      → fits_text event_id ≡ true
      → fits_optional fits_uuid id ≡ true
      → has event_id m.event_id_to_request_id ≡ false
      → Agrees view
          (TypeOrm.mark_event_processed manager now event_id id s)
          (Store.mark_event_processed event_id id m)
  unfolding TypeOrm.mark_event_processed Store.mark_event_processed
  mark-Agrees event_id id fits_event fits_id fresh =
      let absent : has event_id (view s).events ≡ false =
        ap (λ t. has event_id t.events) related
        ∙ has-event_row event_id m.event_id_to_request_id
        ∙ fresh in
      let (answer, tables) =
        database.inserts_event
          (record { event_id = event_id; processing_request_id = id; processed_at = now }) s
          fits_event fits_id absent in
      let id_kept =
        ap (λ x. map event_row m.event_id_to_request_id ++ (event_id, x) ∷ [])
          (column_of id fits_id) in
      (
        answer,
        tables
            ∙ ap (λ (t : Tables). record t { events = t.events ++ (event_id, id) ∷ [] }) related
            ∙ ap (λ (evs : List (String × Option String)). record (tables_of m) { events = evs })
                (sym (
                  ap (map event_row)
                    (set_new event_id (text_or_empty id) m.event_id_to_request_id fresh)
                  ∙ map-append event_row m.event_id_to_request_id
                      ((event_id, text_or_empty id) ∷ [])
                  ∙ id_kept)),
      )

  pub add-Agrees :
      (queue pattern : String) (payload : Fields)
      → (fits_text queue && fits_text pattern && fits_payload payload) ≡ true
      → Agrees view
          (TypeOrm.add manager now queue pattern payload s)
          (Store.add queue pattern payload m)
  unfolding TypeOrm.add Store.add
  add-Agrees queue pattern payload fits =
      let (answer, tables) = database.inserts_outbox queue pattern payload s fits in
      (
        answer,
        tables
            ∙ ap
                (λ (t : Tables). record t {
                  outbox = t.outbox ++ outbox_row queue pattern payload ∷ [];
                })
                related
            ∙ ap (λ (o : List OutboxRow). record (tables_of m) { outbox = o })
                (sym (
                  map-append entry_row m.entries
                    (record { queue = queue; pattern = pattern; payload = payload } ∷ []))),
      )

module _ {S : Type 0} (manager : EntityManager S) (view : S → Tables) (now : ℕ)
    (database : IsDatabase manager view) (s : S) (m : Memory) (related : view s ≡ tables_of m)
    (keyed : IsKeyed m.requests) where
  pub update-Agrees :
      (r before : ProcessingRequest)
      → fits_row (to_row r) ≡ true
      → get r.processing_request_id m.requests ≡ some before
      → r.owner_user_id ≡ before.owner_user_id
      → r.idempotency_key ≡ before.idempotency_key
      → r.source_storage_key ≡ before.source_storage_key
      → Agrees view (TypeOrm.update manager now r s) (Store.update r m)
  unfolding TypeOrm.update Store.update matches to_row
  update-Agrees r before fits there owner key source =
      let query = record anything { processing_request_id = some r.processing_request_id } in
      let found : find (matches query) (view s).requests ≡ some (to_row before) =
        ap (λ t. find (matches query) t.requests) related
        ∙ find-map to_row (matches query) (λ q. q.processing_request_id == r.processing_request_id)
            (λ q. ground arith) (values m.requests)
        ∙ ap (map_option to_row) (find-values r.processing_request_id m.requests keyed.0 ∙ there) in
      let (answer, tables) =
        database.saves_request (to_row r) (to_row before) s fits found owner key source in
      (
        answer,
        tables
            ∙ ap (λ (t : Tables). record t { requests = replace_row (to_row r) t.requests }) related
            ∙ ap (λ (rows : List ProcessingRequestEntity). record (tables_of m) { requests = rows })
                (sym (replace_row-values r before m.requests keyed.0 keyed.1 there)),
      )
