-- ===== src/Persistence/Events.antt =====
-- The request that a processed event names, over PostgreSQL and in memory.
use mathlib.Core.Option.{map as map_option}
use processing_catalog.Prelude.{
  ℕ, String, ◌≡◌, refl, ap, ◌∙◌, true, false, inl, inr, Option, none, some, arith, Bool-cases, ◌==◌,
}
use processing_catalog.Map.{get}
use processing_catalog.Outcome.{ok}
use processing_catalog.Memory.Store.{
  Memory, text_or_empty, has_idempotency_key, has_source, request_named, OutboxEntry,
}
use processing_catalog.Memory.Store as Store
use processing_catalog.Persistence.Manager.{EntityManager, ProcessedEventEntity}
use processing_catalog.Persistence.TypeOrm
use processing_catalog.Persistence.TypeOrm.{to_row, to_domain, save_error, violated_unique_index}
use processing_catalog.Persistence.Columns.{fits_text, fits_uuid}
use processing_catalog.Persistence.Database.{Tables, IsDatabase}
use processing_catalog.Persistence.Refines.{find_by_id-Agrees}
use processing_catalog.Persistence.View.{tables_of, IsKeyed, Agrees, id_column, get-event_row}

module _ {S : Type 0} (manager : EntityManager S) (view : S → Tables) (now : ℕ)
    (database : IsDatabase manager view) (s : S) (m : Memory) (related : view s ≡ tables_of m)
    (keyed : IsKeyed m.requests) where
  -- The request that an event's row names, read in a state with the same tables.
  named :
      (event : Option ProcessedEventEntity) (x : Option String) (after : S)
      → map_option (λ e. e.processing_request_id) event ≡ map_option id_column x
      → view after ≡ tables_of m
      → ((y : String) → x ≡ some y → (y == "") ≡ false → fits_uuid y ≡ true)
      → Agrees view
          (TypeOrm.request_of_event manager now (TypeOrm.request_id_of event) after)
          (ok (request_named x m.requests), m)
  unfolding TypeOrm.request_of_event Store.find_by_processing_request_id
  named none none after e same ids = (refl, same)
  named none (some x) after e same ids = ground arith
  named (some event) none after e same ids = ground arith
  named (some event) (some x) after e same ids = elim (Bool-cases (x == "")) [
    | inl empty ↦
        let null : event.processing_request_id ≡ none = ground (arith, empty) in
        rw (null, empty) (refl, same)
    | inr present ↦
        let there : event.processing_request_id ≡ some x = ground (arith, present) in
        rw (there, present)
          (find_by_id-Agrees manager view now database after m same keyed x (ids x refl present))
  ]

  pub find_by_event-Agrees :
      (id : String)
      → fits_text id ≡ true
      → ((x : String)
          → get id m.event_id_to_request_id ≡ some x
          → (x == "") ≡ false
          → fits_uuid x ≡ true)
      → Agrees view (TypeOrm.find_by_event_id manager now id s) (Store.find_by_event_id id m)
  unfolding TypeOrm.find_by_event_id Store.find_by_event_id
  find_by_event-Agrees id fits ids =
      let (event, same, reads) = database.finds_event id s fits in
      let stored : map_option (λ e. e.processing_request_id) event
          ≡ map_option id_column (get id m.event_id_to_request_id) =
        same ∙ ap (λ t. get id t.events) related ∙ get-event_row id m.event_id_to_request_id in
      rw (reads.0) (named event (get id m.event_id_to_request_id) _ stored (reads.1 ∙ related) ids)
