-- ===== src/Persistence/Storable.antt =====
-- What makes a memory one that the tables of src/infrastructure/persistence/migrations can hold, and
-- an event one that they can record; a delivery keeps it.
use processing_catalog.UseCase.Delivery.Spec.{
  Event, transition, accepted, mark, handle, event_id, started, store, completed, failed, announce,
  request_id, belongs_to,
}
use processing_catalog.Memory.Store.{Memory, OnThrow, OutboxEntry}
use processing_catalog.Map.{set, get, get-set}
use processing_catalog.Domain.Request.{ProcessingRequest}
use processing_catalog.Prelude.{
  String, Bool, ◌≡◌, List, [], ◌∷◌, refl, eq_iff, inr, true, All, Bool-cases, ◌&&◌, ◌==◌, some, inl,
  false, arith, ◌∙◌, sym,
}
use processing_catalog.Persistence.Columns.{fits_uuid, fits_row, fits_text}
use processing_catalog.Persistence.View.{IsKeyed}
use processing_catalog.Domain.Transitions.{Returned, request_of, new_object}
use processing_catalog.Outcome.{ok}
use processing_catalog.Catalog.Keeps.{handle_keeps}
use processing_catalog.Persistence.TypeOrm.{to_row}
use processing_catalog.Persistence.Delivery.Texts.{
  accept-fits, start-fits, complete-fits, failure-fits, end_in_failure,
}
use processing_catalog.Persistence.Delivery.Payload.{row-fits}
use processing_catalog.Map.Values.{set-IsDistinct}
use processing_catalog.Persistence.Delivery.Stored.{All-get}
use processing_catalog.UseCase.Fail.{is_processing, FailureOrigin}
use mathlib.Core.Path.{subst}
use mathlib.Core.Option.{some-injective}

-- Distinct requests under their ids, whose texts fit their columns, and events that were recorded
-- with the id of a request or with the empty text.
pub record IsStorable (m : Memory) : Type 0 where
  pub keyed : IsKeyed m.requests
  pub stored : All (λ e. fits_row (to_row e.1) ≡ true) m.requests
  pub recorded :
      (event x : String)
      → get event m.event_id_to_request_id ≡ some x
      → (x == "") ≡ false
      → fits_uuid x ≡ true

-- The texts that the handling of an event may store fit their columns: what the message brings, and
-- the ids that randomUUID() answers.
abbrev pub fits_event : Event → Bool
fits_event (accepted attempt_uuid event_uuid now input) =
    fits_text input.event_id
    && fits_uuid input.processing_request_id
    && fits_text input.occurred_at
    && fits_uuid attempt_uuid
    && fits_text event_uuid
fits_event (started now input) = fits_text input.event_id && fits_uuid input.processing_request_id
fits_event (completed event_uuid now input) =
    fits_text input.event_id
    && fits_uuid input.processing_request_id
    && fits_text input.occurred_at
    && fits_text input.zip_storage_key
    && fits_text event_uuid
fits_event (failed event_uuid now input) =
    fits_text input.event_id
    && fits_uuid input.processing_request_id
    && fits_text input.occurred_at
    && fits_text event_uuid

same_origin : (origin : FailureOrigin) → is_processing origin ≡ belongs_to origin
same_origin FailureOrigin.validation = refl
same_origin FailureOrigin.processing = refl

transition-fits :
    (e : Event) (before : ProcessingRequest) (out : Returned)
    → transition e before ≡ ok out
    → fits_event e ≡ true
    → fits_row (to_row before) ≡ true
    → fits_row (to_row (request_of out)) ≡ true
transition-fits (accepted attempt_uuid event_uuid now input) before out h fits row =
    accept-fits attempt_uuid now before out h (ground arith) row
transition-fits (started now input) before out h fits row = start-fits now before out h ∙ row
transition-fits (completed event_uuid now input) before out h fits row =
    complete-fits now before input.zip_storage_key out h (ground arith) row
transition-fits (failed event_uuid now input) before out h fits row =
    failure-fits (is_processing input.origin) now before input.failure_code out (
      subst (λ own. end_in_failure own now before input.failure_code ≡ ok out)
        (sym (same_origin input.origin)) h)
    ∙ row

set-All :
    (P : ProcessingRequest → Type 0) (id : String) (r : ProcessingRequest)
    (m : List (String × ProcessingRequest))
    → P r
    → All (λ e. P e.1) m
    → All (λ e. P e.1) (set id r m)
unfolding set
set-All P id r [] p h = (p, tt)
set-All P id r ((k, q) ∷ m) p h = elim (Bool-cases (k == id)) [
  | inl here ↦ rw here (p, h.1)
  | inr later ↦ rw later (h.0, set-All P id r m p h.1)
]

set-IsUnder :
    (r : ProcessingRequest) (m : List (String × ProcessingRequest))
    → All (λ e. e.1.processing_request_id ≡ e.0) m
    → All (λ e. e.1.processing_request_id ≡ e.0) (set r.processing_request_id r m)
unfolding set
set-IsUnder r [] h = (refl, tt)
set-IsUnder r ((k, q) ∷ m) h = elim (Bool-cases (k == r.processing_request_id)) [
  | inl here ↦ rw here (sym ((eq_iff _ _).0 here), h.1)
  | inr later ↦ rw later (h.0, set-IsUnder r m h.1)
]

-- A request that fits is stored under its id, with any entries of the outbox.
pub store-IsStorable :
    (r : ProcessingRequest) (entries : List OutboxEntry) (s : Memory)
    → fits_row (to_row r) ≡ true
    → IsStorable s
    → IsStorable (store r entries s)
store-IsStorable r entries s fits c = record {
  keyed = (
    set-IsUnder r s.requests c.keyed.0,
    set-IsDistinct r.processing_request_id r s.requests c.keyed.1,
  );
  stored =
      set-All (λ q. fits_row (to_row q) ≡ true) r.processing_request_id r s.requests fits c.stored;
  recorded = c.recorded;
}

-- An event is recorded with a request whose id fits.
pub mark-IsStorable :
    (event : String) (r : ProcessingRequest) (s : Memory)
    → fits_uuid r.processing_request_id ≡ true
    → IsStorable s
    → IsStorable (mark event r s)
mark-IsStorable event r s fits c = record {
  keyed = c.keyed;
  stored = c.stored;
  recorded = λ other x found present. elim (Bool-cases (event == other)) [
    | inl here ↦
        subst (λ i. fits_uuid i ≡ true)
          (some-injective r.processing_request_id x (sym (rw (get-set, here) refl) ∙ found)) fits
    | inr later ↦ c.recorded other x (sym (rw (get-set, later) refl) ∙ found) present
  ];
}

-- If the state that it read and the one that its transaction found can be stored, and the event's
-- texts fit, the state after a delivery can be stored, however it ends.
pub handle-IsStorable :
    (policy : OnThrow) (meanwhile : Memory → Memory) (e : Event) (s : Memory)
    → fits_event e ≡ true
    → IsStorable s
    → IsStorable (meanwhile s)
    → IsStorable (handle policy meanwhile e s).1
handle-IsStorable policy meanwhile e s fits =
    handle_keeps IsStorable e
      (λ id r t found c.
        mark-IsStorable (event_id e) r t
          (row-fits r (All-get (λ q. fits_row (to_row q) ≡ true) id t.requests r c.stored found)).0
          c)
      (λ before r t found h c.
        store-IsStorable r (announce e r) t
          (transition-fits e before (new_object r) h fits (
            All-get (λ q. fits_row (to_row q) ≡ true) (request_id e) t.requests before c.stored
              found))
          c)
      policy meanwhile s
