-- ===== src/Examples/Service.antt =====
-- Creations and deliveries over the in-memory adapters.
use processing_catalog.Interface.Creation.{create as http_create, validate_dto, require_string}
use processing_catalog.Interface.Writes.{is_created, post, create-unwritten}
use processing_catalog.Value.{Fields, get_field}
use processing_catalog.Prelude.{false, ◌≡◌, refl, some, true, none, ◌⊎◌, inr}
use processing_catalog.Text.{is_missing}
use processing_catalog.Map.{set, values, get, has}
use processing_catalog.Outcome.{domain_error, ok, err}
use processing_catalog.Domain.Request.{create_processing_request}
use processing_catalog.Domain.Transitions.{
  accept_processing_request, complete_processing_request, is_stale_attempt, is_unchanged,
}
use processing_catalog.Memory.Store.{
  rolls_back, empty, save, add, mark_event_processed, find_by_event_id,
  find_by_owner_and_idempotency_key, find_by_owner_and_source, owned_by, update, find_for_update,
  has_event_been_processed, keeps_writes,
}
use processing_catalog.UseCase.Create.{valid_correlation_id, CreateInput, replayed, execute}
use processing_catalog.UseCase.Delivery.Spec.{handle, deliver}
use processing_catalog.UseCase.Delivery.Refines.{handle-deliver}
use processing_catalog.Catalog.Consistent.{IsConsistent}
use processing_catalog.Catalog.Unique.{AreUnique}
use processing_catalog.Catalog.Run.{
  IsSound-empty, Run-IsSound, Run, here, delivered, created, Run-IsConsistent, Run-AreUnique,
}
use processing_catalog.Catalog.Replay.{IsAcceptable, create_race, create_replay, replay_answer}
use processing_catalog.UseCase.Create.Outcomes.{create}
use processing_catalog.Catalog.Deliver.{IsSound}
use processing_catalog.UseCase.Delivery.Once.{handle-handle, handle-err, handle_of_IsSeen}
use processing_catalog.Examples.Data.{
  upload, fresh, waiting, acceptance, completion, first, second, third, stay,
}

life : Run empty third
unfolding get
life =
    delivered rolls_back completion
      (delivered rolls_back acceptance (created rolls_back "r-1" 1000 upload here here refl) here)
      here

Run-IsConsistent_example : IsConsistent third
Run-IsConsistent_example = Run-IsConsistent life

Run-AreUnique_example : AreUnique third.requests
Run-AreUnique_example = Run-AreUnique life

handle-deliver_example :
    handle rolls_back (λ _. first) acceptance first ≡ deliver (λ _. first) acceptance first
handle-deliver_example = handle-deliver rolls_back (λ _. first) acceptance first

runs : Unit {0}
unfolding execute save add mark_event_processed find_by_event_id find_by_owner_and_idempotency_key
    find_by_owner_and_source owned_by update find_for_update has_event_been_processed handle
    create_processing_request accept_processing_request complete_processing_request is_stale_attempt
    is_unchanged get has set values is_missing valid_correlation_id
runs = tt

stored_first : get "r-1" first.requests ≡ some fresh
unfolding runs
stored_first = refl

accepted_once : handle rolls_back (λ _. first) acceptance first ≡ (ok waiting, second)
unfolding runs
accepted_once = refl

-- The acceptance again, and a completion that bears its event id.
handle-handle_example :
    ((handle rolls_back stay acceptance second).1 ≡ second)
    ⊎ ((handle rolls_back stay acceptance second).1 ≡ second)
handle-handle_example =
    handle-handle rolls_back (λ _. first) stay acceptance acceptance first second waiting
      accepted_once refl (λ seen. seen)

-- Two deliveries of the acceptance race, and the other one commits first.
seen_second : has "v-1" second.event_id_to_request_id ≡ true
unfolding runs
seen_second = refl

handle_of_IsSeen_example :
    ((handle keeps_writes (λ _. second) acceptance first).1 ≡ first)
    ⊎ ((handle keeps_writes (λ _. second) acceptance first).1 ≡ second)
handle_of_IsSeen_example = handle_of_IsSeen keeps_writes (λ _. second) acceptance first seen_second

-- A completion of a request that no one created.
unknown_request :
    handle keeps_writes stay completion empty
    ≡ (err (domain_error "Processing request r-1 not found"), empty)
unfolding runs
unknown_request = refl

handle-err_example : (empty ≡ empty) ⊎ (empty ≡ empty)
handle-err_example =
    handle-err keeps_writes stay completion empty empty
      (domain_error "Processing request r-1 not found") unknown_request

first-IsSound : IsSound first
unfolding get
first-IsSound = Run-IsSound (created rolls_back "r-1" 1000 upload here here refl) IsSound-empty

-- The same source, under another key.
abbrev other_key : CreateInput
other_key = record upload { event_id = "e-9"; idempotency_key = "k-9" }

other_key-IsAcceptable : IsAcceptable other_key first
unfolding runs
other_key-IsAcceptable = record {
  event_id = refl;
  idempotency_key = refl;
  correlation_id = none;
  correlation_ok = refl;
  owner_user_id = refl;
  owner_email = refl;
  source_storage_key = refl;
  unseen = refl;
}

no_other_key : find_by_owner_and_idempotency_key "ann" "k-9" first ≡ (ok none, first)
unfolding runs
no_other_key = refl

create_replay_example :
    create rolls_back stay "r-9" 5000 other_key first ≡ (replay_answer fresh other_key, first)
create_replay_example =
    create_replay rolls_back stay "r-9" 5000 other_key first "r-1" fresh first-IsSound
      other_key-IsAcceptable stored_first refl (inr (refl, no_other_key))

-- The creation that read the empty state, after another one committed the upload: the same source
-- under another event id and another key.
abbrev again : CreateInput
again = record upload { event_id = "e-5"; idempotency_key = "k-2" }

again-IsAcceptable : IsAcceptable again empty
unfolding runs
again-IsAcceptable = record {
  event_id = refl;
  idempotency_key = refl;
  correlation_id = none;
  correlation_ok = refl;
  owner_user_id = refl;
  owner_email = refl;
  source_storage_key = refl;
  unseen = refl;
}

nothing_there :
    (find_by_owner_and_idempotency_key "ann" "k-2" empty ≡ (ok none, empty))
    × (find_by_owner_and_source "ann" "uploads/a.mp4" empty ≡ (ok none, empty))
    × (find_by_owner_and_idempotency_key "ann" "k-2" first ≡ (ok none, first))
unfolding runs
nothing_there = (refl, refl, refl)

create_race_example :
    create rolls_back (λ _. first) "r-9" 5000 again empty
    ≡ (ok (record { request = fresh; outcome = replayed }), first)
create_race_example =
    create_race rolls_back (λ _. first) "r-9" 5000 again empty "r-1" fresh again-IsAcceptable
      nothing_there.0 nothing_there.1 first-IsSound stored_first refl (inr (refl, nothing_there.2))

-- A body without an owner is refused.
no_owner : is_created (post rolls_back stay "e-9" "r-9" 5000 Fields.end first).0 ≡ false
unfolding http_create validate_dto require_string get_field
no_owner = refl

create-unwritten_example :
    ((post rolls_back stay "e-9" "r-9" 5000 Fields.end first).1 ≡ first)
    ⊎ ((post rolls_back stay "e-9" "r-9" 5000 Fields.end first).1 ≡ first)
create-unwritten_example =
    create-unwritten rolls_back stay "e-9" "r-9" 5000 Fields.end first no_owner
