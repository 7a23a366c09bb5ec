-- ===== src/Persistence/Delivery/CompleteFound.antt =====
-- The transaction of src/application/complete-processing-request.use-case.ts, once its request is found.
use processing_catalog.Persistence.Delivery.Flow.{marks-Agree, again-Agrees}
use processing_catalog.Prelude.{
  ℕ, ◌≡◌, refl, true, false, some, if◌then◌else◌, String, Bool-cases, inl, inr,
}
use processing_catalog.Outcome.{ok}
use processing_catalog.Map.{get, has}
use processing_catalog.Persistence.Manager.{EntityManager}
use processing_catalog.Repository.{TransactionContext, Repository, UnitOfWork}
use processing_catalog.Domain.Transitions.{
  complete_processing_request, Returned, is_unchanged, request_of, same_object, new_object,
  is_stale_attempt,
}
use processing_catalog.Persistence.Database.{Tables, IsDatabase}
use processing_catalog.Persistence.Columns.{fits_row, fits_text, fits_uuid}
use processing_catalog.Domain.Request.{ProcessingRequest}
use processing_catalog.Action.{Action, lift}
use processing_catalog.Persistence.TypeOrm.{to_row, typeorm_unit_of_work, typeorm_repository}
use processing_catalog.Memory.Store.{
  Memory, in_memory_context, in_memory_repository, unit_of_work, rolls_back,
}
use processing_catalog.Persistence.View.{tables_of, Agrees, IsKeyed}
use processing_catalog.Persistence.Delivery.{then-Agrees}
use processing_catalog.UseCase.Complete.{CompleteInput, completed_payload}
use processing_catalog.UseCase.Complete
use processing_catalog.UseCase.Routes.{terminal_event}
use processing_catalog.Persistence.Delivery.Announced.{announced, announced-Agrees, terminal-fits}
use processing_catalog.Persistence.Delivery.Texts.{complete-fits, complete-SameIdentity}
use processing_catalog.Persistence.Delivery.Payload.{row-fits, completed-fits}

-- What the use case does with a request that was completed.
ended :
    {S : Type 0}
    → Repository S
    → UnitOfWork S
    → String
    → ℕ
    → CompleteInput
    → TransactionContext S
    → Returned
    → Action S ProcessingRequest
ended repository uow event_uuid now input ctx out =
    if is_unchanged out
    then Complete.record_seen repository uow event_uuid now input ctx (request_of out)
    else Complete.write repository uow event_uuid now input ctx (request_of out)

module _ {S : Type 0} (manager : EntityManager S) (view : S → Tables) (now : ℕ)
    (database : IsDatabase manager view) (between : S → S) (meanwhile : Memory → Memory)
    (event_uuid : String) (input : CompleteInput) (fits_event : fits_text input.event_id ≡ true)
    (fits_uuid_text : fits_text event_uuid ≡ true) (fits_time : fits_text input.occurred_at ≡ true)
    (fits_key : fits_text input.zip_storage_key ≡ true) where
  abbrev context : TransactionContext S
  context = (typeorm_unit_of_work manager now between).context

  -- A completion that the request allows, or that changes nothing of it.
  moved-Agrees :
      (t : S) (n : Memory) (r : ProcessingRequest) (out : Returned)
      → view t ≡ tables_of n
      → IsKeyed n.requests
      → get r.processing_request_id n.requests ≡ some r
      → fits_row (to_row r) ≡ true
      → has input.event_id n.event_id_to_request_id ≡ false
      → complete_processing_request now r input.zip_storage_key ≡ ok out
      → Agrees view
          (ended
            (typeorm_repository manager now)
            (typeorm_unit_of_work manager now between)
            event_uuid
            now
            input
            context
            out
            t)
          (ended in_memory_repository
            (unit_of_work rolls_back meanwhile)
            event_uuid
            now
            input
            in_memory_context
            out
            n)
  unfolding ended is_unchanged Complete.record_seen Complete.write announced
  moved-Agrees t n r (same_object q) related keyed there fits fresh e =
      marks-Agree manager view now database between meanwhile input.event_id fits_event t n q
        related
        (row-fits q (complete-fits now r input.zip_storage_key (same_object q) e fits_key fits)).0
        fresh
  moved-Agrees t n r (new_object q) related keyed there fits fresh e =
      let fits_new = complete-fits now r input.zip_storage_key (new_object q) e fits_key fits in
      announced-Agrees manager view now database between meanwhile input.event_id fits_event
        terminal_event terminal-fits t n r q (completed_payload event_uuid input.occurred_at q)
        related keyed there (complete-SameIdentity now r input.zip_storage_key (new_object q) e)
        fits_new (completed-fits event_uuid input.occurred_at q fits_uuid_text fits_time fits_new)
        fresh

  applies-Agree :
      (t : S) (n : Memory) (r : ProcessingRequest)
      → view t ≡ tables_of n
      → IsKeyed n.requests
      → get r.processing_request_id n.requests ≡ some r
      → fits_uuid r.processing_request_id ≡ true
      → fits_row (to_row r) ≡ true
      → has input.event_id n.event_id_to_request_id ≡ false
      → Agrees view
          (Complete.apply_to
            (typeorm_repository manager now)
            (typeorm_unit_of_work manager now between)
            event_uuid
            now
            input
            context
            r
            t)
          (Complete.apply_to in_memory_repository
            (unit_of_work rolls_back meanwhile)
            event_uuid
            now
            input
            in_memory_context
            r
            n)
  unfolding Complete.apply_to ended
  applies-Agree t n r related keyed there fits_id fits fresh =
      then-Agrees view (lift (complete_processing_request now r input.zip_storage_key))
        (lift (complete_processing_request now r input.zip_storage_key))
        (ended (typeorm_repository manager now) (typeorm_unit_of_work manager now between)
          event_uuid now input context)
        (ended in_memory_repository (unit_of_work rolls_back meanwhile) event_uuid now input
          in_memory_context)
        t n (refl, related) (λ out e. moved-Agrees t n r out related keyed there fits fresh e)

  pub found-Agrees :
      (t : S) (n : Memory) (r : ProcessingRequest)
      → view t ≡ tables_of n
      → IsKeyed n.requests
      → get r.processing_request_id n.requests ≡ some r
      → fits_uuid r.processing_request_id ≡ true
      → fits_row (to_row r) ≡ true
      → Agrees view
          (Complete.on_found
            (typeorm_repository manager now)
            (typeorm_unit_of_work manager now between)
            event_uuid
            now
            input
            context
            (some r)
            t)
          (Complete.on_found in_memory_repository
            (unit_of_work rolls_back meanwhile)
            event_uuid
            now
            input
            in_memory_context
            (some r)
            n)
  unfolding Complete.on_found Complete.record_seen
  found-Agrees t n r related keyed there fits_id fits =
      again-Agrees manager view now database between meanwhile input.event_id fits_event t n r _ _
        related keyed
        (λ u same fresh. elim (Bool-cases (is_stale_attempt r (some input.attempt_id))) [
          | inl stale ↦ rw stale (
              marks-Agree manager view now database between meanwhile input.event_id fits_event u n
                r same fits_id fresh)
          | inr current ↦ rw current (applies-Agree u n r same keyed there fits_id fits fresh)
        ])
