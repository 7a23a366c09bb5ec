-- ===== src/Persistence/Delivery/FailFound.antt =====
-- The transaction of src/application/fail-processing-request.use-case.ts, once its request is found.
use processing_catalog.UseCase.Fail
use processing_catalog.UseCase.Fail.{FailInput, failed_payload, is_processing}
use processing_catalog.Persistence.TypeOrm.{to_row, typeorm_unit_of_work, typeorm_repository}
use processing_catalog.Persistence.Manager.{EntityManager}
use processing_catalog.Prelude.{
  String, ℕ, ◌≡◌, true, some, false, Bool-cases, ◌&&◌, refl, ◌∙◌, inl, inr,
}
use processing_catalog.Persistence.Database.{Tables, IsDatabase}
use processing_catalog.Domain.Request.{FailureCode, ProcessingRequest}
use processing_catalog.Repository.{TransactionContext}
use processing_catalog.Domain.Transitions.{Returned, request_of, is_stale_attempt}
use processing_catalog.Action.{Action, lift}
use processing_catalog.Persistence.Columns.{fits_text, fits_uuid, fits_row}
use processing_catalog.Persistence.Delivery.Announced.{announced, announced-Agrees, terminal-fits}
use processing_catalog.Persistence.View.{tables_of, IsKeyed, Agrees}
use processing_catalog.UseCase.Routes.{terminal_event}
use processing_catalog.Outcome.{Result, ok}
use processing_catalog.Persistence.Delivery.Texts.{
  end_in_failure, failure-fits, failure-SameIdentity,
}
use processing_catalog.Map.{get, has}
use processing_catalog.Persistence.Delivery.Flow.{again-Agrees, marks-Agree}
use processing_catalog.Persistence.Delivery.{then-Agrees}
use processing_catalog.Persistence.Delivery.Payload.{failed-fits}
use processing_catalog.Memory.Store.{
  Memory, in_memory_context, in_memory_repository, unit_of_work, rolls_back,
}

-- What the use case does with a request that has failed.
moved :
    {S : Type 0}
    → String
    → FailInput
    → FailureCode
    → TransactionContext S
    → Returned
    → Action S ProcessingRequest
moved event_uuid input code ctx out =
    announced ctx input.event_id terminal_event
      (failed_payload event_uuid input.occurred_at code (request_of out)) (request_of out)

module _ {S : Type 0} (manager : EntityManager S) (view : S → Tables) (now : ℕ)
    (database : IsDatabase manager view) (between : S → S) (meanwhile : Memory → Memory)
    (event_uuid : String) (input : FailInput) (fits_event : fits_text input.event_id ≡ true)
    (fits_uuid_text : fits_text event_uuid ≡ true) (fits_time : fits_text input.occurred_at ≡ true)
    (code : FailureCode) where
  abbrev context : TransactionContext S
  context = (typeorm_unit_of_work manager now between).context

  abbrev change : ProcessingRequest → Result Returned
  change r = end_in_failure (is_processing input.origin) now r input.failure_code

  moved-Agrees :
      (t : S) (n : Memory) (r : ProcessingRequest) (out : Returned)
      → view t ≡ tables_of n
      → IsKeyed n.requests
      → get r.processing_request_id n.requests ≡ some r
      → fits_row (to_row r) ≡ true
      → has input.event_id n.event_id_to_request_id ≡ false
      → change r ≡ ok out
      → Agrees view
          (moved event_uuid input code context out t)
          (moved event_uuid input code in_memory_context out n)
  unfolding moved
  moved-Agrees t n r out related keyed there fits fresh e =
      let own = is_processing input.origin in
      let fits_new = failure-fits own now r input.failure_code out e ∙ fits in
      announced-Agrees manager view now database between meanwhile input.event_id fits_event
        terminal_event terminal-fits t n r (request_of out)
        (failed_payload event_uuid input.occurred_at code (request_of out)) related keyed there
        (failure-SameIdentity own now r input.failure_code out e) fits_new
        (failed-fits event_uuid input.occurred_at code (request_of out) fits_uuid_text fits_time
          fits_new)
        fresh

  applies-Agree :
      (t : S) (n : Memory) (r : ProcessingRequest)
      → view t ≡ tables_of n
      → IsKeyed n.requests
      → get r.processing_request_id n.requests ≡ some r
      → fits_row (to_row r) ≡ true
      → has input.event_id n.event_id_to_request_id ≡ false
      → Agrees view
          (Fail.apply_to
            (typeorm_repository manager now)
            (typeorm_unit_of_work manager now between)
            event_uuid
            now
            input
            code
            context
            r
            t)
          (Fail.apply_to in_memory_repository
            (unit_of_work rolls_back meanwhile)
            event_uuid
            now
            input
            code
            in_memory_context
            r
            n)
  unfolding Fail.apply_to moved announced
  applies-Agree t n r related keyed there fits fresh =
      then-Agrees view (lift (change r)) (lift (change r)) (moved event_uuid input code context)
        (moved event_uuid input code in_memory_context) t n (refl, related)
        (λ out e. moved-Agrees t n r out related keyed there fits fresh e)

  pub found-Agrees :
      (t : S) (n : Memory) (r : ProcessingRequest)
      → view t ≡ tables_of n
      → IsKeyed n.requests
      → get r.processing_request_id n.requests ≡ some r
      → fits_uuid r.processing_request_id ≡ true
      → fits_row (to_row r) ≡ true
      → Agrees view
          (Fail.on_found
            (typeorm_repository manager now)
            (typeorm_unit_of_work manager now between)
            event_uuid
            now
            input
            code
            context
            (some r)
            t)
          (Fail.on_found in_memory_repository
            (unit_of_work rolls_back meanwhile)
            event_uuid
            now
            input
            code
            in_memory_context
            (some r)
            n)
  unfolding Fail.on_found Fail.record_seen
  found-Agrees t n r related keyed there fits_id fits =
      again-Agrees manager view now database between meanwhile input.event_id fits_event t n r _ _
        related keyed
        (λ u same fresh.
          elim (Bool-cases (is_processing input.origin && is_stale_attempt r input.attempt_id)) [
            | inl stale ↦ rw stale (
                marks-Agree manager view now database between meanwhile input.event_id fits_event u
                  n r same fits_id fresh)
            | inr current ↦ rw current (applies-Agree u n r same keyed there fits fresh)
          ])
