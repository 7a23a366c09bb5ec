-- ===== src/Persistence/Delivery/AcceptFound.antt =====
-- The transaction of src/application/accept-processing-request.use-case.ts, once its request is found.
use processing_catalog.UseCase.Accept
use processing_catalog.UseCase.Accept.{AcceptInput, queued_payload}
use processing_catalog.Persistence.TypeOrm.{to_row, typeorm_unit_of_work, typeorm_repository}
use processing_catalog.Persistence.Manager.{EntityManager}
use processing_catalog.Prelude.{String, ℕ, ◌≡◌, true, some, false, refl}
use processing_catalog.Repository.{TransactionContext}
use processing_catalog.Persistence.Database.{Tables, IsDatabase}
use processing_catalog.Domain.Transitions.{Returned, request_of, accept_processing_request}
use processing_catalog.Action.{Action, lift}
use processing_catalog.Persistence.Columns.{fits_text, fits_uuid, fits_row}
use processing_catalog.Domain.Request.{ProcessingRequest}
use processing_catalog.Persistence.Delivery.Announced.{
  announced, announced-Agrees, queued_route-fits,
}
use processing_catalog.UseCase.Routes.{processing_queued}
use processing_catalog.Persistence.View.{tables_of, IsKeyed, Agrees}
use processing_catalog.Map.{get, has}
use processing_catalog.Persistence.Delivery.Flow.{again-Agrees}
use processing_catalog.Persistence.Delivery.{then-Agrees}
use processing_catalog.Outcome.{ok}
use processing_catalog.Persistence.Delivery.Texts.{accept-fits, accept-SameIdentity}
use processing_catalog.Persistence.Delivery.Payload.{queued-fits}
use processing_catalog.Memory.Store.{
  Memory, in_memory_context, in_memory_repository, unit_of_work, rolls_back,
}

-- What the use case does with a request that was accepted.
moved :
    {S : Type 0}
    → String
    → AcceptInput
    → TransactionContext S
    → Returned
    → Action S ProcessingRequest
moved event_uuid input ctx out =
    announced ctx input.event_id processing_queued
      (queued_payload event_uuid input.occurred_at (request_of out)) (request_of out)

module _ {S : Type 0} (manager : EntityManager S) (view : S → Tables) (now : ℕ)
    (database : IsDatabase manager view) (between : S → S) (meanwhile : Memory → Memory)
    (attempt_uuid event_uuid : String) (input : AcceptInput)
    (fits_event : fits_text input.event_id ≡ true) (fits_attempt : fits_uuid attempt_uuid ≡ true)
    (fits_uuid_text : fits_text event_uuid ≡ true)
    (fits_time : fits_text input.occurred_at ≡ true) where
  abbrev context : TransactionContext S
  context = (typeorm_unit_of_work manager now between).context

  moved-Agrees :
      (t : S) (n : Memory) (r : ProcessingRequest) (out : Returned)
      → view t ≡ tables_of n
      → IsKeyed n.requests
      → get r.processing_request_id n.requests ≡ some r
      → fits_row (to_row r) ≡ true
      → has input.event_id n.event_id_to_request_id ≡ false
      → accept_processing_request attempt_uuid now r ≡ ok out
      → Agrees view
          (moved event_uuid input context out t)
          (moved event_uuid input in_memory_context out n)
  unfolding moved
  moved-Agrees t n r out related keyed there fits fresh e =
      let fits_new = accept-fits attempt_uuid now r out e fits_attempt fits in
      announced-Agrees manager view now database between meanwhile input.event_id fits_event
        processing_queued queued_route-fits t n r (request_of out)
        (queued_payload event_uuid input.occurred_at (request_of out)) related keyed there
        (accept-SameIdentity attempt_uuid now r out e) fits_new
        (queued-fits event_uuid input.occurred_at (request_of out) fits_uuid_text fits_time
          fits_new)
        fresh

  pub found-Agrees :
      (t : S) (n : Memory) (r : ProcessingRequest)
      → view t ≡ tables_of n
      → IsKeyed n.requests
      → get r.processing_request_id n.requests ≡ some r
      → fits_row (to_row r) ≡ true
      → Agrees view
          (Accept.on_found
            (typeorm_repository manager now)
            (typeorm_unit_of_work manager now between)
            attempt_uuid
            event_uuid
            now
            input
            context
            (some r)
            t)
          (Accept.on_found in_memory_repository
            (unit_of_work rolls_back meanwhile)
            attempt_uuid
            event_uuid
            now
            input
            in_memory_context
            (some r)
            n)
  unfolding Accept.on_found Accept.apply_to moved announced
  found-Agrees t n r related keyed there fits =
      again-Agrees manager view now database between meanwhile input.event_id fits_event t n r _ _
        related keyed
        (λ u same fresh.
          then-Agrees view (lift (accept_processing_request attempt_uuid now r))
            (lift (accept_processing_request attempt_uuid now r)) (moved event_uuid input context)
            (moved event_uuid input in_memory_context) u n (refl, same)
            (λ out e. moved-Agrees u n r out same keyed there fits fresh e))
