-- ===== src/Persistence/Delivery/Fail.antt =====
-- src/application/fail-processing-request.use-case.ts over PostgreSQL and in memory.
use processing_catalog.Prelude.{ℕ, String, ◌≡◌, refl, true, false, some, All, Option, none, ◌==◌}
use processing_catalog.Map.{get}
use processing_catalog.Persistence.Manager.{EntityManager}
use processing_catalog.Repository.{TransactionContext}
use processing_catalog.Persistence.Database.{Tables, IsDatabase}
use processing_catalog.Persistence.Columns.{fits_row, fits_text, fits_uuid}
use processing_catalog.Domain.Request.{ProcessingRequest, FailureCode}
use processing_catalog.Persistence.TypeOrm.{to_row, typeorm_unit_of_work, typeorm_repository}
use processing_catalog.Memory.Store.{
  Memory, in_memory_context, in_memory_repository, unit_of_work, rolls_back,
}
use processing_catalog.Persistence.View.{tables_of, Agrees, IsKeyed}
use processing_catalog.UseCase.Fail.{FailInput}
use processing_catalog.UseCase.Fail
use processing_catalog.Persistence.Delivery.FailFound.{found-Agrees}
use processing_catalog.Action.{◌>>=◌, lift}
use processing_catalog.Persistence.Delivery.{then-Agrees}
use processing_catalog.Domain.Transitions.{known_failure_code}
use processing_catalog.Persistence.Delivery.Flow.{
  looked, looked-Agrees, locked-Agrees, guarded-Agrees,
}

module _ {S : Type 0} (manager : EntityManager S) (view : S → Tables) (now : ℕ)
    (database : IsDatabase manager view) (between : S → S) (meanwhile : Memory → Memory)
    (event_uuid : String) (input : FailInput) (fits_event : fits_text input.event_id ≡ true)
    (fits_uuid_text : fits_text event_uuid ≡ true)
    (fits_time : fits_text input.occurred_at ≡ true) where
  abbrev context : TransactionContext S
  context = (typeorm_unit_of_work manager now between).context

  absent-Agrees :
      (code : FailureCode) (t : S) (n : Memory)
      → view t ≡ tables_of n
      → Agrees view
          (Fail.on_found
            (typeorm_repository manager now)
            (typeorm_unit_of_work manager now between)
            event_uuid
            now
            input
            code
            context
            none
            t)
          (Fail.on_found in_memory_repository
            (unit_of_work rolls_back meanwhile)
            event_uuid
            now
            input
            code
            in_memory_context
            none
            n)
  unfolding Fail.on_found
  absent-Agrees code t n same = (refl, same)

  module _ (s : S) (m : Memory) (related : view s ≡ tables_of m)
      (met : (t : S) → view t ≡ tables_of m → view (between t) ≡ tables_of (meanwhile m))
      (keyed : IsKeyed m.requests) (kept : IsKeyed (meanwhile m).requests)
      (stored : All (λ e. fits_row (to_row e.1) ≡ true) (meanwhile m).requests)
      (fits_id : fits_uuid input.processing_request_id ≡ true) where
    begun-Agrees :
        (code : FailureCode) (x : Option ProcessingRequest) (t : S)
        → view t ≡ tables_of m
        → Agrees view
            (Fail.in_transaction
              (typeorm_repository manager now)
              (typeorm_unit_of_work manager now between)
              event_uuid
              now
              input
              code
              x
              t)
            (Fail.in_transaction in_memory_repository
              (unit_of_work rolls_back meanwhile)
              event_uuid
              now
              input
              code
              x
              m)
    unfolding Fail.in_transaction
    begun-Agrees code (some r) t same = (refl, same)
    begun-Agrees code none t same =
        locked-Agrees manager view now database between meanwhile m input.processing_request_id
          fits_id kept stored met
          (Fail.on_found (typeorm_repository manager now) (typeorm_unit_of_work manager now between)
            event_uuid now input code)
          (Fail.on_found in_memory_repository (unit_of_work rolls_back meanwhile) event_uuid now
            input code)
          (λ u. absent-Agrees code u (meanwhile m))
          (λ u r same there fits_own fits.
            found-Agrees manager view now database between meanwhile event_uuid input fits_event
              fits_uuid_text fits_time code u (meanwhile m) r same kept there fits_own fits)
          t same

    -- A failure over PostgreSQL is one in memory with transactions that roll back.
    pub fail-Agrees :
        ((x : String)
          → get input.event_id m.event_id_to_request_id ≡ some x
          → (x == "") ≡ false
          → fits_uuid x ≡ true)
        → Agrees view
            (Fail.execute
              (typeorm_repository manager now)
              (typeorm_unit_of_work manager now between)
              event_uuid
              now
              input
              s)
            (Fail.execute in_memory_repository
              (unit_of_work rolls_back meanwhile)
              event_uuid
              now
              input
              m)
    unfolding Fail.execute looked
    fail-Agrees recorded =
        let begin = λ (code : FailureCode).
          Fail.in_transaction (typeorm_repository manager now)
            (typeorm_unit_of_work manager now between) event_uuid now input code in
        let begin' = λ (code : FailureCode).
          Fail.in_transaction in_memory_repository (unit_of_work rolls_back meanwhile) event_uuid
            now input code in
        let rest = λ (code : FailureCode).
          looked (typeorm_repository manager now) input.event_id (begin code) in
        let rest' =
          λ (code : FailureCode). looked in_memory_repository input.event_id (begin' code) in
        guarded-Agrees view input.event_id input.processing_request_id
          (lift (known_failure_code input.failure_code) >>= rest)
          (lift (known_failure_code input.failure_code) >>= rest') s m related
          (then-Agrees view (lift (known_failure_code input.failure_code))
            (lift (known_failure_code input.failure_code)) rest rest' s m (refl, related)
            (λ code e.
              looked-Agrees manager view now database between meanwhile m input.event_id fits_event
                keyed recorded (begin code) (begin' code) (begun-Agrees code) s related))
