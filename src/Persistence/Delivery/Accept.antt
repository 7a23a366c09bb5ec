-- ===== src/Persistence/Delivery/Accept.antt =====
-- src/application/accept-processing-request.use-case.ts over PostgreSQL and in memory.
use processing_catalog.Prelude.{ℕ, String, ◌≡◌, refl, true, false, some, All, Option, none, ◌==◌}
use processing_catalog.Map.{get}
use processing_catalog.Persistence.Manager.{EntityManager}
use processing_catalog.Repository.{TransactionContext}
use processing_catalog.Persistence.Database.{Tables, IsDatabase}
use processing_catalog.Persistence.Columns.{fits_row, fits_text, fits_uuid}
use processing_catalog.Domain.Request.{ProcessingRequest}
use processing_catalog.Persistence.TypeOrm.{to_row, typeorm_unit_of_work, typeorm_repository}
use processing_catalog.Memory.Store.{
  Memory, in_memory_context, in_memory_repository, unit_of_work, rolls_back,
}
use processing_catalog.Persistence.View.{tables_of, Agrees, IsKeyed}
use processing_catalog.UseCase.Accept.{AcceptInput}
use processing_catalog.UseCase.Accept
use processing_catalog.Persistence.Delivery.AcceptFound.{found-Agrees}
use processing_catalog.Persistence.Delivery.Flow.{
  looked, looked-Agrees, locked-Agrees, guarded-Agrees,
}

module _ {S : Type 0} (manager : EntityManager S) (view : S → Tables) (now : ℕ)
    (database : IsDatabase manager view) (between : S → S) (meanwhile : Memory → Memory)
    (attempt_uuid event_uuid : String) (input : AcceptInput)
    (fits_event : fits_text input.event_id ≡ true) (fits_attempt : fits_uuid attempt_uuid ≡ true)
    (fits_uuid_text : fits_text event_uuid ≡ true)
    (fits_time : fits_text input.occurred_at ≡ true) where
  abbrev context : TransactionContext S
  context = (typeorm_unit_of_work manager now between).context

  absent-Agrees :
      (t : S) (n : Memory)
      → view t ≡ tables_of n
      → Agrees view
          (Accept.on_found
            (typeorm_repository manager now)
            (typeorm_unit_of_work manager now between)
            attempt_uuid
            event_uuid
            now
            input
            context
            none
            t)
          (Accept.on_found in_memory_repository
            (unit_of_work rolls_back meanwhile)
            attempt_uuid
            event_uuid
            now
            input
            in_memory_context
            none
            n)
  unfolding Accept.on_found
  absent-Agrees t n same = (refl, same)

  module _ (s : S) (m : Memory) (related : view s ≡ tables_of m)
      (met : (t : S) → view t ≡ tables_of m → view (between t) ≡ tables_of (meanwhile m))
      (keyed : IsKeyed m.requests) (kept : IsKeyed (meanwhile m).requests)
      (stored : All (λ e. fits_row (to_row e.1) ≡ true) (meanwhile m).requests)
      (fits_id : fits_uuid input.processing_request_id ≡ true) where
    begun-Agrees :
        (x : Option ProcessingRequest) (t : S)
        → view t ≡ tables_of m
        → Agrees view
            (Accept.in_transaction
              (typeorm_repository manager now)
              (typeorm_unit_of_work manager now between)
              attempt_uuid
              event_uuid
              now
              input
              x
              t)
            (Accept.in_transaction in_memory_repository
              (unit_of_work rolls_back meanwhile)
              attempt_uuid
              event_uuid
              now
              input
              x
              m)
    unfolding Accept.in_transaction
    begun-Agrees (some r) t same = (refl, same)
    begun-Agrees none t same =
        locked-Agrees manager view now database between meanwhile m input.processing_request_id
          fits_id kept stored met
          (Accept.on_found (typeorm_repository manager now)
            (typeorm_unit_of_work manager now between) attempt_uuid event_uuid now input)
          (Accept.on_found in_memory_repository (unit_of_work rolls_back meanwhile) attempt_uuid
            event_uuid now input)
          (λ u. absent-Agrees u (meanwhile m))
          (λ u r same there fits_own fits.
            found-Agrees manager view now database between meanwhile attempt_uuid event_uuid input
              fits_event fits_attempt fits_uuid_text fits_time u (meanwhile m) r same kept there
              fits)
          t same

    -- An acceptance over PostgreSQL is one in memory with transactions that roll back.
    pub accept-Agrees :
        ((x : String)
          → get input.event_id m.event_id_to_request_id ≡ some x
          → (x == "") ≡ false
          → fits_uuid x ≡ true)
        → Agrees view
            (Accept.execute
              (typeorm_repository manager now)
              (typeorm_unit_of_work manager now between)
              attempt_uuid
              event_uuid
              now
              input
              s)
            (Accept.execute in_memory_repository
              (unit_of_work rolls_back meanwhile)
              attempt_uuid
              event_uuid
              now
              input
              m)
    unfolding Accept.execute looked
    accept-Agrees recorded =
        let begin =
          Accept.in_transaction (typeorm_repository manager now)
            (typeorm_unit_of_work manager now between) attempt_uuid event_uuid now input in
        let begin' =
          Accept.in_transaction in_memory_repository (unit_of_work rolls_back meanwhile)
            attempt_uuid event_uuid now input in
        let rest = looked (typeorm_repository manager now) input.event_id begin in
        let rest' = looked in_memory_repository input.event_id begin' in
        guarded-Agrees view input.event_id input.processing_request_id rest rest' s m related (
          looked-Agrees manager view now database between meanwhile m input.event_id fits_event
            keyed recorded begin begin' begun-Agrees s related)
