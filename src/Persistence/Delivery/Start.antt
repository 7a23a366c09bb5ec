-- ===== src/Persistence/Delivery/Start.antt =====
-- src/application/start-processing-request.use-case.ts over PostgreSQL and in memory.
use processing_catalog.Prelude.{ℕ, String, ◌≡◌, refl, true, false, some, All, Option, none, ◌==◌}
use processing_catalog.Map.{get}
use processing_catalog.Persistence.Manager.{EntityManager}
use processing_catalog.Repository.{TransactionContext}
use processing_catalog.Persistence.Database.{Tables, IsDatabase}
use processing_catalog.Persistence.Columns.{fits_row, fits_text, fits_uuid}
use processing_catalog.Domain.Request.{ProcessingRequest}
use processing_catalog.Persistence.TypeOrm.{to_row, typeorm_unit_of_work, typeorm_repository}
use processing_catalog.Memory.Store.{
  Memory, in_memory_context, in_memory_repository, unit_of_work, rolls_back,
}
use processing_catalog.Persistence.View.{tables_of, Agrees, IsKeyed}
use processing_catalog.UseCase.Start.{StartInput}
use processing_catalog.UseCase.Start
use processing_catalog.Persistence.Delivery.StartFound.{found-Agrees}
use processing_catalog.Persistence.Delivery.Flow.{
  looked, looked-Agrees, locked-Agrees, guarded-Agrees,
}

module _ {S : Type 0} (manager : EntityManager S) (view : S → Tables) (now : ℕ)
    (database : IsDatabase manager view) (between : S → S) (meanwhile : Memory → Memory)
    (input : StartInput) (fits_event : fits_text input.event_id ≡ true) where
  abbrev context : TransactionContext S
  context = (typeorm_unit_of_work manager now between).context

  absent-Agrees :
      (t : S) (n : Memory)
      → view t ≡ tables_of n
      → Agrees view
          (Start.on_found
            (typeorm_repository manager now)
            (typeorm_unit_of_work manager now between)
            now
            input
            context
            none
            t)
          (Start.on_found in_memory_repository
            (unit_of_work rolls_back meanwhile)
            now
            input
            in_memory_context
            none
            n)
  unfolding Start.on_found
  absent-Agrees t n same = (refl, same)

  module _ (s : S) (m : Memory) (related : view s ≡ tables_of m)
      (met : (t : S) → view t ≡ tables_of m → view (between t) ≡ tables_of (meanwhile m))
      (keyed : IsKeyed m.requests) (kept : IsKeyed (meanwhile m).requests)
      (stored : All (λ e. fits_row (to_row e.1) ≡ true) (meanwhile m).requests)
      (fits_id : fits_uuid input.processing_request_id ≡ true) where
    begun-Agrees :
        (x : Option ProcessingRequest) (t : S)
        → view t ≡ tables_of m
        → Agrees view
            (Start.in_transaction
              (typeorm_repository manager now)
              (typeorm_unit_of_work manager now between)
              now
              input
              x
              t)
            (Start.in_transaction in_memory_repository
              (unit_of_work rolls_back meanwhile)
              now
              input
              x
              m)
    unfolding Start.in_transaction
    begun-Agrees (some r) t same = (refl, same)
    begun-Agrees none t same =
        locked-Agrees manager view now database between meanwhile m input.processing_request_id
          fits_id kept stored met
          (Start.on_found (typeorm_repository manager now)
            (typeorm_unit_of_work manager now between) now input)
          (Start.on_found in_memory_repository (unit_of_work rolls_back meanwhile) now input)
          (λ u. absent-Agrees u (meanwhile m))
          (λ u r same there fits_own fits.
            found-Agrees manager view now database between meanwhile input fits_event u
              (meanwhile m) r same kept there fits_own fits)
          t same

    -- Starting a processing over PostgreSQL is starting it in memory with transactions that roll
    -- back: the same answer or error, and tables that stand for the memory left. The entity manager
    -- is one of a database; the tables stand for the memory at the start, and what other executions
    -- commit before the transaction keeps that so; the requests have distinct ids, stand under them,
    -- and their texts fit their columns, as do the event's id, the request's id and, if not empty,
    -- the request id that the event was recorded with.
    pub start-Agrees :
        ((x : String)
          → get input.event_id m.event_id_to_request_id ≡ some x
          → (x == "") ≡ false
          → fits_uuid x ≡ true)
        → Agrees view
            (Start.execute
              (typeorm_repository manager now)
              (typeorm_unit_of_work manager now between)
              now
              input
              s)
            (Start.execute in_memory_repository (unit_of_work rolls_back meanwhile) now input m)
    unfolding Start.execute looked
    start-Agrees recorded =
        let begin =
          Start.in_transaction (typeorm_repository manager now)
            (typeorm_unit_of_work manager now between) now input in
        let begin' =
          Start.in_transaction in_memory_repository (unit_of_work rolls_back meanwhile) now input in
        guarded-Agrees view input.event_id input.processing_request_id
          (looked (typeorm_repository manager now) input.event_id begin)
          (looked in_memory_repository input.event_id begin') s m related
          (looked-Agrees manager view now database between meanwhile m input.event_id fits_event
            keyed recorded begin begin' begun-Agrees s related)
