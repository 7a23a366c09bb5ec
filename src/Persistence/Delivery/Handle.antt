-- ===== src/Persistence/Delivery/Handle.antt =====
-- The use case that an event's consumer calls, over PostgreSQL and in memory.
use processing_catalog.UseCase.Delivery.Spec.{
  Event, accepted, started, completed, failed, dispatch, handle,
}
use processing_catalog.Prelude.{ℕ, ◌≡◌, true, arith}
use processing_catalog.Persistence.Manager.{EntityManager}
use processing_catalog.Persistence.Database.{Tables, IsDatabase}
use processing_catalog.Action.{Action}
use processing_catalog.Memory.Store.{Memory, rolls_back}
use processing_catalog.Domain.Request.{ProcessingRequest}
use processing_catalog.Persistence.View.{tables_of, Agrees}
use processing_catalog.Persistence.Storable.{IsStorable, fits_event}
use processing_catalog.Persistence.Delivery.Accept.{accept-Agrees}
use processing_catalog.Persistence.Delivery.Start.{start-Agrees}
use processing_catalog.Persistence.Delivery.Complete.{complete-Agrees}
use processing_catalog.Persistence.Delivery.Fail.{fail-Agrees}
use processing_catalog.Persistence.TypeOrm.{typeorm_unit_of_work, typeorm_repository}

-- The answer of new Date() in the handling of an event.
abbrev pub time : Event → ℕ
time (accepted attempt_uuid event_uuid now input) = now
time (started now input) = now
time (completed event_uuid now input) = now
time (failed event_uuid now input) = now

-- The use case that handles an event, over the TypeORM adapters.
unfoldable pub handle_stored :
    {S : Type 0} → EntityManager S → (S → S) → Event → Action S ProcessingRequest
handle_stored manager between e =
    dispatch (typeorm_repository manager (time e)) (typeorm_unit_of_work manager (time e) between) e

-- Handling an event over PostgreSQL is handling it in memory with transactions that roll back: the
-- same answer or error, and tables, the record of events and the outbox included, that stand for the
-- memory left. The entity manager is one of a database; the tables stand for the memory at the start,
-- and what other executions commit before the transaction keeps that so; the columns can hold both
-- memories and the texts of the event.
pub handle-Agrees :
    {S : Type 0} (manager : EntityManager S) (view : S → Tables) (between : S → S)
    (meanwhile : Memory → Memory) (e : Event) (s : S) (m : Memory)
    → IsDatabase manager view
    → view s ≡ tables_of m
    → ((t : S) → view t ≡ tables_of m → view (between t) ≡ tables_of (meanwhile m))
    → IsStorable m
    → IsStorable (meanwhile m)
    → fits_event e ≡ true
    → Agrees view (handle_stored manager between e s) (handle rolls_back meanwhile e m)
unfolding handle_stored handle
handle-Agrees manager view between meanwhile (accepted attempt_uuid event_uuid now input) s m
      database related met c d fits =
    accept-Agrees manager view now database between meanwhile attempt_uuid event_uuid input
      (ground arith) (ground arith) (ground arith) (ground arith) s m related met c.keyed d.keyed
      d.stored (ground arith) (c.recorded input.event_id)
handle-Agrees manager view between meanwhile (started now input) s m database related met c d fits =
    start-Agrees manager view now database between meanwhile input (ground arith) s m related met
      c.keyed d.keyed d.stored (ground arith) (c.recorded input.event_id)
handle-Agrees manager view between meanwhile (completed event_uuid now input) s m database related
      met c d fits =
    complete-Agrees manager view now database between meanwhile event_uuid input (ground arith)
      (ground arith) (ground arith) (ground arith) s m related met c.keyed d.keyed d.stored
      (ground arith) (c.recorded input.event_id)
handle-Agrees manager view between meanwhile (failed event_uuid now input) s m database related met
      c d fits =
    fail-Agrees manager view now database between meanwhile event_uuid input (ground arith)
      (ground arith) (ground arith) s m related met c.keyed d.keyed d.stored (ground arith)
      (c.recorded input.event_id)
