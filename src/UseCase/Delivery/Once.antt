-- ===== src/UseCase/Delivery/Once.antt =====
-- A consumed event is applied at most once, and one that is refused leaves nothing behind
-- (src/application, README.md "Deduplication by eventId").
use processing_catalog.Prelude.{◌≡◌, ◌⊎◌, true, Option, none, some, arith, eq_refl}
use processing_catalog.Map.{get, has, has-set}
use processing_catalog.Outcome.{Error, Result, ok, err}
use processing_catalog.Domain.Request.{ProcessingRequest}
use processing_catalog.Domain.Transitions.{Returned}
use processing_catalog.Memory.Store.{Memory, OnThrow}
use processing_catalog.UseCase.Delivery.Spec.{
  Event, event_id, request_id, transition, settle_transition, settle_locked, handle, deliver,
}
use processing_catalog.UseCase.Delivery.Refines.{handle-deliver}

abbrev pub IsSeen : Event → Memory → Type 0
IsSeen e s = has (event_id e) s.event_id_to_request_id ≡ true

settle_transition-IsSeen :
    (e : Event) (out : Result Returned) (s s' : Memory) (r : ProcessingRequest)
    → settle_transition e out s ≡ (ok r, s')
    → IsSeen e s'
settle_transition-IsSeen e out s s' r h = ground (
  arith,
  has-set (event_id e) (event_id e) r.processing_request_id s.event_id_to_request_id,
  eq_refl (event_id e),
)

settle_locked-IsSeen :
    (e : Event) (found : Option ProcessingRequest) (s s' : Memory) (r : ProcessingRequest)
    → settle_locked e found s ≡ (ok r, s')
    → IsSeen e s'
settle_locked-IsSeen e none s s' r h = ground arith
settle_locked-IsSeen e (some before) s s' r h = ground (
  arith,
  settle_transition-IsSeen e (transition e before) s s' r,
  has-set (event_id e) (event_id e) before.processing_request_id s.event_id_to_request_id,
  eq_refl (event_id e),
)

deliver-IsSeen :
    (meanwhile : Memory → Memory) (e : Event) (s s' : Memory) (r : ProcessingRequest)
    → deliver meanwhile e s ≡ (ok r, s')
    → IsSeen e s'
unfolding deliver
deliver-IsSeen meanwhile e s s' r h =
    ground
      (arith, settle_locked-IsSeen e (get (request_id e) (meanwhile s).requests) (meanwhile s) s' r)

deliver_of_IsSeen :
    (meanwhile : Memory → Memory) (e : Event) (s : Memory)
    → IsSeen e (meanwhile s)
    → ((deliver meanwhile e s).1 ≡ s) ⊎ ((deliver meanwhile e s).1 ≡ meanwhile s)
unfolding deliver
deliver_of_IsSeen meanwhile e s h = ground arith

deliver-err :
    (meanwhile : Memory → Memory) (e : Event) (s s' : Memory) (x : Error)
    → deliver meanwhile e s ≡ (err x, s')
    → (s' ≡ s) ⊎ (s' ≡ meanwhile s)
unfolding deliver
deliver-err meanwhile e s s' x h = ground arith

-- If another execution recorded the event before this one took the lock, as when two deliveries
-- of one event race, this one writes nothing: the state is the one it read or the one it found.
pub handle_of_IsSeen :
    (policy : OnThrow) (meanwhile : Memory → Memory) (e : Event) (s : Memory)
    → IsSeen e (meanwhile s)
    → ((handle policy meanwhile e s).1 ≡ s) ⊎ ((handle policy meanwhile e s).1 ≡ meanwhile s)
handle_of_IsSeen policy meanwhile e s h = rw handle-deliver (deliver_of_IsSeen meanwhile e s h)

-- After an event was handled without an error, any later delivery of an event with its id writes
-- nothing, whatever it carries, as long as the executions in between forget no recorded event.
pub handle-handle :
    (policy : OnThrow) (meanwhile later : Memory → Memory) (e again : Event) (s s' : Memory)
    (r : ProcessingRequest)
    → handle policy meanwhile e s ≡ (ok r, s')
    → event_id again ≡ event_id e
    → (has (event_id e) s'.event_id_to_request_id ≡ true → IsSeen e (later s'))
    → ((handle policy later again s').1 ≡ s') ⊎ ((handle policy later again s').1 ≡ later s')
handle-handle policy meanwhile later e again s s' r h same remembers =
    handle_of_IsSeen policy later again s'
      (rw same (remembers (deliver-IsSeen meanwhile e s s' r (rw handle-deliver at h))))

-- Handling that ends in an error has written nothing, even where the unit of work cannot roll
-- back: the state is the one it read or, past the start of the transaction, the one it found.
pub handle-err :
    (policy : OnThrow) (meanwhile : Memory → Memory) (e : Event) (s s' : Memory) (x : Error)
    → handle policy meanwhile e s ≡ (err x, s')
    → (s' ≡ s) ⊎ (s' ≡ meanwhile s)
handle-err policy meanwhile e s s' x h = deliver-err meanwhile e s s' x (rw handle-deliver at h)
