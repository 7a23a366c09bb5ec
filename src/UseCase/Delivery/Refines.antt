-- ===== src/UseCase/Delivery/Refines.antt =====
-- The use cases of src/application implement the contract of a delivery.
use processing_catalog.Prelude.{◌≡◌, arith, append-nil}
use processing_catalog.Domain.Transitions.{
  accept_processing_request, start_processing_request, complete_processing_request, is_unchanged,
  fail_processing_request, reject_processing_request,
}
use processing_catalog.Memory.Store.{
  Memory, OnThrow, find_for_update, has_event_been_processed, find_by_event_id,
  mark_event_processed, update, add,
}
use processing_catalog.UseCase.Delivery.Spec.{
  Event, accepted, started, completed, failed, handle, deliver,
}

machinery : Unit {0}
unfolding handle deliver find_for_update has_event_been_processed find_by_event_id
    mark_event_processed update add is_unchanged
machinery = tt

-- Under either policy for a throw, and whatever other executions commit in between, handling an
-- event does exactly what `deliver` says, to the result and to the state.
pub handle-deliver :
    (policy : OnThrow) (meanwhile : Memory → Memory) (e : Event) (s : Memory)
    → handle policy meanwhile e s ≡ deliver meanwhile e s
unfolding machinery accept_processing_request fail_processing_request reject_processing_request
    start_processing_request complete_processing_request
handle-deliver policy meanwhile (accepted a b now input) s = ground arith
handle-deliver policy meanwhile (started now input) s =
    ground (arith, append-nil (meanwhile s).entries)
handle-deliver policy meanwhile (completed b now input) s = ground arith
handle-deliver policy meanwhile (failed b now input) s = ground arith
