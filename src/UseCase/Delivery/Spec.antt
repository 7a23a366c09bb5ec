-- ===== src/UseCase/Delivery/Spec.antt =====
-- The contract of a delivery, and the events as one type.
use processing_catalog.Prelude.{
  ℕ, String, Bool, true, false, ◌&&◌, Option, none, some, List, [], ◌∷◌, ◌++◌, if◌then◌else◌,
}
use processing_catalog.Text.{is_missing, ◌<>◌}
use processing_catalog.Map.{get, set, has}
use processing_catalog.Outcome.{Result, ok, err, domain_error, refuse_if, ◌>>=◌, ◌>>◌}
use processing_catalog.Action.{Action}
use processing_catalog.Repository.{Repository, UnitOfWork}
use processing_catalog.Domain.Request.{ProcessingRequest, FailureCode, is_failure_code}
use processing_catalog.Domain.Transitions.{
  Returned, same_object, new_object, is_stale_attempt, known_failure_code,
  accept_processing_request, start_processing_request, complete_processing_request,
  fail_processing_request, reject_processing_request,
}
use processing_catalog.Memory.Store.{
  Memory, OutboxEntry, OnThrow, in_memory_repository, unit_of_work, find_by_event_id,
}
use processing_catalog.UseCase.Routes.{processing_queued, terminal_event}
use processing_catalog.UseCase.Accept
use processing_catalog.UseCase.Accept.{AcceptInput, queued_payload}
use processing_catalog.UseCase.Start
use processing_catalog.UseCase.Start.{StartInput}
use processing_catalog.UseCase.Complete
use processing_catalog.UseCase.Complete.{CompleteInput, completed_payload}
use processing_catalog.UseCase.Fail
use processing_catalog.UseCase.Fail.{FailInput, FailureOrigin, failed_payload}

-- A consumed event with the answers of randomUUID() and new Date() that its handling uses.
pub data Event : Type 0 where
  accepted : (attempt_uuid event_uuid : String) (now : ℕ) → AcceptInput → Event
  started : (now : ℕ) → StartInput → Event
  completed : (event_uuid : String) (now : ℕ) → CompleteInput → Event
  failed : (event_uuid : String) (now : ℕ) → FailInput → Event

-- The use case that the event's consumer calls, over any adapters of the ports,
unfoldable pub dispatch :
    {S : Type 0} → Repository S → UnitOfWork S → Event → Action S ProcessingRequest
unfolding Accept.execute Start.execute Complete.execute Fail.execute
dispatch repository uow (accepted attempt_uuid event_uuid now input) =
    Accept.execute repository uow attempt_uuid event_uuid now input
dispatch repository uow (started now input) = Start.execute repository uow now input
dispatch repository uow (completed event_uuid now input) =
    Complete.execute repository uow event_uuid now input
dispatch repository uow (failed event_uuid now input) =
    Fail.execute repository uow event_uuid now input

-- and over the in-memory ones.
unfoldable pub handle : OnThrow → (Memory → Memory) → Event → Action Memory ProcessingRequest
unfolding dispatch
handle policy meanwhile = dispatch in_memory_repository (unit_of_work policy meanwhile)

abbrev pub event_id : Event → String
event_id (accepted _ _ now input) = input.event_id
event_id (started now input) = input.event_id
event_id (completed _ now input) = input.event_id
event_id (failed _ now input) = input.event_id

abbrev pub request_id : Event → String
request_id (accepted _ _ now input) = input.processing_request_id
request_id (started now input) = input.processing_request_id
request_id (completed _ now input) = input.processing_request_id
request_id (failed _ now input) = input.processing_request_id

abbrev own_check : Event → Result (Unit {0})
own_check (accepted _ _ now input) = ok tt
own_check (started now input) = ok tt
own_check (completed _ now input) =
    refuse_if (is_missing input.zip_storage_key) "zipStorageKey is required"
own_check (failed _ now input) = known_failure_code input.failure_code >>= λ code. ok tt

-- What an event must carry before anything is looked up.
abbrev pub check : Event → Result (Unit {0})
check e = do
  refuse_if (is_missing (event_id e)) "eventId is required"
  refuse_if (is_missing (request_id e)) "processingRequestId is required"
  own_check e

abbrev pub belongs_to : FailureOrigin → Bool
belongs_to FailureOrigin.validation = false
belongs_to FailureOrigin.processing = true

-- Whether an event is a leftover of another attempt than the request's.
abbrev pub is_leftover : Event → ProcessingRequest → Bool
is_leftover (accepted _ _ now input) r = false
is_leftover (started now input) r = is_stale_attempt r (some input.attempt_id)
is_leftover (completed _ now input) r = is_stale_attempt r (some input.attempt_id)
is_leftover (failed _ now input) r = belongs_to input.origin && is_stale_attempt r input.attempt_id

-- The lifecycle function that the event asks for.
abbrev pub transition : Event → ProcessingRequest → Result Returned
transition (accepted attempt_uuid _ now input) r = accept_processing_request attempt_uuid now r
transition (started now input) r = start_processing_request now r
transition (completed _ now input) r = complete_processing_request now r input.zip_storage_key
transition (failed _ now input) r =
    if belongs_to input.origin
    then fail_processing_request now r input.failure_code
    else reject_processing_request now r input.failure_code

abbrev announce_failure :
    String → String → ProcessingRequest → Option FailureCode → List OutboxEntry
announce_failure uuid occurred_at r none = []
announce_failure uuid occurred_at r (some code) =
    record {
      queue = terminal_event.queue;
      pattern = terminal_event.pattern;
      payload = failed_payload uuid occurred_at code r;
    }
    ∷ []

-- The events that a changed request makes the Catalog publish.
abbrev pub announce : Event → ProcessingRequest → List OutboxEntry
announce (accepted _ event_uuid now input) r =
    record {
      queue = processing_queued.queue;
      pattern = processing_queued.pattern;
      payload = queued_payload event_uuid input.occurred_at r;
    }
    ∷ []
announce (started now input) r = []
announce (completed event_uuid now input) r =
    record {
      queue = terminal_event.queue;
      pattern = terminal_event.pattern;
      payload = completed_payload event_uuid input.occurred_at r;
    }
    ∷ []
announce (failed event_uuid now input) r =
    announce_failure event_uuid input.occurred_at r (is_failure_code input.failure_code)

abbrev pub mark : String → ProcessingRequest → Memory → Memory
mark event r s = record s {
  event_id_to_request_id = set event r.processing_request_id s.event_id_to_request_id;
}

abbrev pub store : ProcessingRequest → List OutboxEntry → Memory → Memory
store r entries s = record s {
  requests = set r.processing_request_id r s.requests;
  entries = s.entries ++ entries;
}

-- The outcome of the lifecycle function on the locked request.
abbrev pub settle_transition : Event → Result Returned → Memory → Result ProcessingRequest × Memory
settle_transition e (ok (same_object r)) s = (ok r, mark (event_id e) r s)
settle_transition e (ok (new_object r)) s = (ok r, mark (event_id e) r (store r (announce e r) s))
settle_transition e (err x) s = (err x, s)

abbrev pub settle_locked :
    Event → Option ProcessingRequest → Memory → Result ProcessingRequest × Memory
settle_locked e none s =
    (err (domain_error ("Processing request " <> request_id e <> " not found")), s)
settle_locked e (some r) s =
    if has (event_id e) s.event_id_to_request_id
    then (ok r, s)
    else if is_leftover e r
    then (ok r, mark (event_id e) r s)
    else settle_transition e (transition e r) s

abbrev or_none : Result (Option ProcessingRequest) → Option ProcessingRequest
or_none (ok found) = found
or_none (err x) = none

abbrev pub seen_before : Event → Memory → Option ProcessingRequest
seen_before e s =
    if has (event_id e) s.event_id_to_request_id
    then or_none (find_by_event_id (event_id e) s).0
    else none

abbrev pub settle_checked :
    (Memory → Memory)
    → Event
    → Option ProcessingRequest
    → Memory
    → Result ProcessingRequest × Memory
settle_checked meanwhile e (some r) s = (ok r, s)
settle_checked meanwhile e none s =
    settle_locked e (get (request_id e) (meanwhile s).requests) (meanwhile s)

abbrev pub after_check :
    (Memory → Memory) → Event → Result (Unit {0}) → Memory → Result ProcessingRequest × Memory
after_check meanwhile e (ok _) s = settle_checked meanwhile e (seen_before e s) s
after_check meanwhile e (err x) s = (err x, s)

-- What a delivery does: refuse what is malformed; answer an event that was seen with its request;
-- else, on the state that the transaction finds, refuse an unknown request, leave alone an event
-- that was recorded meanwhile, record a leftover of another attempt, and apply any other: store the
-- changed request, record the events to publish and the event itself, or record it alone where
-- nothing changes, or refuse it.
unfoldable pub deliver : (Memory → Memory) → Event → Action Memory ProcessingRequest
deliver meanwhile e s = after_check meanwhile e (check e) s
