-- ===== src/Catalog/Consistent.antt =====
-- What ties a stored request to the outbox, and that a delivery keeps it.
use processing_catalog.Prelude.{
  ℕ, String, ◌≡◌, Bool, true, false, Option, none, some, List, ◌++◌, arith, ◌==◌, if◌then◌else◌,
  eq_refl,
}
use processing_catalog.Map.{get}
use processing_catalog.Value.{get_field}
use processing_catalog.Outcome.{ok}
use processing_catalog.Domain.Request.{ProcessingRequest, Status, completed, failed}
use processing_catalog.Domain.Transitions.{
  Returned, new_object, is_present, request_of, accept_processing_request, start_processing_request,
  complete_processing_request, fail_processing_request, reject_processing_request,
}
use processing_catalog.Domain.Invariant.{
  IsWellFormed, accept-IsWellFormed, start-IsWellFormed, complete-IsWellFormed, fail-IsWellFormed,
  reject-IsWellFormed,
}
use processing_catalog.Memory.Store.{Memory, OutboxEntry}
use processing_catalog.UseCase.Delivery.Spec.{Event, announce, transition}
use processing_catalog.Catalog.Counts.{count, counts-append, count-announce_ne}

abbrev pub is_terminal : Status → Bool
is_terminal completed = true
is_terminal failed = true
is_terminal _ = false

abbrev pub validations : String → List OutboxEntry → ℕ
validations id entries = count "VideoValidationRequested" id entries

abbrev pub queued_jobs : String → List OutboxEntry → ℕ
queued_jobs id entries = count "ProcessingQueued" id entries

abbrev pub terminals : String → List OutboxEntry → ℕ
terminals id entries = count "terminal.event" id entries

-- What the outbox holds about the request stored under an id, or about an id with none.
abbrev pub Fits : String → Option ProcessingRequest → List OutboxEntry → Type 0
Fits id none entries =
    (validations id entries ≡ 0) × (queued_jobs id entries ≡ 0) × (terminals id entries ≡ 0)
Fits id (some r) entries =
    (r.processing_request_id ≡ id)
    × IsWellFormed r
    × (validations id entries ≡ 1)
    × (queued_jobs id entries ≡ (if is_present r.attempt_id then 1 else 0))
    × (terminals id entries ≡ (if is_terminal r.status then 1 else 0))

-- Under every id: the stored request has that id, is well-formed, and the outbox holds one request
-- for its validation, one job if it has an attempt, and one terminal event if it is COMPLETED or
-- FAILED, and none of these otherwise.
abbrev pub IsConsistent : Memory → Type 0
IsConsistent s = (id : String) → Fits id (get id s.requests) s.entries

transition-IsWellFormed :
    (e : Event) (before : ProcessingRequest) (out : Returned)
    → transition e before ≡ ok out
    → IsWellFormed before
    → IsWellFormed (request_of out)
transition-IsWellFormed (Event.accepted a _ now input) before out h w =
    accept-IsWellFormed a now before out h w
transition-IsWellFormed (Event.started now input) before out h w =
    start-IsWellFormed now before out h w
transition-IsWellFormed (Event.completed _ now input) before out h w =
    complete-IsWellFormed now before input.zip_storage_key out h w
transition-IsWellFormed (Event.failed _ now input) before out h w = ground (
  arith,
  fail-IsWellFormed now before input.failure_code out,
  reject-IsWellFormed now before input.failure_code out,
)

pub transition-SameId :
    (e : Event) (before r : ProcessingRequest)
    → transition e before ≡ ok (new_object r)
    → r.processing_request_id ≡ before.processing_request_id
unfolding accept_processing_request start_processing_request complete_processing_request
    fail_processing_request reject_processing_request
transition-SameId (Event.accepted a b now input) before r h = ground arith
transition-SameId (Event.started now input) before r h = ground arith
transition-SameId (Event.completed b now input) before r h = ground arith
transition-SameId (Event.failed b now input) before r h = ground arith

-- The transition and what it announces, under the request's own id.
pub applied-Fits :
    (e : Event) (before r : ProcessingRequest) (entries : List OutboxEntry)
    → transition e before ≡ ok (new_object r)
    → Fits before.processing_request_id (some before) entries
    → Fits before.processing_request_id (some r) (entries ++ announce e r)
unfolding count get_field accept_processing_request start_processing_request
    complete_processing_request fail_processing_request reject_processing_request
applied-Fits (Event.accepted a b now input) before r entries h f =
    let e = Event.accepted a b now input in
    ground (
      arith,
      transition-IsWellFormed e before (new_object r) h,
      eq_refl before.processing_request_id,
      counts-append before.processing_request_id entries (announce e r),
    )
applied-Fits (Event.started now input) before r entries h f =
    let e = Event.started now input in
    ground (
      arith,
      transition-IsWellFormed e before (new_object r) h,
      eq_refl before.processing_request_id,
      counts-append before.processing_request_id entries (announce e r),
    )
applied-Fits (Event.completed b now input) before r entries h f =
    let e = Event.completed b now input in
    ground (
      arith,
      transition-IsWellFormed e before (new_object r) h,
      eq_refl before.processing_request_id,
      counts-append before.processing_request_id entries (announce e r),
    )
applied-Fits (Event.failed b now input) before r entries h f =
    let e = Event.failed b now input in
    ground (
      arith,
      transition-IsWellFormed e before (new_object r) h,
      eq_refl before.processing_request_id,
      counts-append before.processing_request_id entries (announce e r),
    )

-- What a delivery announces of one request changes no count of another.
pub other-Fits :
    (e : Event) (found : Option ProcessingRequest) (r : ProcessingRequest) (id : String)
    (entries : List OutboxEntry)
    → (r.processing_request_id == id) ≡ false
    → Fits id found entries
    → Fits id found (entries ++ announce e r)
other-Fits e none r id entries ne f = ground (
  arith,
  counts-append id entries (announce e r),
  count-announce_ne "VideoValidationRequested" id e r,
  count-announce_ne "ProcessingQueued" id e r,
  count-announce_ne "terminal.event" id e r,
)
other-Fits e (some x) r id entries ne f = ground (
  arith,
  counts-append id entries (announce e r),
  count-announce_ne "VideoValidationRequested" id e r,
  count-announce_ne "ProcessingQueued" id e r,
  count-announce_ne "terminal.event" id e r,
)
