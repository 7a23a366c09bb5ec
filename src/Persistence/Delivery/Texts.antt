-- ===== src/Persistence/Delivery/Texts.antt =====
-- The lifecycle functions of src/domain/processing-request.ts keep the texts of a request within its
-- columns, and its identity.
use processing_catalog.Domain.Machine.{accept, start, complete, fail, reject, perform}
use processing_catalog.Prelude.{ℕ, String, Bool, ◌≡◌, if◌then◌else◌, arith, false, true}
use processing_catalog.Persistence.Columns.{fits_row, fits_uuid, fits_text}
use processing_catalog.Persistence.TypeOrm.{to_row}
use processing_catalog.Domain.Request.{ProcessingRequest}
use processing_catalog.Value.{Value}
use processing_catalog.Outcome.{ok, Result}
use processing_catalog.Domain.Allowed.{SameIdentity, perform-SameIdentity}
use processing_catalog.Domain.Transitions.{
  Returned, request_of, accept_processing_request, complete_processing_request,
  start_processing_request, fail_processing_request, reject_processing_request,
}

-- A completion keeps the texts of the request, and adds the key of the archive.
pub complete-fits :
    (now : ℕ) (r : ProcessingRequest) (key : String) (out : Returned)
    → complete_processing_request now r key ≡ ok out
    → fits_text key ≡ true
    → fits_row (to_row r) ≡ true
    → fits_row (to_row (request_of out)) ≡ true
unfolding complete_processing_request fits_row to_row
complete-fits now r key out h fits_key fits = ground arith

pub complete-SameIdentity :
    (now : ℕ) (r : ProcessingRequest) (key : String) (out : Returned)
    → complete_processing_request now r key ≡ ok out
    → SameIdentity r (request_of out)
unfolding complete_processing_request perform
complete-SameIdentity now r key out h = perform-SameIdentity now (complete key) r out h

-- A start changes no text of the request.
pub start-fits :
    (now : ℕ) (r : ProcessingRequest) (out : Returned)
    → start_processing_request now r ≡ ok out
    → fits_row (to_row (request_of out)) ≡ fits_row (to_row r)
unfolding start_processing_request fits_row to_row
start-fits now r out h = ground arith

pub start-SameIdentity :
    (now : ℕ) (r : ProcessingRequest) (out : Returned)
    → start_processing_request now r ≡ ok out
    → SameIdentity r (request_of out)
unfolding start_processing_request perform
start-SameIdentity now r out h = perform-SameIdentity now start r out h

-- An acceptance adds the id of the attempt.
pub accept-fits :
    (uuid : String) (now : ℕ) (r : ProcessingRequest) (out : Returned)
    → accept_processing_request uuid now r ≡ ok out
    → fits_uuid uuid ≡ true
    → fits_row (to_row r) ≡ true
    → fits_row (to_row (request_of out)) ≡ true
unfolding accept_processing_request fits_row to_row
accept-fits uuid now r out h fits_attempt fits = ground arith

pub accept-SameIdentity :
    (uuid : String) (now : ℕ) (r : ProcessingRequest) (out : Returned)
    → accept_processing_request uuid now r ≡ ok out
    → SameIdentity r (request_of out)
unfolding accept_processing_request perform
accept-SameIdentity uuid now r out h = perform-SameIdentity now (accept uuid) r out h

-- The lifecycle function of a failure, by its origin.
abbrev pub end_in_failure : Bool → ℕ → ProcessingRequest → Value → Result Returned
end_in_failure own now r code =
    if own then fail_processing_request now r code else reject_processing_request now r code

-- A failure changes no text of the request.
pub failure-fits :
    (own : Bool) (now : ℕ) (r : ProcessingRequest) (code : Value) (out : Returned)
    → end_in_failure own now r code ≡ ok out
    → fits_row (to_row (request_of out)) ≡ fits_row (to_row r)
unfolding fail_processing_request reject_processing_request fits_row to_row
failure-fits false now r code out h = ground arith
failure-fits true now r code out h = ground arith

pub failure-SameIdentity :
    (own : Bool) (now : ℕ) (r : ProcessingRequest) (code : Value) (out : Returned)
    → end_in_failure own now r code ≡ ok out
    → SameIdentity r (request_of out)
unfolding fail_processing_request reject_processing_request perform
failure-SameIdentity false now r code out h = perform-SameIdentity now (reject code) r out h
failure-SameIdentity true now r code out h = perform-SameIdentity now (fail code) r out h
