-- ===== src/Domain/Allowed.antt =====
-- When a lifecycle function of src/domain/processing-request.ts returns and when it throws, and
-- what it never touches.
use processing_catalog.Prelude.{
  ℕ, String, ◌≡◌, refl, ◌≢◌, ◌↔◌, ◌⊎◌, true, false, Option, none, some, arith, eq_iff, List, [],
  ◌∷◌,
}
use processing_catalog.Text.{is_missing}
use processing_catalog.Value.{Value}
use processing_catalog.Outcome.{Error, Result, ok, err}
use processing_catalog.Domain.Request.{
  received, queued, processing, completed, Status, FailureCode, ProcessingRequest, is_failure_code,
}
use processing_catalog.Domain.Transitions.{
  Returned, request_of, accept_processing_request, complete_processing_request,
  start_processing_request, fail_processing_request, reject_processing_request, same_text,
}
use processing_catalog.Domain.Machine.{Command, accept, start, complete, fail, reject, perform}
use processing_catalog.Domain.History.{stored, history}

abbrev pub IsUnderway : Status → Type 0
IsUnderway s = (s ≡ queued) ⊎ (s ≡ processing)

abbrev pub IsKnown : Value → Type 0
IsKnown code = (c : FailureCode) × (is_failure_code code ≡ some c)

-- When README.md and the comments of the functions let a command through.
abbrev pub IsAllowed : Command → ProcessingRequest → Type 0
IsAllowed (accept uuid) r = r.status ≡ received
IsAllowed start r = r.status ≢ received
IsAllowed (complete key) r =
    (is_missing key ≡ false)
    × (IsUnderway r.status ⊎ (r.status ≡ completed) × (r.zip_storage_key ≡ some key))
IsAllowed (fail code) r = IsUnderway r.status × IsKnown code
IsAllowed (reject code) r = (r.status ≡ received) × IsKnown code

pub same_text_iff :
    (a : Option String) (key : String) → (same_text a (some key) ≡ true) ↔ (a ≡ some key)
same_text_iff none key = ground arith
same_text_iff (some a) key = ground (arith, eq_iff a key)

IsAllowed-of_ok :
    (now : ℕ) (c : Command) (r : ProcessingRequest) (out : Returned)
    → perform now c r ≡ ok out
    → IsAllowed c r
unfolding perform accept_processing_request start_processing_request complete_processing_request
    fail_processing_request reject_processing_request
IsAllowed-of_ok now (accept uuid) r out h = ground arith
IsAllowed-of_ok now start r out h = ground arith
IsAllowed-of_ok now (complete key) r out h = ground (arith, same_text_iff r.zip_storage_key key)
IsAllowed-of_ok now (fail code) r out h = ground arith
IsAllowed-of_ok now (reject code) r out h = ground arith

not_err_of_IsAllowed :
    (now : ℕ) (c : Command) (r : ProcessingRequest) (e : Error)
    → IsAllowed c r
    → perform now c r ≢ err e
unfolding perform accept_processing_request start_processing_request complete_processing_request
    fail_processing_request reject_processing_request
not_err_of_IsAllowed now (accept uuid) r e h = ground arith
not_err_of_IsAllowed now start r e h = ground arith
not_err_of_IsAllowed now (complete key) r e h = ground (arith, same_text_iff r.zip_storage_key key)
not_err_of_IsAllowed now (fail code) r e h = ground arith
not_err_of_IsAllowed now (reject code) r e h = ground arith

ok_of_IsAllowed :
    (now : ℕ) (c : Command) (r : ProcessingRequest)
    → IsAllowed c r
    → (out : Returned) × (perform now c r ≡ ok out)
ok_of_IsAllowed now c r h = go (perform now c r) refl
  where
    go :
        (result : Result Returned) → perform now c r ≡ result → (out : Returned) × (result ≡ ok out)
    go (ok out) p = (out, refl)
    go (err e) p = absurd (not_err_of_IsAllowed now c r e h p)

-- A command is let through exactly when it is allowed: an acceptance or a rejection from RECEIVED,
-- a start from any other status, a completion with a key that is not blank from QUEUED or
-- PROCESSING, or from COMPLETED with the stored key, a failure from QUEUED or PROCESSING; a
-- failure or rejection carries a code of the vocabulary.
pub perform-ok_iff :
    (now : ℕ) (c : Command) (r : ProcessingRequest)
    → ((out : Returned) × (perform now c r ≡ ok out)) ↔ IsAllowed c r
perform-ok_iff now c r = (λ h. IsAllowed-of_ok now c r h.0 h.1, ok_of_IsAllowed now c r)

-- Who a request belongs to and what it is about.
pub record SameIdentity (r s : ProcessingRequest) : Type 0 where
  pub processing_request_id : s.processing_request_id ≡ r.processing_request_id
  pub owner_user_id : s.owner_user_id ≡ r.owner_user_id
  pub owner_email : s.owner_email ≡ r.owner_email
  pub source_storage_key : s.source_storage_key ≡ r.source_storage_key
  pub idempotency_key : s.idempotency_key ≡ r.idempotency_key
  pub correlation_id : s.correlation_id ≡ r.correlation_id
  pub created_at : s.created_at ≡ r.created_at

pub perform-SameIdentity :
    (now : ℕ) (c : Command) (r : ProcessingRequest) (out : Returned)
    → perform now c r ≡ ok out
    → SameIdentity r (request_of out)
unfolding perform accept_processing_request start_processing_request complete_processing_request
    fail_processing_request reject_processing_request
perform-SameIdentity now (accept uuid) r out h = ground arith
perform-SameIdentity now start r out h = ground arith
perform-SameIdentity now (complete key) r out h = ground arith
perform-SameIdentity now (fail code) r out h = ground arith
perform-SameIdentity now (reject code) r out h = ground arith

stored-SameIdentity :
    (now : ℕ) (c : Command) (r : ProcessingRequest) → SameIdentity r (stored r (perform now c r))
stored-SameIdentity now c r = go (perform now c r) refl
  where
    go : (out : Result Returned) → perform now c r ≡ out → SameIdentity r (stored r out)
    go (ok out) e = perform-SameIdentity now c r out e
    go (err x) e = ground arith

SameIdentity-trans :
    {r s t : ProcessingRequest} → SameIdentity r s → SameIdentity s t → SameIdentity r t
SameIdentity-trans h k = ground arith

-- No history of commands changes the id, the owner, the e-mail, the source, the idempotency key,
-- the correlation id or the time of creation.
pub history-SameIdentity :
    (r : ProcessingRequest) (cs : List (ℕ × Command)) → SameIdentity r (history r cs)
unfolding history
history-SameIdentity r [] = ground arith
history-SameIdentity r ((now, c) ∷ rest) =
    SameIdentity-trans (stored-SameIdentity now c r)
      (history-SameIdentity (stored r (perform now c r)) rest)
