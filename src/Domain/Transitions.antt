-- ===== src/Domain/Transitions.antt =====
-- src/domain/processing-request.ts: the lifecycle functions. Each takes the answers of new Date()
-- and randomUUID() that it uses. One that returns its own argument is told apart from one that
-- returns a copy, since `isUnchanged` compares the objects themselves.
use processing_catalog.Prelude.{
  ℕ, String, Bool, true, false, not, ◌&&◌, Option, none, some, List, [], ◌∷◌, any, ◌==◌,
  if◌then◌else◌,
}
use processing_catalog.Text.{is_missing, ◌<>◌}
use processing_catalog.Value.{Value, to_text}
use processing_catalog.Outcome.{Result, ok, err, domain_error, refuse_if, ◌>>=◌, ◌>>◌}
use processing_catalog.Domain.Request.{
  Status, received, queued, processing, completed, failed, status_text, same_status, FailureCode,
  is_failure_code, ProcessingRequest,
}

pub data Returned : Type 0 where
  same_object : ProcessingRequest → Returned
  new_object : ProcessingRequest → Returned

abbrev pub request_of : Returned → ProcessingRequest
request_of (same_object r) = r
request_of (new_object r) = r

-- before === after, for what a lifecycle function returned
unfoldable pub is_unchanged : Returned → Bool
is_unchanged (same_object r) = true
is_unchanged (new_object r) = false

-- a === b on texts that may be absent
abbrev pub same_text : Option String → Option String → Bool
same_text none none = true
same_text (some a) (some b) = a == b
same_text _ _ = false

abbrev pub is_present : Option String → Bool
is_present none = false
is_present (some a) = true

abbrev includes : List Status → Status → Bool
includes statuses s = any (same_status s) statuses

-- Cannot … request in … status
cannot : String → Status → String
cannot verb s = "Cannot " <> verb <> " request in " <> status_text s <> " status"

unfoldable pub accept_processing_request : String → ℕ → ProcessingRequest → Result Returned
unfolding cannot
accept_processing_request uuid now request = do
  refuse_if (not (same_status request.status received)) (cannot "accept" request.status)
  ok (new_object (record request { status = queued; attempt_id = some uuid; updated_at = now }))

unfoldable pub is_stale_attempt : ProcessingRequest → Option String → Bool
is_stale_attempt request attempt =
    is_present request.attempt_id && not (same_text attempt request.attempt_id)

abbrev pub completable_statuses : List Status
completable_statuses = queued ∷ processing ∷ []

unfoldable pub complete_processing_request : ℕ → ProcessingRequest → String → Result Returned
unfolding cannot
complete_processing_request now request key = do
  refuse_if (is_missing key) "zipStorageKey is required"
  if same_status request.status completed && same_text request.zip_storage_key (some key)
      then ok (same_object request)
      else do
        refuse_if (not (includes completable_statuses request.status))
            (cannot "complete" request.status)
        ok (
            new_object
              (record request { status = completed; zip_storage_key = some key; updated_at = now }))

unfoldable pub start_processing_request : ℕ → ProcessingRequest → Result Returned
unfolding cannot
start_processing_request now request = do
  refuse_if (same_status request.status received) (cannot "start" request.status)
  if not (same_status request.status queued)
      then ok (same_object request)
      else ok (new_object (record request { status = processing; updated_at = now }))

abbrev pub failable_statuses : List Status
failable_statuses = queued ∷ processing ∷ []

-- if (!isFailureCode(code)) throw …; the message converts the value, which can throw too
unfoldable pub known_failure_code : Value → Result FailureCode
known_failure_code code = elim (is_failure_code code) [
  | some c ↦ ok c
  | none ↦ to_text code >>= λ text. err (domain_error ("Unknown failure code " <> text))
]

-- what failing and rejecting both return
abbrev failed_with : ℕ → ProcessingRequest → FailureCode → Returned
failed_with now request c =
    new_object (record request { status = failed; failure_code = some c; updated_at = now })

unfoldable pub fail_processing_request : ℕ → ProcessingRequest → Value → Result Returned
unfolding cannot known_failure_code
fail_processing_request now request code = do
  refuse_if (not (includes failable_statuses request.status)) (cannot "fail" request.status)
  c ← known_failure_code code
  ok (failed_with now request c)

unfoldable pub reject_processing_request : ℕ → ProcessingRequest → Value → Result Returned
unfolding cannot known_failure_code
reject_processing_request now request code = do
  refuse_if (not (same_status request.status received)) (cannot "reject" request.status)
  c ← known_failure_code code
  ok (failed_with now request c)
