-- ===== src/Consumer/Parse.antt =====
-- The parsers of the five consumers (src/infrastructure/rabbitmq/*.consumer.ts) and the payloads
-- they give (src/messaging/dto).
use processing_catalog.Prelude.{String, not, ◌&&◌}
use processing_catalog.Value.{Value, object, Fields, has_field, get_field, to_text}
use processing_catalog.Outcome.{Result, ok, err, domain_error, refuse_if, ◌>>=◌, ◌>>◌}
use processing_catalog.Consumer.Payload.{unwrap, is_valid_attempt_id, required_attempt}

pub record VideoAcceptedDto : Type 0 where
  pub event_id : String
  pub processing_request_id : String
  pub occurred_at : String

pub record VideoRejectedDto : Type 0 where
  pub event_id : String
  pub processing_request_id : String
  pub failure_code : Value
  pub occurred_at : String

pub record ProcessingStartedDto : Type 0 where
  pub event_id : String
  pub processing_request_id : String
  pub attempt_id : String
  pub occurred_at : String

pub record ProcessingCompletedDto : Type 0 where
  pub event_id : String
  pub processing_request_id : String
  pub attempt_id : String
  pub zip_storage_key : String
  pub occurred_at : String

pub record ProcessingFailedDto : Type 0 where
  pub event_id : String
  pub processing_request_id : String
  pub attempt_id : String
  pub failure_code : Value
  pub occurred_at : String

accepted_fields : Fields → Result VideoAcceptedDto
accepted_fields fs = do
  refuse_if
      (not
        (has_field "eventId" fs && has_field "processingRequestId" fs && has_field "occurredAt" fs))
      "Invalid VideoAccepted payload"
  event_id ← to_text (get_field "eventId" fs)
  processing_request_id ← to_text (get_field "processingRequestId" fs)
  occurred_at ← to_text (get_field "occurredAt" fs)
  ok (record {
    event_id = event_id;
    processing_request_id = processing_request_id;
    occurred_at = occurred_at;
  })

abbrev of_object {ℓ} : {A : Type ℓ} → (Fields → Result A) → String → Value → Result A
of_object read message (object fs) = read fs
of_object read message _ = err (domain_error message)

unfoldable pub parse_video_accepted : Value → Result VideoAcceptedDto
unfolding accepted_fields unwrap
parse_video_accepted content =
    of_object accepted_fields "Invalid VideoAccepted payload" (unwrap content)

rejected_fields : Fields → Result VideoRejectedDto
rejected_fields fs = do
  refuse_if
      (not (
        has_field "eventId" fs
        && has_field "processingRequestId" fs
        && has_field "failureCode" fs
        && has_field "occurredAt" fs))
      "Invalid VideoRejected payload"
  event_id ← to_text (get_field "eventId" fs)
  processing_request_id ← to_text (get_field "processingRequestId" fs)
  occurred_at ← to_text (get_field "occurredAt" fs)
  ok (record {
    event_id = event_id;
    processing_request_id = processing_request_id;
    failure_code = get_field "failureCode" fs;
    occurred_at = occurred_at;
  })

unfoldable pub parse_video_rejected : Value → Result VideoRejectedDto
unfolding rejected_fields unwrap
parse_video_rejected content =
    of_object rejected_fields "Invalid VideoRejected payload" (unwrap content)

started_fields : Fields → Result ProcessingStartedDto
started_fields fs = do
  refuse_if
      (not
        (has_field "eventId" fs && has_field "processingRequestId" fs && has_field "occurredAt" fs))
      "Invalid ProcessingStarted payload"
  attempt_id ← required_attempt (is_valid_attempt_id (get_field "attemptId" fs))
  event_id ← to_text (get_field "eventId" fs)
  processing_request_id ← to_text (get_field "processingRequestId" fs)
  occurred_at ← to_text (get_field "occurredAt" fs)
  ok (record {
    event_id = event_id;
    processing_request_id = processing_request_id;
    attempt_id = attempt_id;
    occurred_at = occurred_at;
  })

unfoldable pub parse_processing_started : Value → Result ProcessingStartedDto
unfolding started_fields unwrap
parse_processing_started content =
    of_object started_fields "Invalid ProcessingStarted payload" (unwrap content)

completed_fields : Fields → Result ProcessingCompletedDto
completed_fields fs = do
  refuse_if
      (not (
        has_field "eventId" fs
        && has_field "processingRequestId" fs
        && has_field "zipStorageKey" fs
        && has_field "occurredAt" fs))
      "Invalid ProcessingCompleted payload"
  attempt_id ← required_attempt (is_valid_attempt_id (get_field "attemptId" fs))
  event_id ← to_text (get_field "eventId" fs)
  processing_request_id ← to_text (get_field "processingRequestId" fs)
  zip_storage_key ← to_text (get_field "zipStorageKey" fs)
  occurred_at ← to_text (get_field "occurredAt" fs)
  ok (record {
    event_id = event_id;
    processing_request_id = processing_request_id;
    attempt_id = attempt_id;
    zip_storage_key = zip_storage_key;
    occurred_at = occurred_at;
  })

unfoldable pub parse_processing_completed : Value → Result ProcessingCompletedDto
unfolding completed_fields unwrap
parse_processing_completed content =
    of_object completed_fields "Invalid ProcessingCompleted payload" (unwrap content)

failed_fields : Fields → Result ProcessingFailedDto
failed_fields fs = do
  refuse_if
      (not (
        has_field "eventId" fs
        && has_field "processingRequestId" fs
        && has_field "failureCode" fs
        && has_field "occurredAt" fs))
      "Invalid ProcessingFailed payload"
  attempt_id ← required_attempt (is_valid_attempt_id (get_field "attemptId" fs))
  event_id ← to_text (get_field "eventId" fs)
  processing_request_id ← to_text (get_field "processingRequestId" fs)
  occurred_at ← to_text (get_field "occurredAt" fs)
  ok (record {
    event_id = event_id;
    processing_request_id = processing_request_id;
    attempt_id = attempt_id;
    failure_code = get_field "failureCode" fs;
    occurred_at = occurred_at;
  })

unfoldable pub parse_processing_failed : Value → Result ProcessingFailedDto
unfolding failed_fields unwrap
parse_processing_failed content =
    of_object failed_fields "Invalid ProcessingFailed payload" (unwrap content)
