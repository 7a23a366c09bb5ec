-- ===== src/Consumer/Contract.antt =====
-- The consumers read what the contract of src/messaging/dto says, in a Nest envelope or flat.
use processing_catalog.Prelude.{String, ◌≡◌, false, Option, some, arith}
use processing_catalog.Value.{
  Value, string, object, Fields, end, field, has_field, get_field, to_text,
}
use processing_catalog.Outcome.{ok}
use processing_catalog.UseCase.Routes.{correlation}
use processing_catalog.Consumer.Payload.{is_valid_attempt_id}
use processing_catalog.Consumer.Parse.{
  parse_video_accepted, parse_video_rejected, parse_processing_started, parse_processing_completed,
  parse_processing_failed,
}

-- { "pattern": …, "data": … }
abbrev pub envelope : String → Fields → Value
envelope pattern fs = object (field "pattern" (string pattern) (field "data" (object fs) end))

-- A body with no field `data` of its own is read alike in an envelope and flat, by every consumer.
pub parse-envelope :
    (pattern : String) (fs : Fields)
    → has_field "data" fs ≡ false
    → (parse_video_accepted (envelope pattern fs) ≡ parse_video_accepted (object fs))
      × (parse_video_rejected (envelope pattern fs) ≡ parse_video_rejected (object fs))
      × (parse_processing_started (envelope pattern fs) ≡ parse_processing_started (object fs))
      × (parse_processing_completed (envelope pattern fs) ≡ parse_processing_completed (object fs))
      × (parse_processing_failed (envelope pattern fs) ≡ parse_processing_failed (object fs))
unfolding parse_video_accepted parse_video_rejected parse_processing_started
    parse_processing_completed parse_processing_failed has_field get_field
parse-envelope pattern fs flat = ground arith

-- The events as the Worker sends them, with its trace id if it has one.
module _ (event_id request_id attempt_id zip occurred_at : String) (code : Value)
    (trace : Option String) where
  abbrev accepted_body : Fields
  accepted_body = field "eventId" (string event_id) (
      field "processingRequestId" (string request_id)
        (field "occurredAt" (string occurred_at) (correlation trace)))

  abbrev rejected_body : Fields
  rejected_body = field "failureCode" code accepted_body

  abbrev started_body : Fields
  started_body = field "attemptId" (string attempt_id) accepted_body

  abbrev completed_body : Fields
  completed_body = field "zipStorageKey" (string zip) started_body

  abbrev failed_body : Fields
  failed_body = field "failureCode" code started_body

  -- Each consumer gets out of the event what was put in, where the attempt id is not blank.
  pub parse-body :
      is_valid_attempt_id (string attempt_id) ≡ some attempt_id
      → (parse_video_accepted (object accepted_body)
          ≡ ok (record {
            event_id = event_id;
            processing_request_id = request_id;
            occurred_at = occurred_at;
          }))
        × (parse_video_rejected (object rejected_body)
            ≡ ok (record {
              event_id = event_id;
              processing_request_id = request_id;
              failure_code = code;
              occurred_at = occurred_at;
            }))
        × (parse_processing_started (object started_body)
            ≡ ok (record {
              event_id = event_id;
              processing_request_id = request_id;
              attempt_id = attempt_id;
              occurred_at = occurred_at;
            }))
        × (parse_processing_completed (object completed_body)
            ≡ ok (record {
              event_id = event_id;
              processing_request_id = request_id;
              attempt_id = attempt_id;
              zip_storage_key = zip;
              occurred_at = occurred_at;
            }))
        × (parse_processing_failed (object failed_body)
            ≡ ok (record {
              event_id = event_id;
              processing_request_id = request_id;
              attempt_id = attempt_id;
              failure_code = code;
              occurred_at = occurred_at;
            }))
  unfolding parse_video_accepted parse_video_rejected parse_processing_started
      parse_processing_completed parse_processing_failed has_field get_field to_text
  parse-body valid = ground arith
