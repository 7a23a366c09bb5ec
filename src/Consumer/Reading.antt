-- ===== src/Consumer/Reading.antt =====
-- A consumed message as one of the events of the use cases: what each consumer of
-- src/infrastructure/rabbitmq hands over, or the error before any use case.
use processing_catalog.Prelude.{String, ◌≡◌, Option, none, some, arith}
use processing_catalog.Value.{Value}
use processing_catalog.Outcome.{Result, ok, err, syntax_error}
use processing_catalog.Action.{Action}
use processing_catalog.Memory.Store.{Memory, OnThrow, in_memory_repository, unit_of_work}
use processing_catalog.Domain.Request.{ProcessingRequest}
use processing_catalog.UseCase.Delivery.Spec.{Event, handle}
use processing_catalog.Consumer.Parse.{
  parse_video_accepted, ProcessingStartedDto, parse_video_rejected, ProcessingCompletedDto,
  VideoAcceptedDto, VideoRejectedDto, ProcessingFailedDto, parse_processing_started,
  parse_processing_completed, parse_processing_failed,
}
use processing_catalog.Consumer.Settle.{
  video_accepted, video_rejected, processing_started, processing_completed, processing_failed,
  ConsumedEventName,
}
use processing_catalog.UseCase.Fail.{FailureOrigin}
use processing_catalog.Consumer.Consume.{Fresh, handle_message}

-- The event that a consumer reads in a body.
abbrev accepted_event : Fresh → VideoAcceptedDto → Event
accepted_event fresh dto = Event.accepted fresh.attempt_uuid fresh.event_uuid fresh.now (record {
  event_id = dto.event_id;
  processing_request_id = dto.processing_request_id;
  occurred_at = dto.occurred_at;
})

abbrev rejected_event : Fresh → VideoRejectedDto → Event
rejected_event fresh dto = Event.failed fresh.event_uuid fresh.now (record {
  event_id = dto.event_id;
  origin = FailureOrigin.validation;
  attempt_id = none;
  processing_request_id = dto.processing_request_id;
  failure_code = dto.failure_code;
  occurred_at = dto.occurred_at;
})

abbrev started_event : Fresh → ProcessingStartedDto → Event
started_event fresh dto = Event.started fresh.now (record {
  event_id = dto.event_id;
  processing_request_id = dto.processing_request_id;
  attempt_id = dto.attempt_id;
  occurred_at = dto.occurred_at;
})

abbrev completed_event : Fresh → ProcessingCompletedDto → Event
completed_event fresh dto = Event.completed fresh.event_uuid fresh.now (record {
  event_id = dto.event_id;
  processing_request_id = dto.processing_request_id;
  attempt_id = dto.attempt_id;
  zip_storage_key = dto.zip_storage_key;
  occurred_at = dto.occurred_at;
})

abbrev failed_event : Fresh → ProcessingFailedDto → Event
failed_event fresh dto = Event.failed fresh.event_uuid fresh.now (record {
  event_id = dto.event_id;
  origin = FailureOrigin.processing;
  attempt_id = some dto.attempt_id;
  processing_request_id = dto.processing_request_id;
  failure_code = dto.failure_code;
  occurred_at = dto.occurred_at;
})

map_ok : {A B : Type 0} → (A → B) → Result A → Result B
map_ok f (ok a) = ok (f a)
map_ok f (err x) = err x

abbrev read_body : ConsumedEventName → Fresh → Value → Result Event
read_body video_accepted fresh v = map_ok (accepted_event fresh) (parse_video_accepted v)
read_body video_rejected fresh v = map_ok (rejected_event fresh) (parse_video_rejected v)
read_body processing_started fresh v = map_ok (started_event fresh) (parse_processing_started v)
read_body processing_completed fresh v =
    map_ok (completed_event fresh) (parse_processing_completed v)
read_body processing_failed fresh v = map_ok (failed_event fresh) (parse_processing_failed v)

pub read_message : ConsumedEventName → Fresh → Option Value → Result Event
read_message event fresh none = err syntax_error
read_message event fresh (some v) = read_body event fresh v

module _ (policy : OnThrow) (meanwhile : Memory → Memory) (json_parse : String → Option Value)
    (fresh : Fresh) where
  abbrev pub receive : ConsumedEventName → String → Action Memory ProcessingRequest
  receive = handle_message in_memory_repository (unit_of_work policy meanwhile) json_parse fresh

  abbrev pub handle_read : Result Event → Action Memory ProcessingRequest
  handle_read (ok e) s = handle policy meanwhile e s
  handle_read (err x) s = (err x, s)

  pub receive_lem :
      (event : ConsumedEventName) (content : String) (s : Memory)
      → receive event content s ≡ handle_read (read_message event fresh (json_parse content)) s
  unfolding handle_message handle map_ok read_message
  receive_lem video_accepted content s = ground arith
  receive_lem video_rejected content s = ground arith
  receive_lem processing_started content s = ground arith
  receive_lem processing_completed content s = ground arith
  receive_lem processing_failed content s = ground arith
