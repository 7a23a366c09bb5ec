-- ===== src/Consumer/Consume.antt =====
-- The callbacks and `handleMessage` of the five consumers (src/infrastructure/rabbitmq/*.consumer.ts).
use processing_catalog.Prelude.{ℕ, String, Option, none, some, List}
use processing_catalog.Value.{Value}
use processing_catalog.Action.{Action, lift, ◌>>=◌}
use processing_catalog.Domain.Request.{ProcessingRequest}
use processing_catalog.Repository.{Repository, UnitOfWork}
use processing_catalog.UseCase.Accept
use processing_catalog.UseCase.Start
use processing_catalog.UseCase.Complete
use processing_catalog.UseCase.Fail
use processing_catalog.UseCase.Fail.{FailureOrigin}
use processing_catalog.Consumer.Payload.{parsed}
use processing_catalog.Consumer.Parse.{
  parse_video_accepted, parse_video_rejected, parse_processing_started, parse_processing_completed,
  parse_processing_failed,
}
use processing_catalog.Consumer.Settle.{
  ConsumedEventName, video_accepted, video_rejected, processing_started, processing_completed,
  processing_failed, Effect, settle_message,
}

-- The answers of randomUUID() and new Date() that one handling uses.
pub record Fresh : Type 0 where
  pub attempt_uuid : String
  pub event_uuid : String
  pub now : ℕ

module _ {S : Type 0} (repository : Repository S) (unit_of_work : UnitOfWork S)
    (json_parse : String → Option Value) (fresh : Fresh) where
  handle_video_accepted : String → Action S ProcessingRequest
  handle_video_accepted content = do
    body ← lift (parsed (json_parse content))
    dto ← lift (parse_video_accepted body)
    Accept.execute repository unit_of_work fresh.attempt_uuid fresh.event_uuid fresh.now (record {
      event_id = dto.event_id;
      processing_request_id = dto.processing_request_id;
      occurred_at = dto.occurred_at;
    })

  handle_video_rejected : String → Action S ProcessingRequest
  handle_video_rejected content = do
    body ← lift (parsed (json_parse content))
    dto ← lift (parse_video_rejected body)
    Fail.execute repository unit_of_work fresh.event_uuid fresh.now (record {
      event_id = dto.event_id;
      origin = FailureOrigin.validation;
      attempt_id = none;
      processing_request_id = dto.processing_request_id;
      failure_code = dto.failure_code;
      occurred_at = dto.occurred_at;
    })

  handle_processing_started : String → Action S ProcessingRequest
  handle_processing_started content = do
    body ← lift (parsed (json_parse content))
    dto ← lift (parse_processing_started body)
    Start.execute repository unit_of_work fresh.now (record {
      event_id = dto.event_id;
      processing_request_id = dto.processing_request_id;
      attempt_id = dto.attempt_id;
      occurred_at = dto.occurred_at;
    })

  handle_processing_completed : String → Action S ProcessingRequest
  handle_processing_completed content = do
    body ← lift (parsed (json_parse content))
    dto ← lift (parse_processing_completed body)
    Complete.execute repository unit_of_work fresh.event_uuid fresh.now (record {
      event_id = dto.event_id;
      processing_request_id = dto.processing_request_id;
      attempt_id = dto.attempt_id;
      zip_storage_key = dto.zip_storage_key;
      occurred_at = dto.occurred_at;
    })

  handle_processing_failed : String → Action S ProcessingRequest
  handle_processing_failed content = do
    body ← lift (parsed (json_parse content))
    dto ← lift (parse_processing_failed body)
    Fail.execute repository unit_of_work fresh.event_uuid fresh.now (record {
      event_id = dto.event_id;
      origin = FailureOrigin.processing;
      attempt_id = some dto.attempt_id;
      processing_request_id = dto.processing_request_id;
      failure_code = dto.failure_code;
      occurred_at = dto.occurred_at;
    })

  -- handleMessage of the consumer of each event
  unfoldable pub handle_message : ConsumedEventName → String → Action S ProcessingRequest
  unfolding handle_video_accepted handle_video_rejected handle_processing_started
      handle_processing_completed handle_processing_failed
  handle_message video_accepted content = handle_video_accepted content
  handle_message video_rejected content = handle_video_rejected content
  handle_message processing_started content = handle_processing_started content
  handle_message processing_completed content = handle_processing_completed content
  handle_message processing_failed content = handle_processing_failed content

  -- the callback of `channel.consume`, for a message that is there
  unfoldable pub consume : ℕ → ConsumedEventName → String → S → List Effect × S
  unfolding handle_message
  consume backoff event content = settle_message event backoff (handle_message event content)
