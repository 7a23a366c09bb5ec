-- ===== src/Rabbit/Publisher.antt =====
-- The two event publishers: src/infrastructure/rabbitmq/rabbitmq.event-publisher.ts and
-- src/infrastructure/in-memory-event-publisher.ts. An event is the payload of its DTO.
use processing_catalog.Value.{Fields}
use processing_catalog.Rabbit.Connection.{RabbitMqConnection, send_to_queue}
use processing_catalog.Outcome.{ok}
use processing_catalog.Action.{Action}
use processing_catalog.UseCase.Routes.{
  Route, video_validation_requested, processing_queued, terminal_event,
}
use processing_catalog.Prelude.{List, Option, ℕ, ◌++◌, none, ◌∷◌, [], ◌≡◌, some, refl}

-- application/event-publisher.ts
pub record EventPublisher (S : Type 0) : Type 0 where
  pub publish_video_validation_requested : Fields → Action S (Unit {0})
  pub publish_processing_queued : Fields → Action S (Unit {0})
  pub publish_terminal_event : Fields → Action S (Unit {0})

-- `timeout` is the answer of outboxPublishTimeoutMs()
abbrev pub rabbitmq_event_publisher : {S : Type 0} → RabbitMqConnection S → ℕ → EventPublisher S
rabbitmq_event_publisher connection timeout = record {
  publish_video_validation_requested =
      send_to_queue connection timeout "video-validation" "VideoValidationRequested";
  publish_processing_queued = send_to_queue connection timeout "processing" "ProcessingQueued";
  publish_terminal_event =
      send_to_queue connection timeout "notification.terminal" "terminal.event";
}

pub record Published : Type 0 where
  pub published : List Fields
  pub published_processing_queued : List Fields
  pub published_terminal_events : List Fields

abbrev pub in_memory_event_publisher : EventPublisher Published
in_memory_event_publisher = record {
  publish_video_validation_requested =
      λ event s. (ok tt, record s { published = s.published ++ event ∷ [] });
  publish_processing_queued = λ event s. (
    ok tt,
    record s { published_processing_queued = s.published_processing_queued ++ event ∷ [] },
  );
  publish_terminal_event = λ event s.
      (ok tt, record s { published_terminal_events = s.published_terminal_events ++ event ∷ [] });
}

-- events[events.length - 1]
last : List Fields → Option Fields
last [] = none
last (event ∷ []) = some event
last (event ∷ more ∷ events) = last (more ∷ events)

unfoldable pub last_published : Published → Option Fields
unfolding last
last_published s = last s.published

unfoldable pub last_published_processing_queued : Published → Option Fields
unfolding last
last_published_processing_queued s = last s.published_processing_queued

unfoldable pub last_published_terminal_event : Published → Option Fields
unfolding last
last_published_terminal_event s = last s.published_terminal_events

-- The publisher over RabbitMQ and the rows that the use cases record have the same destinations.
publisher_of_routes :
    {S : Type 0} (connection : RabbitMqConnection S) (timeout : ℕ) (event : Fields)
    → let to =
        λ (route : Route). send_to_queue connection timeout route.queue route.pattern event in
      let publisher = rabbitmq_event_publisher connection timeout in
      (publisher.publish_video_validation_requested event ≡ to video_validation_requested)
      × (publisher.publish_processing_queued event ≡ to processing_queued)
      × (publisher.publish_terminal_event event ≡ to terminal_event)
publisher_of_routes connection timeout event = (refl, refl, refl)

last-append : (events : List Fields) (event : Fields) → last (events ++ event ∷ []) ≡ some event
unfolding last
last-append [] event = refl
last-append (x ∷ []) event = refl
last-append (x ∷ y ∷ events) event = last-append (y ∷ events) event
