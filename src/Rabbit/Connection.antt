-- ===== src/Rabbit/Connection.antt =====
-- src/infrastructure/rabbitmq/rabbitmq.connection.ts. The channels of amqp-connection-manager are
-- a parameter: what a call of one does.
use processing_catalog.Outcome.{Result, err, other_error, ok}
use processing_catalog.Prelude.{none, Option, String, Bool, ℕ, List, false, some, ◌∷◌, true, []}
use processing_catalog.Action.{Action, ◌>>◌, return, ◌>>=◌, lift}
use processing_catalog.Value.{Fields}
use processing_catalog.Text.{◌<>◌}

abbrev pub rabbitmq_exchange : String
rabbitmq_exchange = "fiapx.events"

abbrev pub rabbitmq_dlx : String
rabbitmq_dlx = "fiapx.events.dlx"

unfoldable pub dead_letter_queue_for : String → String
dead_letter_queue_for queue = queue <> ".dlq"

abbrev pub rabbitmq_queues : List String
rabbitmq_queues =
    "video.validation.requested" ∷ "video.accepted" ∷ "video.rejected" ∷ "processing.queued"
    ∷ "processing.started" ∷ "processing.completed" ∷ "processing.failed" ∷ "processing.terminal"
    ∷ []

-- The calls of a channel that `setup` makes; everything it declares is durable.
pub record SetupChannel (S : Type 0) : Type 0 where
  pub assert_exchange : (exchange kind : String) → (durable : Bool) → Action S (Unit {0})
  -- the name of the queue in the answer
  pub assert_queue : (queue : String) → (durable : Bool) → Action S String
  pub bind_queue : (queue exchange routing_key : String) → Action S (Unit {0})

module _ {S : Type 0} (channel : SetupChannel S) where
  unfoldable pub declare : String → Action S (Unit {0})
  declare routing_key =
      let dlq = dead_letter_queue_for routing_key in
      channel.assert_queue dlq true >>= λ dlq_asserted.
      channel.bind_queue dlq rabbitmq_dlx routing_key
      >> (channel.assert_queue routing_key true >>= λ queue.
          channel.bind_queue queue rabbitmq_exchange routing_key)

  unfoldable pub declare_all : List String → Action S (Unit {0})
  declare_all [] = return tt
  declare_all (routing_key ∷ keys) = declare routing_key >> declare_all keys

  unfoldable pub setup : Action S (Unit {0})
  unfolding declare_all declare
  setup =
      channel.assert_exchange rabbitmq_exchange "topic" true
      >> channel.assert_exchange rabbitmq_dlx "topic" true
      >> declare_all rabbitmq_queues

-- A ChannelWrapper: `sendToQueue` of { pattern, data } with its timeout, and `close`.
pub record Channel (S : Type 0) : Type 0 where
  pub send_to_queue :
      (queue pattern : String) → (data_ : Fields) → (timeout : ℕ) → Action S (Unit {0})
  pub close : Action S (Unit {0})

pub record AmqpConnection (S : Type 0) : Type 0 where
  pub is_connected : S → Bool
  pub close : Action S (Unit {0})

abbrev pub default_rabbitmq_url : String
default_rabbitmq_url = "amqp://rabbitmq:5672"

abbrev url_or_default : Option String → String
url_or_default none = default_rabbitmq_url
url_or_default (some url) = url

-- The fields of RabbitMQConnection, each `none` until onModuleInit sets it.
pub record RabbitMqConnection (S : Type 0) : Type 0 where
  pub connection : Option (AmqpConnection S)
  pub publish_channel : Option (Channel S)
  pub consume_channel : Option (Channel S)

abbrev pub uninitialized : {S : Type 0} → RabbitMqConnection S
uninitialized = record { connection = none; publish_channel = none; consume_channel = none }

-- `connect` and the two `createChannel` are given by what they answer.
unfoldable pub on_module_init :
    {S : Type 0}
    → (url : Option String) → (connect : String → AmqpConnection S)
    → (create_channel : AmqpConnection S → (SetupChannel S → Action S (Unit {0})) → Channel S)
    → RabbitMqConnection S
on_module_init url connect create_channel =
    let connection = connect (url_or_default url) in
    record {
      connection = some connection;
      publish_channel = some (create_channel connection setup);
      consume_channel = some (create_channel connection setup);
    }

abbrev connected : {S : Type 0} → Option (AmqpConnection S) → S → Bool
connected none s = false
connected (some connection) s = connection.is_connected s

abbrev channel_or : {S : Type 0} → String → Option (Channel S) → Result (Channel S)
channel_or message none = err (other_error message)
channel_or message (some channel) = ok channel

-- channel?.close()
abbrev close_channel : {S : Type 0} → Option (Channel S) → Action S (Unit {0})
close_channel none = return tt
close_channel (some channel) = channel.close

abbrev close_connection : {S : Type 0} → Option (AmqpConnection S) → Action S (Unit {0})
close_connection none = return tt
close_connection (some connection) = connection.close

module _ {S : Type 0} (self : RabbitMqConnection S) where
  unfoldable pub is_connected : S → Bool
  is_connected s = connected self.connection s

  -- RabbitMQHealthIndicator.isHealthy
  unfoldable pub is_healthy : S → Bool
  unfolding is_connected
  is_healthy s = is_connected s

  unfoldable pub get_publish_channel : Result (Channel S)
  get_publish_channel =
      channel_or "RabbitMQ publish channel is not initialized" self.publish_channel

  unfoldable pub get_consume_channel : Result (Channel S)
  get_consume_channel =
      channel_or "RabbitMQ consume channel is not initialized" self.consume_channel

  -- `timeout` is the answer of outboxPublishTimeoutMs()
  unfoldable pub send_to_queue : ℕ → String → String → Fields → Action S (Unit {0})
  unfolding get_publish_channel
  send_to_queue timeout queue pattern event = do
    channel ← lift get_publish_channel
    channel.send_to_queue queue pattern event timeout

  unfoldable pub on_module_destroy : Action S (Unit {0})
  on_module_destroy =
      close_channel self.publish_channel
      >> close_channel self.consume_channel
      >> close_connection self.connection
