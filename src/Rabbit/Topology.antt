-- ===== src/Rabbit/Topology.antt =====
-- What `setup` of src/infrastructure/rabbitmq/rabbitmq.connection.ts leaves on the broker, for the
-- queues that the five consumers subscribe to.
use processing_catalog.Consumer.Settle.{
  ConsumedEventName, video_accepted, video_rejected, processing_started, processing_completed,
  processing_failed,
}
use processing_catalog.Prelude.{
  String, List, ◌∷◌, Bool, ◌≡◌, ◌==◌, true, ◌||◌, ◌∙◌, [], ◌&&◌, ap, eq_refl, refl, sym,
}
use processing_catalog.Action.{Action, ◌>>=◌, ◌>>◌}
use processing_catalog.Outcome.{ok}
use mathlib.Core.Path.{subst}
use processing_catalog.Rabbit.Connection.{
  SetupChannel, rabbitmq_exchange, declare, rabbitmq_dlx, dead_letter_queue_for, setup, declare_all,
  rabbitmq_queues,
}

-- The argument of `channel.consume` in the consumer of each event.
abbrev video_accepted_queue : String
video_accepted_queue = "video.accepted"

abbrev video_rejected_queue : String
video_rejected_queue = "video.rejected"

abbrev processing_started_queue : String
processing_started_queue = "processing.started"

abbrev processing_completed_queue : String
processing_completed_queue = "processing.completed"

abbrev processing_failed_queue : String
processing_failed_queue = "processing.failed"

unfoldable pub consumed_queue : ConsumedEventName → String
consumed_queue video_accepted = video_accepted_queue
consumed_queue video_rejected = video_rejected_queue
consumed_queue processing_started = processing_started_queue
consumed_queue processing_completed = processing_completed_queue
consumed_queue processing_failed = processing_failed_queue

-- Which exchanges, queues and bindings (of a queue to an exchange under a key) a broker has.
pub record Broker : Type 0 where
  pub exchanges : String → Bool
  pub queues : String → Bool
  pub bindings : String → String → String → Bool

abbrev pub with_exchange : String → Broker → Broker
with_exchange name b = record b { exchanges = λ x. x == name || b.exchanges x }

abbrev pub with_queue : String → Broker → Broker
with_queue name b = record b { queues = λ x. x == name || b.queues x }

abbrev pub with_binding : String → String → String → Broker → Broker
with_binding queue exchange key b = record b {
  bindings = λ q e k. (q == queue && (e == exchange && k == key)) || b.bindings q e k;
}

-- What `setup` relies on of RabbitMQ: an assertion declares what it names, where that is not
-- declared with other options, and a binding of a declared queue to a declared exchange is made.
pub record IsBroker {S : Type 0} (channel : SetupChannel S) (view : S → Broker) : Type 0 where
  pub asserts_exchange :
      (name : String) (s : S)
      → ((channel.assert_exchange name "topic" true s).0 ≡ ok tt)
        × (view (channel.assert_exchange name "topic" true s).1 ≡ with_exchange name (view s))
  pub asserts_queue :
      (name : String) (s : S)
      → ((channel.assert_queue name true s).0 ≡ ok name)
        × (view (channel.assert_queue name true s).1 ≡ with_queue name (view s))
  pub binds :
      (queue exchange key : String) (s : S)
      → (view s).queues queue ≡ true
      → (view s).exchanges exchange ≡ true
      → ((channel.bind_queue queue exchange key s).0 ≡ ok tt)
        × (view (channel.bind_queue queue exchange key s).1
            ≡ with_binding queue exchange key (view s))

abbrev with_declared : String → Broker → Broker
with_declared key b = with_binding key rabbitmq_exchange key (
    with_queue key (
      with_binding (dead_letter_queue_for key) rabbitmq_dlx key
        (with_queue (dead_letter_queue_for key) b)))

with_all : List String → Broker → Broker
with_all [] b = b
with_all (key ∷ keys) b = with_all keys (with_declared key b)

-- The queue and its dead-letter queue are declared, and bound under the name of the queue.
abbrev pub IsServed : String → Broker → Type 0
IsServed queue b =
    (b.queues queue ≡ true)
    × (b.bindings queue rabbitmq_exchange queue ≡ true)
    × (b.queues (dead_letter_queue_for queue) ≡ true)
    × (b.bindings (dead_letter_queue_for queue) rabbitmq_dlx queue ≡ true)

all-IsServed :
    (event : ConsumedEventName) (b : Broker)
    → IsServed (consumed_queue event) (with_all rabbitmq_queues b)
unfolding consumed_queue dead_letter_queue_for with_all
all-IsServed video_accepted b = (refl, refl, refl, refl)
all-IsServed video_rejected b = (refl, refl, refl, refl)
all-IsServed processing_started b = (refl, refl, refl, refl)
all-IsServed processing_completed b = (refl, refl, refl, refl)
all-IsServed processing_failed b = (refl, refl, refl, refl)

module _ {S : Type 0} (channel : SetupChannel S) (view : S → Broker)
    (broker : IsBroker channel view) where
  -- An action that returns, and what it leaves on the broker.
  abbrev Makes : {A : Type 0} → Action S A → A → S → Broker → Type 0
  Makes act a s b = ((act s).0 ≡ ok a) × (view (act s).1 ≡ b)

  then-Makes :
      {A C : Type 0} (act : Action S A) (next : A → Action S C) (a : A) (c : C) (s : S)
      (b b' : Broker)
      → Makes act a s b
      → ((t : S) → view t ≡ b → Makes (next a) c t b')
      → Makes (act >>= next) c s b'
  then-Makes act next a c s b b' (answer, left) rest = rw answer (rest (act s).1 left)

  bound :
      (queue exchange key : String) (t : S) (b : Broker)
      → view t ≡ b
      → b.queues queue ≡ true
      → b.exchanges exchange ≡ true
      → Makes (channel.bind_queue queue exchange key) tt t (with_binding queue exchange key b)
  bound queue exchange key t b e q x =
      let (answer, left) =
        broker.binds queue exchange key t (ap (λ (v : Broker). v.queues queue) e ∙ q)
          (ap (λ (v : Broker). v.exchanges exchange) e ∙ x) in
      (answer, left ∙ ap (with_binding queue exchange key) e)

  asserted :
      (queue : String) (t : S) (b : Broker)
      → view t ≡ b
      → Makes (channel.assert_queue queue true) queue t (with_queue queue b)
  asserted queue t b e =
      let (answer, left) = broker.asserts_queue queue t in (answer, left ∙ ap (with_queue queue) e)

  declare-Makes :
      (key : String) (s : S) (b : Broker)
      → view s ≡ b
      → b.exchanges rabbitmq_exchange ≡ true
      → b.exchanges rabbitmq_dlx ≡ true
      → Makes (declare channel key) tt s (with_declared key b)
  unfolding declare
  declare-Makes key s b e x d =
      let dlq = dead_letter_queue_for key in
      let bind_dead = channel.bind_queue dlq rabbitmq_dlx key in
      let bind_live = λ (queue : String). channel.bind_queue queue rabbitmq_exchange key in
      let live = channel.assert_queue key true >>= bind_live in
      then-Makes (channel.assert_queue dlq true) (λ dlq_asserted. bind_dead >> live) dlq tt s
        (with_queue dlq b) (with_declared key b) (asserted dlq s b e)
        (λ t f.
          then-Makes bind_dead (λ done. live) tt tt t
            (with_binding dlq rabbitmq_dlx key (with_queue dlq b)) (with_declared key b)
            (bound dlq rabbitmq_dlx key t (with_queue dlq b) f (rw (eq_refl dlq) refl) d)
            (λ u g.
              then-Makes (channel.assert_queue key true) bind_live key tt u _ (with_declared key b)
                (asserted key u _ g)
                (λ v h. bound key rabbitmq_exchange key v _ h (rw (eq_refl key) refl) x)))

  declare_all-Makes :
      (keys : List String) (s : S) (b : Broker)
      → view s ≡ b
      → b.exchanges rabbitmq_exchange ≡ true
      → b.exchanges rabbitmq_dlx ≡ true
      → Makes (declare_all channel keys) tt s (with_all keys b)
  unfolding declare_all with_all
  declare_all-Makes [] s b e x d = (refl, e)
  declare_all-Makes (key ∷ keys) s b e x d =
      then-Makes (declare channel key) (λ done. declare_all channel keys) tt tt s
        (with_declared key b) (with_all keys (with_declared key b)) (declare-Makes key s b e x d)
        (λ t f. declare_all-Makes keys t (with_declared key b) f x d)

  setup-Makes :
      (s : S)
      → Makes (setup channel) tt s (
          with_all rabbitmq_queues
            (with_exchange rabbitmq_dlx (with_exchange rabbitmq_exchange (view s))))
  unfolding setup
  setup-Makes s =
      let first = with_exchange rabbitmq_exchange (view s) in
      let second = with_exchange rabbitmq_dlx first in
      let assert_dlx = channel.assert_exchange rabbitmq_dlx "topic" true in
      let rest = declare_all channel rabbitmq_queues in
      then-Makes (channel.assert_exchange rabbitmq_exchange "topic" true >> assert_dlx)
        (λ done. rest) tt tt s second (with_all rabbitmq_queues second)
        (then-Makes (channel.assert_exchange rabbitmq_exchange "topic" true) (λ done. assert_dlx) tt
          tt s first second (broker.asserts_exchange rabbitmq_exchange s)
          (λ t f.
            let (answer, left) = broker.asserts_exchange rabbitmq_dlx t in
            (answer, left ∙ ap (with_exchange rabbitmq_dlx) f)))
        (λ t f. declare_all-Makes rabbitmq_queues t second f refl refl)

  -- Whatever the broker has, `setup` returns, and then the queue that the consumer of an event
  -- subscribes to is declared and bound to the exchange under its own name, and its dead-letter
  -- queue is declared and bound to the dead-letter exchange under that name. The broker is one that
  -- declares what it is asked to, and binds a queue and an exchange that are declared.
  pub setup-Makes-queues :
      (event : ConsumedEventName) (s : S)
      → let queue = consumed_queue event in
        let after = view (setup channel s).1 in ((setup channel s).0 ≡ ok tt) × IsServed queue after
  setup-Makes-queues event s =
      let (answer, left) = setup-Makes s in
      (
        answer,
        subst (IsServed (consumed_queue event)) (sym left) (
            all-IsServed event
              (with_exchange rabbitmq_dlx (with_exchange rabbitmq_exchange (view s)))),
      )
