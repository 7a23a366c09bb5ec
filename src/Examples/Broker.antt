-- ===== src/Examples/Broker.antt =====
-- A channel over the broker itself, and what `setup` declares on an empty one.
use processing_catalog.Rabbit.Connection.{SetupChannel, setup}
use processing_catalog.Outcome.{ok, err, other_error}
use processing_catalog.Prelude.{false, refl, ◌≡◌, if◌then◌else◌, ◌&&◌}
use processing_catalog.Consumer.Settle.{video_rejected}
use processing_catalog.Rabbit.Topology.{
  consumed_queue, IsBroker, Broker, with_exchange, IsServed, with_queue, setup-Makes-queues,
  with_binding,
}

abbrev channel : SetupChannel Broker
channel = record {
  assert_exchange = λ name kind durable b. (ok tt, with_exchange name b);
  assert_queue = λ name durable b. (ok name, with_queue name b);
  bind_queue = λ queue exchange key b.
      if b.queues queue && b.exchanges exchange
      then (ok tt, with_binding queue exchange key b)
      else (err (other_error "NOT-FOUND"), b);
}

abbrev shown : Broker → Broker
shown b = b

channel-IsBroker : IsBroker channel shown
channel-IsBroker = record {
  asserts_exchange = λ name b. (refl, refl);
  asserts_queue = λ name b. (refl, refl);
  binds = λ queue exchange key b q x. rw (q, x) (refl, refl);
}

abbrev nothing : Broker
nothing = record { exchanges = λ x. false; queues = λ x. false; bindings = λ q e k. false }

setup-Makes-queues_example :
    ((setup channel nothing).0 ≡ ok tt) × IsServed "video.rejected" (setup channel nothing).1
unfolding consumed_queue
setup-Makes-queues_example =
    setup-Makes-queues channel shown channel-IsBroker video_rejected nothing
