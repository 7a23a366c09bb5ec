-- ===== src/Consumer/Safety.antt =====
-- Whatever a broker delivers to the consumers of src/infrastructure/rabbitmq, the store and the
-- outbox stay consistent.
use processing_catalog.Prelude.{ℕ, String, sym, Option}
use processing_catalog.Catalog.Deliver.{IsSound, handle-IsSound}
use processing_catalog.Consumer.Reading.{handle_read, read_message, receive_lem}
use processing_catalog.Memory.Store.{OnThrow, Memory}
use processing_catalog.Value.{Value}
use processing_catalog.Consumer.Consume.{Fresh, consume}
use processing_catalog.Outcome.{Result, ok, err}
use processing_catalog.Consumer.Settle.{settle_message, ConsumedEventName}
use processing_catalog.UseCase.Delivery.Spec.{Event}
use mathlib.Core.Path.{subst}
use processing_catalog.Consumer.Outcomes.{consume_in_memory}

module _ (policy : OnThrow) (meanwhile : Memory → Memory) (json_parse : String → Option Value)
    (fresh : Fresh) (backoff : ℕ) where
  handle_read-IsSound :
      (read : Result Event) (s : Memory)
      → IsSound s
      → IsSound (meanwhile s)
      → IsSound (handle_read policy meanwhile json_parse fresh read s).1
  handle_read-IsSound (ok e) s h k = handle-IsSound policy meanwhile e s h k
  handle_read-IsSound (err x) s h k = h

  -- If the state that a consumer reads and the one that its transaction finds are sound - outbox
  -- and requests agree, no two requests of an owner share a source or key, and ids are distinct -
  -- then so is the state after any message, whatever its text and whichever the queue.
  pub consume-IsSound :
      (event : ConsumedEventName) (content : String) (s : Memory)
      → IsSound s
      → IsSound (meanwhile s)
      → IsSound (consume_in_memory policy meanwhile json_parse fresh backoff event content s).1
  unfolding consume settle_message
  consume-IsSound event content s h k =
      subst (λ r. IsSound r.1) (sym (receive_lem policy meanwhile json_parse fresh event content s))
        (handle_read-IsSound (read_message event fresh (json_parse content)) s h k)
