-- ===== src/Consumer/Settle.antt =====
-- src/infrastructure/rabbitmq/settle-failed-message.ts: how a handled message is settled. What it
-- does outside is a list of effects, in order: the channel's calls, the pause, the counter.
use processing_catalog.Prelude.{ℕ, Bool, true, false, List, [], ◌∷◌, ◌++◌, ltb, if◌then◌else◌}
use processing_catalog.Outcome.{Error, Result, ok, err, domain_error, syntax_error}
use processing_catalog.Action.{Action}

pub data ConsumedEventName : Type 0 where
  video_accepted video_rejected processing_started processing_completed processing_failed :
      ConsumedEventName

pub data ConsumedOutcome : Type 0 where
  acked dead_lettered : ConsumedOutcome

pub data Effect : Type 0 where
  ack : Effect
  -- nack(message, false, requeue)
  nack : (requeue : Bool) → Effect
  -- setTimeout(resolve, ms)
  pause : ℕ → Effect
  record_event_consumed : ConsumedEventName → ConsumedOutcome → Effect

unfoldable pub is_permanent_failure : Error → Bool
is_permanent_failure (domain_error message) = true
is_permanent_failure syntax_error = true
is_permanent_failure _ = false

unfoldable pub settle_failed_message : Error → ℕ → List Effect
unfolding is_permanent_failure
settle_failed_message error backoff =
    if is_permanent_failure error
    then nack false ∷ []
    else (if ltb 0 backoff then pause backoff ∷ [] else []) ++ nack true ∷ []

unfoldable pub settle_result : {A : Type 0} → ConsumedEventName → ℕ → Result A → List Effect
settle_result event backoff (ok _) = ack ∷ record_event_consumed event acked ∷ []
settle_result event backoff (err error) =
    settle_failed_message error backoff
    ++ (if is_permanent_failure error then record_event_consumed event dead_lettered ∷ [] else [])

unfoldable pub settle_message :
    {S A : Type 0} → ConsumedEventName → ℕ → Action S A → S → List Effect × S
unfolding settle_result settle_failed_message
settle_message event backoff handle s = (settle_result event backoff (handle s).0, (handle s).1)
