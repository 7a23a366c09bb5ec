-- ===== src/Consumer/Outcomes.antt =====
-- How a consumed message ends (src/infrastructure/rabbitmq/settle-failed-message.ts and the
-- consumers), over the in-memory adapters.
use processing_catalog.Prelude.{
  ℕ, ◌+◌, String, ◌≡◌, Option, none, some, List, [], ◌∷◌, arith, if◌then◌else◌, true, Bool, ◌⊎◌,
  false, ◌<◌, inl, refl, sym, ltb, ◌++◌,
}
use processing_catalog.Value.{Value, to_text, Fields, object, has_field, get_field}
use processing_catalog.Outcome.{
  Result, ok, err, Error, domain_error, syntax_error, duplicate_idempotency_key, duplicate_source,
  query_failed, other_error, idempotency_conflict, type_error,
}
use processing_catalog.Action.{Action}
use processing_catalog.Memory.Store.{Memory, OnThrow, in_memory_repository, unit_of_work}
use processing_catalog.UseCase.Delivery.Spec.{Event}
use processing_catalog.Consumer.Parse.{parse_video_accepted}
use processing_catalog.Consumer.Settle.{
  video_accepted, ConsumedEventName, Effect, ack, nack, record_event_consumed, ConsumedOutcome,
  acked, dead_lettered, is_permanent_failure, settle_message, pause, settle_result,
  settle_failed_message,
}
use processing_catalog.Consumer.Reading.{handle_read, read_message, receive, receive_lem}
use mathlib.Core.Path.{subst}
use processing_catalog.UseCase.Delivery.Once.{handle-err}
use processing_catalog.Consumer.Consume.{Fresh, consume}

-- How the handling of a message ends: it succeeds, it fails on what the message says (a DomainError
-- or a SyntaxError), which no retry can mend, or it fails for another reason.
pub data Ending : Type 0 where
  succeeded refused interrupted : Ending

abbrev pub ending : {A : Type 0} → Result A → Ending
ending (ok a) = succeeded
ending (err (domain_error message)) = refused
ending (err syntax_error) = refused
ending (err _) = interrupted

-- What the broker is told of the message.
abbrev pub settlements : List Effect → List Effect
settlements [] = []
settlements (ack ∷ es) = ack ∷ settlements es
settlements (nack requeue ∷ es) = nack requeue ∷ settlements es
settlements (_ ∷ es) = settlements es

-- The final outcomes that are counted, each with its event.
abbrev pub counted : List Effect → List (ConsumedEventName × ConsumedOutcome)
counted [] = []
counted (record_event_consumed event outcome ∷ es) = (event, outcome) ∷ counted es
counted (_ ∷ es) = counted es

-- The milliseconds that pass before the message is settled.
abbrev pub paused : List Effect → ℕ
paused [] = 0
paused (pause ms ∷ es) = ms + paused es
paused (ack ∷ es) = 0
paused (nack requeue ∷ es) = 0
paused (_ ∷ es) = paused es

-- The settlements, the counts and the pauses that each ending asks for.
abbrev pub Settled : ConsumedEventName → ℕ → Ending → List Effect → Type 0
Settled event backoff succeeded es =
    (settlements es ≡ ack ∷ []) × (counted es ≡ (event, acked) ∷ []) × (paused es ≡ 0)
Settled event backoff refused es =
    (settlements es ≡ nack false ∷ [])
    × (counted es ≡ (event, dead_lettered) ∷ [])
    × (paused es ≡ 0)
Settled event backoff interrupted es =
    (settlements es ≡ nack true ∷ []) × (counted es ≡ []) × (paused es ≡ backoff)

settle_interrupted :
    (event : ConsumedEventName) (backoff : ℕ)
    → Settled event backoff interrupted
        (((if ltb 0 backoff then pause backoff ∷ [] else []) ++ nack true ∷ []) ++ [])
settle_interrupted event backoff = ground arith

settle_result-Settled :
    {A : Type 0} (event : ConsumedEventName) (backoff : ℕ) (result : Result A)
    → Settled event backoff (ending result) (settle_result event backoff result)
unfolding settle_result settle_failed_message is_permanent_failure
settle_result-Settled event backoff (ok a) = (refl, refl, refl)
settle_result-Settled event backoff (err (domain_error message)) = (refl, refl, refl)
settle_result-Settled event backoff (err syntax_error) = (refl, refl, refl)
settle_result-Settled event backoff (err (duplicate_idempotency_key owner key)) =
    settle_interrupted event backoff
settle_result-Settled event backoff (err (duplicate_source owner source)) =
    settle_interrupted event backoff
settle_result-Settled event backoff (err idempotency_conflict) = settle_interrupted event backoff
settle_result-Settled event backoff (err type_error) = settle_interrupted event backoff
settle_result-Settled event backoff (err (query_failed code constraint)) =
    settle_interrupted event backoff
settle_result-Settled event backoff (err (other_error message)) = settle_interrupted event backoff

-- A message is settled once, however its handling ends. One that succeeds is acked and counted as
-- acked. One that fails with a DomainError or a SyntaxError is nacked without requeue, and counted
-- as dead-lettered. One that fails with any other error is nacked with requeue after a pause of the
-- backoff, and is not counted. Neither of the first two waits, and the state is the one that the
-- handling leaves.
pub settle_once :
    {S A : Type 0} (event : ConsumedEventName) (backoff : ℕ) (handling : Action S A) (s : S)
    → Settled event backoff (ending (handling s).0) (settle_message event backoff handling s).0
      × ((settle_message event backoff handling s).1 ≡ (handling s).1)
unfolding settle_message
settle_once event backoff handling s = (settle_result-Settled event backoff (handling s).0, refl)

abbrev pub is_nacked : List Effect → Bool
is_nacked [] = false
is_nacked (nack requeue ∷ es) = true
is_nacked (_ ∷ es) = is_nacked es

settle_message-err :
    {S A : Type 0} (event : ConsumedEventName) (backoff : ℕ) (handling : Action S A) (s : S)
    → is_nacked (settle_message event backoff handling s).0 ≡ true
    → (x : Error) × ((handling s).0 ≡ err x)
unfolding settle_message
settle_message-err event backoff handling s h = ground arith

module _ (policy : OnThrow) (meanwhile : Memory → Memory) (json_parse : String → Option Value)
    (fresh : Fresh) (backoff : ℕ) where
  abbrev pub consume_in_memory : ConsumedEventName → String → Memory → List Effect × Memory
  consume_in_memory =
      consume in_memory_repository (unit_of_work policy meanwhile) json_parse fresh backoff

  handle_read-err :
      (read : Result Event) (s : Memory) (x : Error)
      → (handle_read policy meanwhile json_parse fresh read s).0 ≡ err x
      → ((handle_read policy meanwhile json_parse fresh read s).1 ≡ s)
        ⊎ ((handle_read policy meanwhile json_parse fresh read s).1 ≡ meanwhile s)
  handle_read-err (ok e) s x h = handle-err policy meanwhile e s _ x (ground arith)
  handle_read-err (err y) s x h = inl refl

  receive-err :
      (event : ConsumedEventName) (content : String) (s : Memory) (x : Error)
      → (receive policy meanwhile json_parse fresh event content s).0 ≡ err x
      → ((receive policy meanwhile json_parse fresh event content s).1 ≡ s)
        ⊎ ((receive policy meanwhile json_parse fresh event content s).1 ≡ meanwhile s)
  receive-err event content s x =
      subst (λ r. r.0 ≡ err x → (r.1 ≡ s) ⊎ (r.1 ≡ meanwhile s))
        (sym (receive_lem policy meanwhile json_parse fresh event content s))
        (handle_read-err (read_message event fresh (json_parse content)) s x)

  -- A message that is dead-lettered or requeued has written nothing: the state is the one that its
  -- handling read, or the one that its transaction found.
  pub consume_nacked :
      (event : ConsumedEventName) (content : String) (s : Memory)
      → is_nacked (consume_in_memory event content s).0 ≡ true
      → ((consume_in_memory event content s).1 ≡ s)
        ⊎ ((consume_in_memory event content s).1 ≡ meanwhile s)
  unfolding consume settle_message
  consume_nacked event content s h =
      let (x, failed) =
        settle_message-err event backoff (receive policy meanwhile json_parse fresh event content) s
          h in
      receive-err event content s x failed

  -- A body that is not JSON is dead-lettered, whatever the queue.
  pub consume_not_json :
      (event : ConsumedEventName) (content : String) (s : Memory)
      → json_parse content ≡ none
      → consume_in_memory event content s
        ≡ (nack false ∷ record_event_consumed event dead_lettered ∷ [], s)
  unfolding consume settle_message
  consume_not_json event content s h = ground arith

  -- An acceptance whose event id is an object with a `toString` of its own is requeued after the
  -- pause, on every delivery, and never dead-lettered: the conversion throws a TypeError.
  pub consume_unprintable_id :
      (content : String) (fs own : Fields) (s : Memory)
      → 0 < backoff
      → json_parse content ≡ some (object fs)
      → has_field "data" fs ≡ false
      → has_field "eventId" fs ≡ true
      → has_field "processingRequestId" fs ≡ true
      → has_field "occurredAt" fs ≡ true
      → get_field "eventId" fs ≡ object own
      → has_field "toString" own ≡ true
      → consume_in_memory video_accepted content s ≡ (pause backoff ∷ nack true ∷ [], s)
  unfolding consume settle_message parse_video_accepted to_text
  consume_unprintable_id content fs own s pos read flat id request at value hides = ground arith
