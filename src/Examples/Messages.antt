-- ===== src/Examples/Messages.antt =====
-- Messages of src/infrastructure/rabbitmq, read and settled, and rows of the outbox.
use processing_catalog.Value.{
  to_text, Value, object, string, Fields, field, end, has_field, get_field,
}
use processing_catalog.UseCase.Accept
use processing_catalog.Text.{is_missing, text_length, trim}
use processing_catalog.Memory.Store.{has_event_been_processed, find_for_update, rolls_back, empty}
use processing_catalog.Map.{has, get}
use processing_catalog.Prelude.{
  ◌≡◌, refl, true, false, some, none, if◌then◌else◌, ◌==◌, Option, String, List, [], ◌∷◌, ◌⊎◌,
  arith, ℕ, nat_eq,
}
use processing_catalog.Consumer.Parse.{
  parse_video_accepted, parse_video_rejected, parse_processing_started, parse_processing_completed,
  parse_processing_failed,
}
use processing_catalog.Consumer.Contract.{envelope, parse-envelope, parse-body}
use processing_catalog.Consumer.Payload.{is_valid_attempt_id}
use processing_catalog.Consumer.Reading.{receive}
use processing_catalog.Consumer.Outcomes.{
  settle_once, Settled, ending, is_nacked, consume_in_memory, consume_nacked,
  consume_unprintable_id,
}
use processing_catalog.Relay.Drain.{Row}
use processing_catalog.Consumer.Settle.{settle_message, pause, nack, video_accepted}
use processing_catalog.Consumer.Consume.{Fresh, consume}
use processing_catalog.Examples.Data.{stay}
use processing_catalog.UseCase.Routes.{correlation}
use processing_catalog.Catalog.Deliver.{IsSound}
use processing_catalog.Consumer.Safety.{consume-IsSound}
use processing_catalog.Catalog.Run.{IsSound-empty}
use processing_catalog.Outcome.{Result, ok, err, other_error}

abbrev uuids : Fresh
uuids = record { attempt_uuid = "a-1"; event_uuid = "e-2"; now = 2000 }

abbrev body : Fields
body =
    field "eventId" (string "v-1")
      (field "processingRequestId" (string "r-1") (field "occurredAt" (string "t") end))

abbrev own : Fields
own = field "toString" (string "x") end

abbrev unprintable : Fields
unprintable =
    field "eventId" (object own)
      (field "processingRequestId" (string "r-1") (field "occurredAt" (string "t") end))

-- JSON.parse on three texts
abbrev json : String → Option Value
json content =
    if content == "accepted"
    then some (object body)
    else if content == "unprintable"
    then some (object unprintable)
    else none

settle_once_example :
    Settled video_accepted 500
      (ending (receive rolls_back stay json uuids video_accepted "accepted" empty).0)
      (settle_message video_accepted 500
        (receive rolls_back stay json uuids video_accepted "accepted")
        empty).0
    × ((settle_message video_accepted 500
          (receive rolls_back stay json uuids video_accepted "accepted")
          empty).1
        ≡ (receive rolls_back stay json uuids video_accepted "accepted" empty).1)
settle_once_example =
    settle_once video_accepted 500 (receive rolls_back stay json uuids video_accepted "accepted")
      empty

flat : has_field "data" body ≡ false
unfolding has_field
flat = refl

parse-envelope_example :
    (parse_video_accepted (envelope "p" body) ≡ parse_video_accepted (object body))
    × (parse_video_rejected (envelope "p" body) ≡ parse_video_rejected (object body))
    × (parse_processing_started (envelope "p" body) ≡ parse_processing_started (object body))
    × (parse_processing_completed (envelope "p" body) ≡ parse_processing_completed (object body))
    × (parse_processing_failed (envelope "p" body) ≡ parse_processing_failed (object body))
parse-envelope_example = parse-envelope "p" body flat

-- The acceptance of a request that no one created is dead-lettered.
not_created :
    is_nacked (consume_in_memory rolls_back stay json uuids 500 video_accepted "accepted" empty).0
    ≡ true
unfolding consume settle_message parse_video_accepted has_field to_text get_field Accept.execute
    is_missing has_event_been_processed has find_for_update get
not_created = refl

consume_nacked_example :
    ((consume_in_memory rolls_back stay json uuids 500 video_accepted "accepted" empty).1 ≡ empty)
    ⊎ ((consume_in_memory rolls_back stay json uuids 500 video_accepted "accepted" empty).1 ≡ empty)
consume_nacked_example =
    consume_nacked rolls_back stay json uuids 500 video_accepted "accepted" empty not_created

fields_there :
    (has_field "data" unprintable ≡ false)
    × (has_field "eventId" unprintable ≡ true)
    × (has_field "processingRequestId" unprintable ≡ true)
    × (has_field "occurredAt" unprintable ≡ true)
    × (get_field "eventId" unprintable ≡ object own)
    × (has_field "toString" own ≡ true)
unfolding has_field get_field
fields_there = (refl, refl, refl, refl, refl, refl)

consume_unprintable_id_example :
    consume_in_memory rolls_back stay json uuids 500 video_accepted "unprintable" empty
    ≡ (pause 500 ∷ nack true ∷ [], empty)
consume_unprintable_id_example =
    consume_unprintable_id rolls_back stay json uuids 500 "unprintable" unprintable own empty
      (omega arith) refl fields_there.0 fields_there.1 fields_there.2 fields_there.3 fields_there.4
      fields_there.5

valid : is_valid_attempt_id (string "a-1") ≡ some "a-1"
unfolding is_valid_attempt_id text_length trim
valid = refl

-- The bodies of the five events, with a trace id.
abbrev code : Value
code = string "PROCESSAMENTO_FALHOU"

abbrev accepted_body : Fields
accepted_body = field "eventId" (string "v-1") (
    field "processingRequestId" (string "r-1")
      (field "occurredAt" (string "t") (correlation (some "trace"))))

abbrev started_body : Fields
started_body = field "attemptId" (string "a-1") accepted_body

parse-body_example :
    (parse_video_accepted (object accepted_body)
      ≡ ok (record { event_id = "v-1"; processing_request_id = "r-1"; occurred_at = "t" }))
    × (parse_video_rejected (object (field "failureCode" code accepted_body))
        ≡ ok (record {
          event_id = "v-1";
          processing_request_id = "r-1";
          failure_code = code;
          occurred_at = "t";
        }))
    × (parse_processing_started (object started_body)
        ≡ ok (record {
          event_id = "v-1";
          processing_request_id = "r-1";
          attempt_id = "a-1";
          occurred_at = "t";
        }))
    × (parse_processing_completed (object (field "zipStorageKey" (string "z") started_body))
        ≡ ok (record {
          event_id = "v-1";
          processing_request_id = "r-1";
          attempt_id = "a-1";
          zip_storage_key = "z";
          occurred_at = "t";
        }))
    × (parse_processing_failed (object (field "failureCode" code started_body))
        ≡ ok (record {
          event_id = "v-1";
          processing_request_id = "r-1";
          attempt_id = "a-1";
          failure_code = code;
          occurred_at = "t";
        }))
parse-body_example = parse-body "v-1" "r-1" "a-1" "z" "t" code (some "trace") valid

-- Two rows, of which the broker refuses the second.
abbrev row : ℕ → Row
row id = record {
  id = id;
  queue = "processing";
  pattern = "processing.queued";
  payload = end;
  created_at = 0;
  published_at = none;
}

abbrev table : List Row
table = row 1 ∷ row 2 ∷ []

abbrev send : Row → Result (Unit {0})
send r = if nat_eq r.id 2 then err (other_error "confirm timeout") else ok tt

consume-IsSound_example :
    IsSound (consume_in_memory rolls_back stay json uuids 500 video_accepted "accepted" empty).1
consume-IsSound_example =
    consume-IsSound rolls_back stay json uuids 500 video_accepted "accepted" empty IsSound-empty
      IsSound-empty
