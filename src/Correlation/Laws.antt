-- ===== src/Correlation/Laws.antt =====
-- The correlation ids of src/observability, src/infrastructure/messaging/with-correlation.ts and
-- src/application/create-processing-request.use-case.ts, from one to the next.
use processing_catalog.Domain.Request
use processing_catalog.Value.{Value, string, get_field}
use processing_catalog.Prelude.{String, ◌≡◌, some, arith, Option, none}
use processing_catalog.Outcome.{Result, ok, err}
use processing_catalog.Memory.Store.{OutboxEntry}
use processing_catalog.Correlation.Trim.{trim-trim}
use processing_catalog.Correlation.{parse_correlation_id}

-- An id that the parser answers, it answers again.
pub parse_of_parse :
    (raw : Value) (id : String)
    → parse_correlation_id raw ≡ some id
    → parse_correlation_id (string id) ≡ some id
unfolding parse_correlation_id
parse_of_parse (string raw) id h = ground (arith, trim-trim raw)
parse_of_parse _ id h = ground arith

-- The parser accepts this id, and changes nothing of it.
abbrev pub IsAccepted : String → Type 0
IsAccepted id = parse_correlation_id (string id) ≡ some id

-- So it does of each id that a text may hold.
abbrev AreAccepted : Option String → Type 0
AreAccepted none = Unit
AreAccepted (some id) = IsAccepted id

-- So is the id that a creation takes from its input, where it takes one.
abbrev pub StoredIsAccepted : Result (Option String) → Type 0
StoredIsAccepted (ok stored) = AreAccepted stored
StoredIsAccepted (err refused) = Unit

-- The payload names this id.
abbrev pub Carries : String → OutboxEntry → Type 0
Carries id entry = get_field "correlationId" entry.payload ≡ string id
