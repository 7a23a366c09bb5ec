-- ===== src/Correlation.antt =====
-- src/observability/correlation-context.ts: the ids that trace a request through the pipeline.
pub mod Edge
pub mod Trim
pub mod Laws
use Prim.Native.Char.{code}
use processing_catalog.Prelude.{String, Bool, true, ◌&&◌, Option, none, some, leb, if◌then◌else◌}
use processing_catalog.Text.{trim, text_length}
use processing_catalog.Value.{Value, string}

-- Every character is printable ASCII, from the space to the tilde.
unfoldable pub is_printable : String → Bool
is_printable String.[] = true
is_printable (String.◌∷◌ c s) = leb 0x20 (code c) && leb (code c) 0x7e && is_printable s

-- PRINTABLE_ASCII.test
unfoldable pub printable_ascii : String → Bool
printable_ascii s = is_printable s && leb 1 (text_length s) && leb (text_length s) 128

unfoldable pub parse_correlation_id : Value → Option String
parse_correlation_id (string raw) =
    let trimmed = trim raw in if printable_ascii trimmed then some trimmed else none
parse_correlation_id _ = none

abbrev optional_value : Option String → Value
optional_value none = Value.undefined
optional_value (some s) = string s

abbrev pub or_else : Option String → String → String
or_else none fallback = fallback
or_else (some s) fallback = s

-- `current` is the id of the scope, if there is one, and `uuid` the answer of randomUUID().
unfoldable pub get_or_generate_correlation_id : Option String → String → String
get_or_generate_correlation_id current uuid =
    or_else (parse_correlation_id (optional_value current)) uuid
