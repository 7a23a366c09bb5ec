-- ===== src/Consumer/Payload.antt =====
-- What the five consumers of src/infrastructure/rabbitmq share when they read a message: the
-- envelope, the rule of src/infrastructure/rabbitmq/attempt-id.ts, and the correlation id of
-- src/infrastructure/messaging/with-correlation.ts. `JSON.parse` is a parameter: from a text to the
-- value it holds, or `none` where it throws a SyntaxError.
use processing_catalog.Prelude.{String, not, Option, none, some, nat_eq, if◌then◌else◌}
use processing_catalog.Text.{trim, text_length}
use processing_catalog.Value.{Value, string, object, has_field, get_field}
use processing_catalog.Outcome.{Result, ok, err, syntax_error, domain_error}
use processing_catalog.Correlation.{parse_correlation_id, or_else}

-- if (content && typeof content === 'object' && 'data' in content) content = content.data
unfoldable pub unwrap : Value → Value
unwrap (object fs) = if has_field "data" fs then get_field "data" fs else object fs
unwrap v = v

-- The guard narrows an unknown value to a text: `none` where it answers false.
unfoldable pub is_valid_attempt_id : Value → Option String
is_valid_attempt_id (string s) = if not (nat_eq (text_length (trim s)) 0) then some s else none
is_valid_attempt_id _ = none

abbrev pub required_attempt : Option String → Result String
required_attempt none = err (domain_error "attemptId is required")
required_attempt (some s) = ok s

-- JSON.parse(content), in a function that may throw
abbrev pub parsed : Option Value → Result Value
parsed none = err syntax_error
parsed (some v) = ok v

-- body.correlationId of an object; an array has no such property
abbrev pub correlation_field : Value → Option String
correlation_field (object fs) = parse_correlation_id (get_field "correlationId" fs)
correlation_field _ = none

abbrev pub body_correlation : Option Value → Option String
body_correlation none = none
body_correlation (some body) = correlation_field (unwrap body)

unfoldable pub correlation_id_of : (String → Option Value) → String → Option String
correlation_id_of json_parse content = body_correlation (json_parse content)

-- The id of the scope in which a message is handled; `uuid` is the answer of randomUUID().
unfoldable pub message_correlation : (String → Option Value) → String → String → String
message_correlation json_parse uuid content = or_else (correlation_id_of json_parse content) uuid
