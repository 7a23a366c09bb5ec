-- ===== src/Correlation/Edge.antt =====
-- Where HTTP requests get their correlation id and their labels:
-- src/observability/correlation.middleware.ts, http-metrics.middleware.ts and logger.config.ts.
use processing_catalog.Prelude.{
  String, List, Option, ◌∷◌, Bool, [], false, some, any, none, ◌==◌, ◌++◌, map,
}
use processing_catalog.Correlation.{or_else, parse_correlation_id, get_or_generate_correlation_id}
use processing_catalog.Text.{◌<>◌}
use processing_catalog.Value.{Value, string, Fields, field, end}

-- What `use` does with a request: the header that it sets on the response, and the id under which
-- it runs `next`. `header` is the request's header, `current` the id of the scope it runs in, if
-- there is one, and `uuid` the answer of randomUUID().
pub record Scoped : Type 0 where
  pub response_header : String
  pub scope : String

unfoldable pub use_correlation : Value → Option String → String → Scoped
use_correlation header current uuid =
    let id = or_else (parse_correlation_id header) (get_or_generate_correlation_id current uuid) in
    record { response_header = id; scope = id }

-- genReqId, of the header as Node gives it
unfoldable pub gen_req_id : Value → String → String
gen_req_id header uuid = or_else (parse_correlation_id header) uuid

-- The fields that the mixin adds to a log line.
unfoldable pub mixin : Option String → Fields
mixin none = field "service" (string "processing-catalog") end
mixin (some correlation_id) =
    field "service" (string "processing-catalog")
      (field "correlationId" (string correlation_id) end)

-- The paths that the logger removes from a line: pino reads `*` as any one key.
abbrev pub redacted_keys : List String
redacted_keys = "email" ∷ "ownerEmail" ∷ "zipStorageKey" ∷ "sourceStorageKey" ∷ []

unfoldable pub redact_paths : List String
redact_paths =
    ("req.headers.authorization" ∷ "req.headers.cookie" ∷ "err.config.url" ∷ redacted_keys)
    ++ map (λ key. "*." <> key) redacted_keys
    ++ map (λ key. "*.*." <> key) redacted_keys

-- The level of the logger, from the environment.
abbrev pub level : Option String → String
level none = "info"
level (some log_level) = log_level

abbrev pub access_log_excluded_paths : List String
access_log_excluded_paths = "/health" ∷ "/health/live" ∷ "/metrics" ∷ []

-- autoLogging.ignore, of req.url
unfoldable pub ignore : Option String → Bool
ignore none = false
ignore (some url) = any (λ path. path == url) access_log_excluded_paths

-- The `route` label of a request, from req.route?.path
unfoldable pub route_label : Value → String
route_label (string path) = path
route_label _ = "unmatched"
