-- ===== src/UseCase/Routes.antt =====
-- src/application/event-routes.ts, and the parts of a payload that the use cases share.
use processing_catalog.Prelude.{String, Option, none, some}
use processing_catalog.Value.{Value, undefined, string, Fields, end, field}
use processing_catalog.Outcome.{refuse_if}
use processing_catalog.Text.{is_missing}
use processing_catalog.Action.{Action, lift}

pub record Route : Type 0 where
  pub queue : String
  pub pattern : String

abbrev pub video_validation_requested : Route
video_validation_requested = record {
  queue = "video-validation";
  pattern = "VideoValidationRequested";
}

abbrev pub processing_queued : Route
processing_queued = record { queue = "processing"; pattern = "ProcessingQueued" }

abbrev pub terminal_event : Route
terminal_event = record { queue = "notification.terminal"; pattern = "terminal.event" }

-- A field that holds `undefined` where the text is absent.
abbrev pub optional : Option String → Value
optional none = undefined
optional (some s) = string s

-- ...(correlationId !== undefined ? { correlationId } : {})
abbrev pub correlation : Option String → Fields
correlation none = end
correlation (some id) = field "correlationId" (string id) end

-- if (!value || value.trim().length === 0) throw …
abbrev pub require : {S : Type 0} → String → String → Action S (Unit {0})
require value message = lift (refuse_if (is_missing value) message)
