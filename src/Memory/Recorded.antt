-- ===== src/Memory/Recorded.antt =====
-- The accessors of InMemoryOutboxWriter, in src/infrastructure/in-memory-unit-of-work.ts, over what
-- the service records.
use processing_catalog.Prelude.{String, List, [], Bool, ◌==◌, map, filter}
use processing_catalog.Value.{Fields}
use processing_catalog.Memory.Store.{Memory, OutboxEntry}

-- clear()
unfoldable pub clear : Memory → Memory
clear s = record s { entries = [] }

abbrev has_pattern : String → OutboxEntry → Bool
has_pattern pattern entry = entry.pattern == pattern

unfoldable pub payloads_for : String → Memory → List Fields
payloads_for pattern s = map (λ entry. entry.payload) (filter (has_pattern pattern) s.entries)

unfoldable pub recorded_validation_requests : Memory → List Fields
unfolding payloads_for
recorded_validation_requests = payloads_for "VideoValidationRequested"

unfoldable pub recorded_processing_queued : Memory → List Fields
unfolding payloads_for
recorded_processing_queued = payloads_for "ProcessingQueued"

unfoldable pub recorded_terminal_events : Memory → List Fields
unfolding payloads_for
recorded_terminal_events = payloads_for "terminal.event"
