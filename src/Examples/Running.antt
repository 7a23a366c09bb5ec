-- ===== src/Examples/Running.antt =====
-- The scheduler, the gauges, the settings and the wiring on small inputs.
use processing_catalog.Relay.Scheduler.{
  new_schedule, start, next, bootstraps, fires, IsExclusive, Turns-IsExclusive, begin_tick,
  on_application_bootstrap,
}
use processing_catalog.Relay.Gauges.{scrape-pending, on_module_init, ShowsOldest}
use processing_catalog.Relay.Drain.{Row, pending, is_pending}
use processing_catalog.Metrics.{collect, new_metrics}
use processing_catalog.Rabbit.Settings.{
  JsNumbers, retry_backoff_ms, outbox_publish_timeout_ms, settings-bounds,
}
use processing_catalog.Catalog.Routed.{Run-IsRouted, AreRouted, payloads_on}
use processing_catalog.Catalog.Run.{Run, created}
use processing_catalog.Prelude.{
  ℕ, length, filter, ltb, if◌then◌else◌, true, ◌≡◌, ◌<◌, List, String, refl, ◌==◌, Option, some,
  Bool, ◌∷◌, arith, none, false, [],
}
use processing_catalog.Memory.Store.{empty, rolls_back}
use processing_catalog.Value.{end}
use processing_catalog.Map.{get}
use processing_catalog.Memory.Recorded.{
  recorded_validation_requests, recorded_processing_queued, recorded_terminal_events,
}
use processing_catalog.Examples.Data.{stay, upload, acceptance, first}
use processing_catalog.Examples.Tables.{tables, shown}
use processing_catalog.Outcome.{ok}
use processing_catalog.Persistence.View.{tables_of}
use processing_catalog.App.Wiring.{
  Environment, data_source, Configured, app_handle, app_create, expected, expected_creation,
  outbox_relay, is_present_relay, is_database_configured, app_lem,
}

-- The interval fires, and again while the drain runs; the drain settles.
due : (on_application_bootstrap (new_schedule true)).timer ≡ true
unfolding on_application_bootstrap
due = refl

still_due : (begin_tick (on_application_bootstrap (new_schedule true))).timer ≡ true
unfolding on_application_bootstrap begin_tick
still_due = refl

Turns-IsExclusive_example :
    IsExclusive (begin_tick (begin_tick (on_application_bootstrap (new_schedule true))))
Turns-IsExclusive_example =
    Turns-IsExclusive true (next (next (next start bootstraps) (fires due)) (fires still_due))

-- One row is pending, since 1500 ms; the other was published.
abbrev rows : List Row
rows =
    record {
      id = 1;
      queue = "processing";
      pattern = "ProcessingQueued";
      payload = end;
      created_at = 500;
      published_at = some 900;
    }
    ∷ record {
      id = 2;
      queue = "notification.terminal";
      pattern = "terminal.event";
      payload = end;
      created_at = 1500;
      published_at = none;
    }
    ∷ []

scrape-pending_example :
    ((collect (on_module_init 3000 new_metrics) rows).outbox_pending_rows ≡ length (pending rows))
    × ShowsOldest 3000
        (filter is_pending rows)
        (collect (on_module_init 3000 new_metrics) rows).outbox_oldest_pending_seconds
scrape-pending_example = scrape-pending 3000 new_metrics rows

-- Some of JavaScript's numbers: those that are natural, and `none` for NaN.
abbrev number_of : String → Option ℕ
number_of text = if text == "0" then some 0 else if text == "250" then some 250 else none

abbrev is_number : Option ℕ → Bool
is_number none = false
is_number (some n) = true

abbrev is_positive : Option ℕ → Bool
is_positive none = false
is_positive (some n) = ltb 0 n

literal_is_positive : (n : ℕ) → 0 < n → is_positive (some n) ≡ true
literal_is_positive n h = ground (arith, h)

abbrev some_numbers : JsNumbers (Option ℕ)
some_numbers = record {
  number = number_of;
  is_finite = is_number;
  is_at_least_0 = is_number;
  is_above_0 = is_positive;
  literal = some;
  literal_finite = λ n. refl;
  literal_at_least_0 = λ n. refl;
  literal_above_0 = literal_is_positive;
}

-- Both settings are 0.
abbrev zeros : String → Option String
zeros name = some "0"

settings-bounds_example :
    (is_number (retry_backoff_ms some_numbers zeros) ≡ true)
    × (is_number (retry_backoff_ms some_numbers zeros) ≡ true)
    × (is_number (outbox_publish_timeout_ms some_numbers zeros) ≡ true)
    × (is_positive (outbox_publish_timeout_ms some_numbers zeros) ≡ true)
settings-bounds_example = settings-bounds some_numbers zeros

opening : Run empty first
unfolding get
opening = created rolls_back "r-1" 1000 upload Run.here Run.here refl

Run-IsRouted_example :
    AreRouted first
    × (recorded_validation_requests first ≡ payloads_on "video-validation" first.entries)
    × (recorded_processing_queued first ≡ payloads_on "processing" first.entries)
    × (recorded_terminal_events first ≡ payloads_on "notification.terminal" first.entries)
Run-IsRouted_example = Run-IsRouted opening

abbrev database_at_db : Environment
database_at_db name = if name == "DATABASE_HOST" then some "db" else none

opens : data_source database_at_db (λ options. ok tables) ≡ ok (some tables)
unfolding data_source
opens = refl

app_lem_example :
    Configured stay shown database_at_db (λ options. ok tables) (some tables)
    × (app_handle stay shown (some tables) acceptance (empty, tables_of empty)
        ≡ expected stay shown (some tables) acceptance (empty, tables_of empty))
    × (app_create stay shown (some tables) "r-1" 1000 upload (empty, tables_of empty)
        ≡ expected_creation stay shown (some tables) "r-1" 1000 upload (empty, tables_of empty))
    × (is_present_relay (outbox_relay (λ manager. tt) (some tables))
        ≡ is_database_configured database_at_db)
app_lem_example =
    app_lem stay shown (λ manager. tt) database_at_db (λ options. ok tables) (some tables) empty
      (tables_of empty) acceptance "r-1" 1000 upload opens
