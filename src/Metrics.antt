-- ===== src/Metrics.antt =====
-- src/observability/metrics.ts. prom-client is a library: a counter is how often it was incremented
-- with given labels, a gauge its last value. Durations are whole milliseconds.
use processing_catalog.Prelude.{ℕ, ℤ, pos, String, Option, none, some, List, [], ◌∷◌, ◌++◌, suc}
use processing_catalog.Outcome.{Result, ok, err}
use processing_catalog.Action.{Action}
use processing_catalog.Consumer.Settle.{ConsumedEventName, ConsumedOutcome}
use processing_catalog.Relay.Drain.{Drained}

-- OutboxGaugeSource: the relay's own queries, over the state of the database
pub record OutboxGaugeSource (S : Type 0) : Type 0 where
  pub pending_count : Action S ℕ
  pub oldest_pending_age_seconds : Action S (Option ℤ)

pub record HttpObservation : Type 0 where
  pub method : String
  pub route : String
  pub status : String
  pub duration : ℕ

pub record CatalogMetrics (S : Type 0) : Type 0 where
  pub outbox_source : Option (OutboxGaugeSource S)
  pub outbox_pending_rows : ℕ
  pub outbox_oldest_pending_seconds : ℤ
  pub outbox_publish_failures_total : ℕ
  pub events_consumed : List (ConsumedEventName × ConsumedOutcome)
  pub http_requests : List HttpObservation

abbrev pub new_metrics : {S : Type 0} → CatalogMetrics S
new_metrics = record {
  outbox_source = none;
  outbox_pending_rows = 0;
  outbox_oldest_pending_seconds = pos 0;
  outbox_publish_failures_total = 0;
  events_consumed = [];
  http_requests = [];
}

module _ {S : Type 0} (self : CatalogMetrics S) where
  unfoldable pub set_outbox_source : OutboxGaugeSource S → CatalogMetrics S
  set_outbox_source source = record self { outbox_source = some source }

  unfoldable pub record_outbox_publish_failure : CatalogMetrics S
  record_outbox_publish_failure = record self {
    outbox_publish_failures_total = suc self.outbox_publish_failures_total;
  }

  unfoldable pub record_event_consumed : ConsumedEventName → ConsumedOutcome → CatalogMetrics S
  record_event_consumed event outcome = record self {
    events_consumed = self.events_consumed ++ (event, outcome) ∷ [];
  }

  unfoldable pub record_http_request : String → String → String → ℕ → CatalogMetrics S
  record_http_request method route status duration = record self {
    http_requests =
        self.http_requests
        ++ record { method = method; route = route; status = status; duration = duration } ∷ [];
  }

  -- resetMetrics: every metric to its first value; the source stays
  unfoldable pub reset_metrics : CatalogMetrics S
  reset_metrics = record new_metrics { outbox_source = self.outbox_source }

-- What a gauge shows after its collect: the value read, or the last one if there is no source or the
-- read throws.
read_or_last : {A : Type 0} → A → Result A → A
read_or_last last (ok n) = n
read_or_last last (err e) = last

unfoldable pub outbox_collector :
    {S A : Type 0} → (OutboxGaugeSource S → Action S A) → Option (OutboxGaugeSource S) → A → S → A
unfolding read_or_last
outbox_collector read none last s = last
outbox_collector read (some source) last s = read_or_last last (read source s).0

-- (await source.oldestPendingAgeSeconds()) ?? 0
age_or_zero : Result (Option ℤ) → Result ℤ
age_or_zero (ok none) = ok (pos 0)
age_or_zero (ok (some age)) = ok age
age_or_zero (err e) = err e

-- A scrape runs the collect of both gauges.
unfoldable pub collect : {S : Type 0} → CatalogMetrics S → S → CatalogMetrics S
unfolding outbox_collector age_or_zero
collect self s = record self {
  outbox_pending_rows =
      outbox_collector (λ source. source.pending_count) self.outbox_source self.outbox_pending_rows
        s;
  outbox_oldest_pending_seconds =
      outbox_collector
        (λ source t. (
          age_or_zero (source.oldest_pending_age_seconds t).0,
          (source.oldest_pending_age_seconds t).1,
        ))
        self.outbox_source self.outbox_oldest_pending_seconds s;
}

-- What a drain of src/infrastructure/messaging/outbox-relay.ts counts: its `catch` runs once, for the
-- row that stopped it.
unfoldable pub count_failure : {S : Type 0} → Drained → CatalogMetrics S → CatalogMetrics S
unfolding record_outbox_publish_failure
count_failure d self = elim d.failure [ none ↦ self | some e ↦ record_outbox_publish_failure self ]
