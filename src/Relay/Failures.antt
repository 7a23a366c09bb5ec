-- ===== src/Relay/Failures.antt =====
-- The counter of failed publishes, which src/infrastructure/messaging/outbox-relay.ts feeds.
use processing_catalog.Relay.Drain.{Row, Drained, drain, drain_transaction}
use processing_catalog.Outcome.{Result, ok, err}
use processing_catalog.Prelude.{List, ℕ, ◌∷◌, ◌≡◌, Bool, ◌+◌, arith, Option-cases, [], inl, inr}
use processing_catalog.Metrics.{CatalogMetrics, count_failure}

-- A drain with what it found: the broker's answers, the time, the lock.
pub record Attempt : Type 0 where
  pub send : Row → Result (Unit {0})
  pub now : ℕ
  pub locked : Bool
  pub batch_size : ℕ

abbrev pub drained : Attempt → List Row → Drained
drained a table = drain_transaction a.send a.now a.locked a.batch_size table

-- The counter after these drains, one after the other.
unfoldable pub attempts :
    {S : Type 0} → List Attempt → List Row → CatalogMetrics S → CatalogMetrics S
attempts [] table metrics = metrics
attempts (a ∷ rest) table metrics =
    attempts rest (drained a table).table (count_failure (drained a table) metrics)

abbrev threw : Result ℕ → ℕ
threw (ok n) = 0
threw (err e) = 1

-- How many of them threw.
unfoldable pub failures : List Attempt → List Row → ℕ
failures [] table = 0
failures (a ∷ rest) table =
    threw (drain a.send a.now a.locked a.batch_size table).0
    + failures rest (drain a.send a.now a.locked a.batch_size table).1

counted :
    {S : Type 0} (a : Attempt) (table : List Row) (metrics : CatalogMetrics S)
    → (count_failure (drained a table) metrics).outbox_publish_failures_total
      ≡ metrics.outbox_publish_failures_total
        + threw (drain a.send a.now a.locked a.batch_size table).0
unfolding count_failure drain
counted a table metrics = elim (Option-cases (drained a table).failure) [
  | inl fine ↦ rw fine (omega arith)
  | inr (e, thrown) ↦ rw thrown (omega arith)
]

-- Over any drains, the counter of failed publishes grows by how many of them threw.
pub attempts-failures :
    {S : Type 0} (all : List Attempt) (table : List Row) (metrics : CatalogMetrics S)
    → (attempts all table metrics).outbox_publish_failures_total
      ≡ metrics.outbox_publish_failures_total + failures all table
unfolding attempts failures drain
attempts-failures [] table metrics = omega arith
attempts-failures (a ∷ rest) table metrics = omega (
  arith,
  attempts-failures rest (drained a table).table (count_failure (drained a table) metrics),
  counted a table metrics,
)
