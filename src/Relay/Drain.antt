-- ===== src/Relay/Drain.antt =====
-- src/infrastructure/messaging/outbox-relay.ts and outbox-relay.scheduler.ts. The table `outbox` is
-- a list of rows, and the queries are the functions that their SQL says. `sendToQueue` is a
-- parameter: whether the broker confirms a row. A query that throws, which rolls everything back, is
-- left out; the counter of failed publishes is in Metrics.
use processing_catalog.Prelude.{
  List, ℕ, Option, Bool, String, true, ◌∷◌, filter, none, if◌then◌else◌, length, some, leb, nat_eq,
  take, false, [],
}
use processing_catalog.Outcome.{Result, Error, ok, err}
use processing_catalog.Action.{Action}
use processing_catalog.Value.{Fields}
use Prim.Native.Nat.{ℕ}

pub record Row : Type 0 where
  pub id : ℕ
  pub queue : String
  pub pattern : String
  pub payload : Fields
  pub created_at : ℕ
  pub published_at : Option ℕ

abbrev is_none : Option ℕ → Bool
is_none none = true
is_none (some t) = false

-- published_at IS NULL
abbrev pub is_pending : Row → Bool
is_pending row = is_none row.published_at

-- ORDER BY id
unfoldable pub insert_by_id : Row → List Row → List Row
insert_by_id x [] = x ∷ []
insert_by_id x (y ∷ ys) = if leb x.id y.id then x ∷ y ∷ ys else y ∷ insert_by_id x ys

unfoldable pub order_by_id : List Row → List Row
unfolding insert_by_id
order_by_id [] = []
order_by_id (x ∷ xs) = insert_by_id x (order_by_id xs)

-- SELECT … WHERE published_at IS NULL ORDER BY id, without its LIMIT
unfoldable pub pending : List Row → List Row
pending table = order_by_id (filter is_pending table)

-- UPDATE outbox SET published_at = now() WHERE id = $1
unfoldable pub mark_published : ℕ → ℕ → List Row → List Row
mark_published now id [] = []
mark_published now id (row ∷ rows) =
    (if nat_eq row.id id then record row { published_at = some now } else row)
    ∷ mark_published now id rows

-- The loop: how many rows were sent, the failure that stopped it, and the table. `sends` says
-- what `sendToQueue` does with a row: it throws, or the broker confirms.
pub record Drained : Type 0 where
  pub sent : List Row
  pub failure : Option Error
  pub table : List Row

-- One turn of the loop, from what `sendToQueue` did and what the other turns would do.
abbrev pub after_send : Row → Drained → List Row → Result (Unit {0}) → Drained
after_send row rest table (ok _) = record rest { sent = row ∷ rest.sent }
after_send row rest table (err e) = record { sent = []; failure = some e; table = table }

module _ (send : Row → Result (Unit {0})) (now : ℕ) where
  unfoldable pub publish : List Row → List Row → Drained
  publish [] table = record { sent = []; failure = none; table = table }
  publish (row ∷ rows) table =
      after_send row (publish rows (mark_published now row.id table)) table (send row)

  -- The transaction: `locked` is the answer of pg_try_advisory_xact_lock.
  unfoldable pub drain_transaction : Bool → ℕ → List Row → Drained
  drain_transaction locked batch_size table =
      if locked
      then publish (take batch_size (pending table)) table
      else record { sent = []; failure = none; table = table }

  -- if (failed) throw failure; return published
  answer : Option Error → ℕ → Result ℕ
  answer none published = ok published
  answer (some e) published = err e

  unfoldable pub drain : Bool → ℕ → Action (List Row) ℕ
  unfolding answer
  drain locked batch_size table =
      let d = drain_transaction locked batch_size table in
      (answer d.failure (length d.sent), d.table)

-- SELECT count(*) … WHERE published_at IS NULL
unfoldable pub pending_count : List Row → ℕ
pending_count table = length (filter is_pending table)

-- The scheduler: whether a drain is running.
pub record Scheduler : Type 0 where
  pub draining : Bool

-- A failed drain is logged and counts as nothing.
logged : Result ℕ → ℕ
logged (ok n) = n
logged (err e) = 0

-- `relay` is the drain of the relay that the scheduler has, if it has one.
unfoldable pub tick : {S : Type 0} → Option (Action S ℕ) → Scheduler → S → ℕ × Scheduler × S
unfolding logged
tick none scheduler s = (0, scheduler, s)
tick (some drain) scheduler s =
    if scheduler.draining
    then (0, scheduler, s)
    else (logged (drain s).0, record scheduler { draining = false }, (drain s).1)
