-- ===== src/Relay/Replicas.antt =====
-- The relays of several replicas over one outbox, step by step: the drain of
-- src/infrastructure/messaging/outbox-relay.ts interleaved with the transactions that record
-- events, the other replicas and crashes.
pub mod Order
mod Table
pub mod Delivery
pub mod Alone
use processing_catalog.Relay.Drain.{Row, is_pending, mark_published, pending}
use processing_catalog.Value.{Value, get_field}
use processing_catalog.Prelude.{
  [], ℕ, List, none, ◌∷◌, Option, ◌≡◌, true, All, ◌<◌, ◌++◌, some, take, Bool, if◌then◌else◌,
}

-- The transaction that holds the advisory lock: the rows of its query that the loop has not come
-- to, the ids that it has marked, and its now().
pub record Draining : Type 0 where
  pub todo : List Row
  pub marked : List ℕ
  pub now : ℕ

-- `table` is what is committed, `broker` the rows that reached the broker, the first one first.
pub record World : Type 0 where
  pub table : List Row
  pub broker : List Row
  pub lock : Option Draining

-- The request that a row tells of.
abbrev pub request_of : Row → Value
request_of row = get_field "processingRequestId" row.payload

unfoldable pub mark_all : ℕ → List ℕ → List Row → List Row
mark_all now [] table = table
mark_all now (id ∷ ids) table = mark_all now ids (mark_published now id table)

-- A replica that does not get the lock changes nothing, so that it makes no step.
pub data Step (w : World) : World → Type 0 where
  -- A use case commits an event. It holds the row lock of the request, so that the ids of the events
  -- of one request increase; between requests they need not be committed in order.
  records :
      (row : Row)
      → is_pending row ≡ true
      → All (λ y. request_of y ≡ request_of row → y.id < row.id) w.table
      → Step w (record w { table = w.table ++ row ∷ [] })
  -- A replica gets the lock, and its query answers the first pending rows.
  begins :
      (batch_size now : ℕ)
      → w.lock ≡ none
      → Step w (record w {
        lock = some (record { todo = take batch_size (pending w.table); marked = []; now = now });
      })
  -- The broker confirms the next row, which the transaction marks.
  confirms :
      (row : Row) (rows : List Row) (marked : List ℕ) (now : ℕ)
      → w.lock ≡ some (record { todo = row ∷ rows; marked = marked; now = now })
      → Step w (record w {
        broker = w.broker ++ row ∷ [];
        lock = some (record { todo = rows; marked = marked ++ row.id ∷ []; now = now });
      })
  -- The publish of the next row is refused, or times out: the broker may have got it. The loop stops.
  fails :
      (row : Row) (rows : List Row) (marked : List ℕ) (now : ℕ) (arrived : Bool)
      → w.lock ≡ some (record { todo = row ∷ rows; marked = marked; now = now })
      → Step w (record w {
        broker = w.broker ++ (if arrived then row ∷ [] else []);
        lock = some (record { todo = []; marked = marked; now = now });
      })
  -- The loop is over: the marks are committed, which gives the lock back.
  commits :
      (marked : List ℕ) (now : ℕ)
      → w.lock ≡ some (record { todo = []; marked = marked; now = now })
      → Step w (record w { table = mark_all now marked w.table; lock = none })
  -- The process, or its transaction, dies: the marks are lost with the lock. A row that it was
  -- publishing may have reached the broker.
  dies :
      (todo : List Row) (marked : List ℕ) (now : ℕ) (arrived : Bool)
      → w.lock ≡ some (record { todo = todo; marked = marked; now = now })
      → Step w
          (record w { broker = w.broker ++ (if arrived then take 1 todo else []); lock = none })

abbrev pub initial : World
initial = record { table = []; broker = []; lock = none }

pub data Reach : World → Type 0 where
  start : Reach initial
  later : {v w : World} → Reach v → Step v w → Reach w

-- Any number of steps.
pub data Steps : World → World → Type 0 where
  done : {w : World} → Steps w w
  next : {v w x : World} → Step v w → Steps w x → Steps v x
