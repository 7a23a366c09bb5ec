-- ===== src/Relay/Replicas/Delivery.antt =====
-- What the relays keep in every interleaving: no event is marked that was not sent, and the events
-- of each request reach the broker in the order in which they were recorded.
use processing_catalog.Relay.Replicas.{
  World, Draining, mark_all, Step, Reach, records, request_of, later, begins, start, confirms,
  fails, commits, dies,
}
use processing_catalog.Relay.Drain.{Row, is_pending, pending}
use processing_catalog.Relay.Replicas.Table.{
  IsSent, mark_all-IsSent, mark_all-IsKnown, IsSent-grows, IsNewest, IsSent-records,
  mark_all-InOrder, IsKnown-append, InOrder-records,
}
use processing_catalog.Relay.Replicas.Order.{
  IsKnown, is_in, InOrder, take-drop, is_in-append, pending-IsKnown, InOrder-prefix, InOrder-append,
  InOrder-take, pending-InOrder, Follows,
}
use mathlib.Core.Path.{subst}
use processing_catalog.Prelude.{
  List, Option, ℕ, [], All, some, ◌++◌, ◌∷◌, take, ◌≡◌, none, ap, sym, All-mono, append_assoc, true,
  All-append, ◌∙◌, arith, All-prefix, All-take, drop, append-nil, false, ◌<◌,
}

-- The rows that the drain in progress, if there is one, has still to send, and its marks.
abbrev upcoming : Option Draining → List Row
upcoming none = []
upcoming (some d) = d.todo

abbrev marks : Option Draining → List ℕ
marks none = []
marks (some d) = d.marked

-- What holds of the committed table, the rows sent, those to come and the marks of the lock's holder.
record IsSafe (table broker todo : List Row) (marked : List ℕ) : Type 0 where
  sent : IsSent broker table
  known : All (IsKnown table) (broker ++ todo)
  ordered : InOrder table [] (broker ++ todo)
  confirmed : All (λ id. is_in broker id ≡ true) marked

abbrev IsSafeWorld : World → Type 0
IsSafeWorld w = IsSafe w.table w.broker (upcoming w.lock) (marks w.lock)

is_in-grows :
    (broker more : List Row) (marked : List ℕ)
    → All (λ id. is_in broker id ≡ true) marked
    → All (λ id. is_in (broker ++ more) id ≡ true) marked
is_in-grows broker more = All-mono (λ id h. ground (arith, is_in-append broker more id))

module _ {table broker : List Row} where
  IsSafe-records :
      (todo : List Row) (marked : List ℕ) (row : Row)
      → is_pending row ≡ true
      → IsNewest table row
      → IsSafe table broker todo marked
      → IsSafe (table ++ row ∷ []) broker todo marked
  IsSafe-records todo marked row p newest safe = record {
    sent = IsSent-records broker table row p safe.sent;
    known = All-mono (λ x. IsKnown-append table row x) (broker ++ todo) safe.known;
    ordered = InOrder-records table row [] (broker ++ todo) newest safe.known safe.ordered;
    confirmed = safe.confirmed;
  }

  IsSafe-begins :
      (batch_size : ℕ)
      → IsSafe table broker [] []
      → IsSafe table broker (take batch_size (pending table)) []
  IsSafe-begins batch_size safe = record {
    sent = safe.sent;
    known =
        All-append (IsKnown table) broker (take batch_size (pending table))
          (All-prefix (IsKnown table) broker [] safe.known)
          (All-take (IsKnown table) batch_size (pending table) (pending-IsKnown table));
    ordered =
        InOrder-append table [] broker (take batch_size (pending table))
          (InOrder-prefix table [] broker [] safe.ordered)
          (InOrder-take table batch_size broker (pending table)
            (pending-InOrder table broker safe.sent));
    confirmed = tt;
  }

  IsSafe-confirms :
      (row : Row) (rows : List Row) (marked : List ℕ)
      → IsSafe table broker (row ∷ rows) marked
      → IsSafe table (broker ++ row ∷ []) rows (marked ++ row.id ∷ [])
  IsSafe-confirms row rows marked safe =
      let same = sym (append_assoc broker (row ∷ []) rows) in
      record {
        sent = IsSent-grows broker (row ∷ []) table safe.sent;
        known = subst (All (IsKnown table)) same safe.known;
        ordered = subst (InOrder table []) same safe.ordered;
        confirmed =
            All-append (λ id. is_in (broker ++ row ∷ []) id ≡ true) marked (row.id ∷ [])
              (is_in-grows broker (row ∷ []) marked safe.confirmed)
              (ground (arith, is_in-append broker (row ∷ []) row.id), tt);
      }

  -- The loop stops, after `n` more rows have reached the broker.
  IsSafe-stops :
      (n : ℕ) (todo : List Row) (marked : List ℕ)
      → IsSafe table broker todo marked
      → IsSafe table (broker ++ take n todo) [] marked
  IsSafe-stops n todo marked safe =
      let split =
        ap (broker ++◌) (sym (take-drop n todo))
        ∙ sym (append_assoc broker (take n todo) (drop n todo)) in
      let shorter = sym (append-nil (broker ++ take n todo)) in
      record {
        sent = IsSent-grows broker (take n todo) table safe.sent;
        known = subst (All (IsKnown table)) shorter (
            All-prefix (IsKnown table) (broker ++ take n todo) (drop n todo)
              (subst (All (IsKnown table)) split safe.known));
        ordered = subst (InOrder table []) shorter (
            InOrder-prefix table [] (broker ++ take n todo) (drop n todo)
              (subst (InOrder table []) split safe.ordered));
        confirmed = is_in-grows broker (take n todo) marked safe.confirmed;
      }

  IsSafe-commits :
      (now : ℕ) (marked : List ℕ)
      → IsSafe table broker [] marked
      → IsSafe (mark_all now marked table) broker [] []
  IsSafe-commits now marked safe = record {
    sent = mark_all-IsSent now marked broker table safe.confirmed safe.sent;
    known = All-mono (λ x. mark_all-IsKnown now marked table x) (broker ++ []) safe.known;
    ordered = mark_all-InOrder now marked table [] (broker ++ []) safe.ordered;
    confirmed = tt;
  }

  IsSafe-forgets : (marked : List ℕ) → IsSafe table broker [] marked → IsSafe table broker [] []
  IsSafe-forgets marked safe = record {
    sent = safe.sent;
    known = safe.known;
    ordered = safe.ordered;
    confirmed = tt;
  }

locked :
    {w : World} {l : Option Draining}
    → w.lock ≡ l
    → IsSafeWorld w
    → IsSafe w.table w.broker (upcoming l) (marks l)
locked {w} e safe = subst (λ l. IsSafe w.table w.broker (upcoming l) (marks l)) e safe

Step-IsSafe : {v w : World} → Step v w → IsSafeWorld v → IsSafeWorld w
Step-IsSafe {v} (records row p newest) safe =
    IsSafe-records (upcoming v.lock) (marks v.lock) row p newest safe
Step-IsSafe (begins batch_size now free) safe = IsSafe-begins batch_size (locked free safe)
Step-IsSafe (confirms row rows marked now held) safe =
    IsSafe-confirms row rows marked (locked held safe)
Step-IsSafe (fails row rows marked now true held) safe =
    IsSafe-stops 1 (row ∷ rows) marked (locked held safe)
Step-IsSafe (fails row rows marked now false held) safe =
    IsSafe-stops 0 (row ∷ rows) marked (locked held safe)
Step-IsSafe (commits marked now held) safe = IsSafe-commits now marked (locked held safe)
Step-IsSafe (dies todo marked now true held) safe =
    IsSafe-forgets marked (IsSafe-stops 1 todo marked (locked held safe))
Step-IsSafe (dies todo marked now false held) safe =
    IsSafe-forgets marked (IsSafe-stops 0 todo marked (locked held safe))

Reach-IsSafe : {w : World} → Reach w → IsSafeWorld w
Reach-IsSafe start = record { sent = tt; known = tt; ordered = tt; confirmed = tt }
Reach-IsSafe (later before step) = Step-IsSafe step (Reach-IsSafe before)

All-at : (P : Row → Type 0) (above below : List Row) (x : Row) → All P (above ++ x ∷ below) → P x
All-at P [] below x h = h.0
All-at P (y ∷ ys) below x h = All-at P ys below x h.1

InOrder-at :
    (table seen above below : List Row) (x : Row)
    → InOrder table seen (above ++ x ∷ below)
    → Follows table (seen ++ above) x
InOrder-at table seen [] below x h = subst (λ s. Follows table s x) (sym (append-nil seen)) h.0
InOrder-at table seen (y ∷ ys) below x h =
    subst (λ s. Follows table s x) (append_assoc seen (y ∷ []) ys)
      (InOrder-at table (seen ++ y ∷ []) ys below x h.1)

-- No event is lost: in every world that the replicas reach, whatever the order of their steps, the
-- failures and the crashes, a row that is marked as published has reached the broker.
pub published_of_Reach :
    {w : World}
    → Reach w
    → (above below : List Row) (row : Row) → w.table ≡ above ++ row ∷ below
    → is_pending row ≡ false
    → is_in w.broker row.id ≡ true
published_of_Reach {w} reach above below row e published =
    All-at _ above below row (subst (IsSent w.broker) e (Reach-IsSafe reach).sent) published

-- The events of a request reach the broker in the order in which they were recorded: in every world
-- that the replicas reach, before any delivery of a row the broker got every row of the table that
-- tells of the same request and has a smaller id. A row can be delivered more than once.
pub ordered_of_Reach :
    {w : World}
    → Reach w
    → (before after above below : List Row) (row earlier : Row) → w.broker ≡ before ++ row ∷ after
    → w.table ≡ above ++ earlier ∷ below
    → request_of earlier ≡ request_of row
    → earlier.id < row.id
    → is_in before earlier.id ≡ true
ordered_of_Reach {w} reach before after above below row earlier sent stored same older =
    let ordered =
      InOrder-prefix w.table [] w.broker (upcoming w.lock) (Reach-IsSafe reach).ordered in
    let follows =
      InOrder-at w.table [] before after row (subst (InOrder w.table []) sent ordered) in
    All-at _ above below earlier (subst (λ t. Follows t before row) stored follows) same older
