-- ===== src/Relay/Replicas/Alone.antt =====
-- The drain of src/infrastructure/messaging/outbox-relay.ts, when no one interferes, is a run of the
-- steps.
use processing_catalog.Prelude.{
  List, ℕ, none, ◌++◌, some, true, ◌∷◌, [], sym, ◌≡◌, refl, append-nil, take, append_assoc, false,
}
use processing_catalog.Relay.Drain.{
  Row, publish, drain_transaction, mark_published, after_send, pending,
}
use processing_catalog.Outcome.{Result, ok, err}
use mathlib.Core.Path.{subst}
use processing_catalog.Relay.Replicas.{
  mark_all, World, Steps, next, commits, begins, confirms, done, fails,
}

abbrev idle : List Row → List Row → World
idle table broker = record { table = table; broker = broker; lock = none }

abbrev running : List Row → List Row → List Row → List ℕ → ℕ → World
running table broker todo marked now = record {
  table = table;
  broker = broker;
  lock = some (record { todo = todo; marked = marked; now = now });
}

mark_all-append :
    (now id : ℕ) (ids : List ℕ) (table : List Row)
    → mark_all now (ids ++ id ∷ []) table ≡ mark_published now id (mark_all now ids table)
unfolding mark_all
mark_all-append now id [] table = refl
mark_all-append now id (i ∷ ids) table = mark_all-append now id ids (mark_published now i table)

-- The end of a loop: the marks are committed.
finished :
    (table broker : List Row) (marked : List ℕ) (now : ℕ)
    → Steps (running table broker [] marked now) (idle (mark_all now marked table) broker)
finished table broker marked now = next (commits marked now refl) done

-- A run that ends with the same rows at the broker.
same_broker :
    {v : World} {table b c : List Row} → b ≡ c → Steps v (idle table b) → Steps v (idle table c)
same_broker {v} {table} e = subst (λ x. Steps v (idle table x)) e

module _ (send : Row → Result (Unit {0})) (now : ℕ) where
  turn-Steps :
      (row : Row) (rows table broker : List Row) (marked : List ℕ) (r : Result (Unit {0}))
      → let rest = publish send now rows (mark_published now row.id (mark_all now marked table)) in
        Steps
          (running table (broker ++ row ∷ []) rows (marked ++ row.id ∷ []) now)
          (idle rest.table ((broker ++ row ∷ []) ++ rest.sent))
        → let d = after_send row rest (mark_all now marked table) r in
          Steps (running table broker (row ∷ rows) marked now) (idle d.table (broker ++ d.sent))
  turn-Steps row rows table broker marked (ok u) then_ = next (confirms row rows marked now refl) (
      same_broker
        (append_assoc broker (row ∷ [])
          (publish send now rows (mark_published now row.id (mark_all now marked table))).sent)
        then_)
  turn-Steps row rows table broker marked (err e) then_ =
      next (fails row rows marked now false refl) (finished table (broker ++ []) marked now)

  -- A loop over the rows, from what it has marked.
  loop-Steps :
      (rows table broker : List Row) (marked : List ℕ)
      → let d = publish send now rows (mark_all now marked table) in
        Steps (running table broker rows marked now) (idle d.table (broker ++ d.sent))
  unfolding publish
  loop-Steps [] table broker marked =
      same_broker (sym (append-nil broker)) (finished table broker marked now)
  loop-Steps (row ∷ rows) table broker marked = turn-Steps row rows table broker marked (send row) (
      subst
        (λ t. Steps (running table (broker ++ row ∷ []) rows (marked ++ row.id ∷ []) now) (
          idle (publish send now rows t).table
            ((broker ++ row ∷ []) ++ (publish send now rows t).sent)))
        (mark_all-append now row.id marked table)
        (loop-Steps rows table (broker ++ row ∷ []) (marked ++ row.id ∷ [])))

  -- A drain that gets the lock, with no one else at work, is a run of the steps: it starts in the
  -- world of its table, and ends in that of the table it leaves, where the broker got the rows it
  -- sent, in this order.
  pub drain-Steps :
      (batch_size : ℕ) (table broker : List Row)
      → let d = drain_transaction send now true batch_size table in
        Steps (idle table broker) (idle d.table (broker ++ d.sent))
  unfolding drain_transaction mark_all
  drain-Steps batch_size table broker =
      next (begins batch_size now refl)
        (loop-Steps (take batch_size (pending table)) table broker [])
