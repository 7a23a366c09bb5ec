-- ===== src/Relay/Liveness.antt =====
-- Repeated drains empty the outbox: src/infrastructure/messaging/outbox-relay.ts.
use processing_catalog.Outcome.{Result, ok}
use processing_catalog.Prelude.{
  ℕ, List, suc, All, ◌≡◌, true, zero, ◌∷◌, ap, [], refl, drop, take, length, ◌≤◌, ◌++◌, ◌*◌, arith,
  ◌+◌, sym, ◌∙◌, filter, All-drop, All-take,
}
use processing_catalog.Relay.Delivered.{IsOrdered, publish-pending, pending_of_IsOrdered}
use mathlib.Core.Path.{subst}
use processing_catalog.Relay.Drain.{
  publish, Row, drain, mark_published, drain_transaction, pending, is_pending,
}

-- The table after `n` drains that get the lock, the i-th at the time `now i`.
unfoldable pub drains : (Row → Result (Unit {0})) → (ℕ → ℕ) → ℕ → ℕ → List Row → List Row
drains send now batch_size zero table = table
drains send now batch_size (suc n) table =
    drains send now batch_size n (drain send (now n) true batch_size table).1

publish-sent :
    (send : Row → Result (Unit {0})) (now : ℕ) (rows table : List Row)
    → All (λ row. send row ≡ ok tt) rows
    → (publish send now rows table).sent ≡ rows
unfolding publish
publish-sent send now [] table h = refl
publish-sent send now (row ∷ rows) table h =
    rw (h.0) (ap (row ∷◌) (publish-sent send now rows (mark_published now row.id table) h.1))

append_take : (n : ℕ) (xs rest : List Row) → xs ≡ take n xs ++ rest → rest ≡ drop n xs
append_take zero xs rest e = sym e
append_take (suc n) [] rest e = sym e
append_take (suc n) (x ∷ xs) rest e = append_take n xs rest (ap (drop 1) e)

length-drop : (n m : ℕ) (xs : List Row) → length xs ≤ n + m → length (drop n xs) ≤ m
length-drop zero m xs h = omega arith
length-drop (suc n) m [] h = ground arith
length-drop (suc n) m (x ∷ xs) h = length-drop n m xs (ground arith)

short_of_empty : (xs : List Row) → length xs ≤ 0 → xs ≡ []
short_of_empty [] h = refl
short_of_empty (x ∷ xs) h = ground arith

module _ (send : Row → Result (Unit {0})) where
  -- A drain whose sends the broker confirms leaves the pending rows after the first batch.
  drain-drop :
      (now batch_size : ℕ) (table : List Row)
      → IsOrdered table
      → All (λ row. send row ≡ ok tt) (pending table)
      → let left = (drain send now true batch_size table).1 in
        IsOrdered left × (pending left ≡ drop batch_size (pending table))
  unfolding drain drain_transaction
  drain-drop now batch_size table h confirmed =
      let (o, q) =
        publish-pending now send batch_size (pending table) table h
          (sym (pending_of_IsOrdered table h)) in
      let sent =
        publish-sent send now (take batch_size (pending table)) table
          (All-take _ batch_size (pending table) confirmed) in
      let left = (drain send now true batch_size table).1 in
      (
        o,
        pending_of_IsOrdered _ o
            ∙ append_take batch_size (pending table) _ (q ∙ ap (◌++ filter is_pending left) sent),
      )

  -- Every pending row is delivered in the end. For a table whose ids increase, and a broker that
  -- confirms each of the pending rows, `n` drains that get the lock leave no row pending, if no row
  -- is recorded meanwhile and `n` batches hold as many rows as are pending.
  pub drains-deliver :
      (now : ℕ → ℕ) (batch_size n : ℕ) (table : List Row)
      → IsOrdered table
      → All (λ row. send row ≡ ok tt) (pending table)
      → length (pending table) ≤ n * batch_size
      → pending (drains send now batch_size n table) ≡ []
  unfolding drains
  drains-deliver now batch_size zero table h confirmed short =
      short_of_empty (pending table) (omega arith)
  drains-deliver now batch_size (suc n) table h confirmed short =
      let (o, left) = drain-drop (now n) batch_size table h confirmed in
      drains-deliver now batch_size n _ o
        (subst (All (λ row. send row ≡ ok tt)) (sym left)
          (All-drop _ batch_size (pending table) confirmed))
        (subst (λ rows. length rows ≤ n * batch_size) (sym left)
          (length-drop batch_size (n * batch_size) (pending table) (omega arith)))
