-- ===== src/Relay/Delivered.antt =====
-- What a drain of the relay (src/infrastructure/messaging/outbox-relay.ts) publishes and marks.
use processing_catalog.Relay.Drain.{
  order_by_id, Row, pending, mark_published, publish, drain_transaction, is_pending, Drained,
  after_send,
}
use processing_catalog.Prelude.{
  true, false, sym, nat_eq, ap, ◌∙◌, ◌++◌, List, ℕ, ◌∷◌, All, ◌≡◌, Bool, Option, filter, arith, [],
  ◌<◌, ◌++◌, refl, some, take, sym, none, zero, if◌then◌else◌,
}
use processing_catalog.Outcome.{Result, Error, ok, err}
use mathlib.Core.Path.{subst}
use Prim.Native.Nat.{ℕ, suc}

-- The ids of a table that grows by a bigserial increase.
abbrev pub IsOrdered : List Row → Type 0
IsOrdered [] = Unit
IsOrdered (x ∷ xs) = All (λ y. x.id < y.id) xs × IsOrdered xs

-- What stopped the loop at the first of the rows that are left.
abbrev pub Stopped : (Row → Result (Unit {0})) → Option Error → List Row → Type 0
Stopped send none rest = rest ≡ []
Stopped send (some e) [] = ⊥
Stopped send (some e) (row ∷ rest) = send row ≡ err e

insert_by_id-least :
    (x : Row) (xs : List Row)
    → All (λ y. x.id < y.id) xs
    → order_by_id xs ≡ xs
    → order_by_id (x ∷ xs) ≡ x ∷ xs
unfolding order_by_id
insert_by_id-least x [] h e = refl
insert_by_id-least x (y ∷ ys) h e = ground arith

order_by_id-IsOrdered : (xs : List Row) → IsOrdered xs → order_by_id xs ≡ xs
unfolding order_by_id
order_by_id-IsOrdered [] h = refl
order_by_id-IsOrdered (x ∷ xs) h = insert_by_id-least x xs h.0 (order_by_id-IsOrdered xs h.1)

filter-All : (P : Row → Type 0) (p : Row → Bool) (xs : List Row) → All P xs → All P (filter p xs)
filter-All P p [] h = tt
filter-All P p (x ∷ xs) (h, k) = ground (arith, filter-All P p xs k)

filter-IsOrdered : (p : Row → Bool) (xs : List Row) → IsOrdered xs → IsOrdered (filter p xs)
filter-IsOrdered p [] h = tt
filter-IsOrdered p (x ∷ xs) (h, k) =
    ground (arith, filter-All (λ y. x.id < y.id) p xs h, filter-IsOrdered p xs k)

pub pending_of_IsOrdered : (xs : List Row) → IsOrdered xs → pending xs ≡ filter is_pending xs
unfolding pending
pending_of_IsOrdered xs h =
    order_by_id-IsOrdered (filter is_pending xs) (filter-IsOrdered is_pending xs h)

module _ (now : ℕ) where
  mark_published-All :
      (k id : ℕ) (xs : List Row)
      → All (λ y. k < y.id) xs
      → All (λ y. k < y.id) (mark_published now id xs)
  unfolding mark_published
  mark_published-All k id [] h = tt
  mark_published-All k id (x ∷ xs) h = (ground arith, mark_published-All k id xs h.1)

  mark_published-IsOrdered :
      (id : ℕ) (xs : List Row) → IsOrdered xs → IsOrdered (mark_published now id xs)
  unfolding mark_published
  mark_published-IsOrdered id [] h = tt
  mark_published-IsOrdered id (x ∷ xs) h = (
    elim (nat_eq x.id id)
        as (λ b.
          All (λ y. (if b then record x { published_at = some now } else x).id < y.id)
            (mark_published now id xs)) [
              | true ↦ mark_published-All x.id id xs h.0
              | false ↦ mark_published-All x.id id xs h.0
            ],
    mark_published-IsOrdered id xs h.1,
  )

  mark_published_above :
      (id : ℕ) (xs : List Row) → All (λ y. id < y.id) xs → mark_published now id xs ≡ xs
  unfolding mark_published
  mark_published_above id [] h = refl
  mark_published_above id (x ∷ xs) h = ground (arith, mark_published_above id xs)

  mark_published-first :
      (row : Row) (rest xs : List Row)
      → IsOrdered xs
      → filter is_pending xs ≡ row ∷ rest
      → filter is_pending (mark_published now row.id xs) ≡ rest
  unfolding mark_published
  mark_published-first row rest [] h e = ground arith
  mark_published-first row rest (x ∷ xs) h e =
      ground (
        arith,
        mark_published-first row rest xs h.1,
        ap is_pending,
        mark_published_above x.id xs h.0,
      )

  after_send-pending :
      (row : Row) (rows table : List Row) (rest : Drained) (r : Result (Unit {0}))
      → IsOrdered table
      → filter is_pending table ≡ row ∷ rows
      → IsOrdered rest.table
      → rows ≡ rest.sent ++ filter is_pending rest.table
      → let d = after_send row rest table r in
        IsOrdered d.table × (row ∷ rows ≡ d.sent ++ filter is_pending d.table)
  after_send-pending row rows table rest (ok u) h e o q = (o, ap (row ∷◌) q)
  after_send-pending row rows table rest (err x) h e o q = (h, sym e)

  module _ (send : Row → Result (Unit {0})) where
    pub publish-pending :
        (n : ℕ) (rows table : List Row)
        → IsOrdered table
        → filter is_pending table ≡ rows
        → let d = publish send now (take n rows) table in
          IsOrdered d.table × (rows ≡ d.sent ++ filter is_pending d.table)
    unfolding publish
    publish-pending zero rows table h e = (h, sym e)
    publish-pending (suc n) [] table h e = (h, sym e)
    publish-pending (suc n) (row ∷ rows) table h e =
        let rest =
          publish-pending n rows (mark_published now row.id table)
            (mark_published-IsOrdered row.id table h) (mark_published-first row rows table h e) in
        after_send-pending row rows table _ (send row) h e rest.0 rest.1

    -- No event is lost and none is sent out of turn: the rows that were pending, in the order of
    -- their ids, are those that the drain sent, in this order, and then those that are pending after
    -- it. This holds of a table whose ids increase, whatever the broker confirms.
    pub drain-pending :
        (locked : Bool) (batch_size : ℕ) (table : List Row)
        → IsOrdered table
        → let d = drain_transaction send now locked batch_size table in
          pending table ≡ d.sent ++ pending d.table
    unfolding drain_transaction
    drain-pending false batch_size table h = refl
    drain-pending true batch_size table h =
        let (o, q) = publish-pending batch_size (filter is_pending table) table h refl in
        subst
          (λ rows.
            rows
            ≡ (publish send now (take batch_size rows) table).sent
              ++ pending (publish send now (take batch_size rows) table).table)
          (sym (pending_of_IsOrdered table h))
          (q
            ∙ ap ((publish send now (take batch_size (filter is_pending table)) table).sent ++◌)
                (sym (pending_of_IsOrdered _ o)))

    abbrev IsExplained : List Row → Drained → Type 0
    IsExplained rows d =
        (rest : List Row) × (rows ≡ d.sent ++ rest)
        × All (λ row. send row ≡ ok tt) d.sent
        × Stopped send d.failure rest

    after_send-IsExplained :
        (row : Row) (rows table : List Row) (rest : Drained) (r : Result (Unit {0}))
        → send row ≡ r
        → IsExplained rows rest
        → IsExplained (row ∷ rows) (after_send row rest table r)
    after_send-IsExplained row rows table rest (ok u) p (left, e, sent, stop) =
        (left, ap (row ∷◌) e, (p, sent), stop)
    after_send-IsExplained row rows table rest (err x) p h = (row ∷ rows, refl, tt, p)

    -- The loop goes through the rows in their order and sends each that the broker confirms; it
    -- stops with the failure of the first one that the broker does not, or at the end of the rows.
    pub publish-Stopped :
        (rows table : List Row)
        → let d = publish send now rows table in
          (rest : List Row) × (rows ≡ d.sent ++ rest)
          × All (λ row. send row ≡ ok tt) d.sent
          × Stopped send d.failure rest
    unfolding publish
    publish-Stopped [] table = ([], refl, tt, refl)
    publish-Stopped (row ∷ rows) table =
        after_send-IsExplained row rows table _ (send row) refl
          (publish-Stopped rows (mark_published now row.id table))
