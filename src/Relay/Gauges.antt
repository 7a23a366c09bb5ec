-- ===== src/Relay/Gauges.antt =====
-- The gauges and the counter of src/observability/metrics.ts that
-- src/infrastructure/messaging/outbox-relay.ts feeds. Timestamps are whole milliseconds.
use mathlib.Core.Option.{map as map_option, some-injective}
use processing_catalog.Relay.Drain.{
  Row, pending, pending_count, is_pending, order_by_id, insert_by_id,
}
use processing_catalog.Prelude.{
  ℤ, ℕ, List, pos, length, Option, ◌≡◌, none, suc, some, ◌∷◌, ◌+◌, ◌/◌, All, arith, ◌∙◌,
  if◌then◌else◌, leb, negsuc, [], ◌≤◌, ap, refl, opposite, difference, Option-cases, filter, inl,
  zero, Bool-cases, ◌⊎◌, any, nat_eq, true, sym, inr, ◌-◌, All-mono,
}
use processing_catalog.Outcome.{ok}
use mathlib.Core.Path.{subst}
use processing_catalog.Metrics.{OutboxGaugeSource, CatalogMetrics, collect, set_outbox_source}

least : ℕ → List Row → ℕ
least t [] = t
least t (row ∷ rows) = least (if leb row.created_at t then row.created_at else t) rows

-- min(created_at), a null where there is no row
unfoldable pub earliest : List Row → Option ℕ
unfolding least
earliest [] = none
earliest (row ∷ rows) = some (least row.created_at rows)

-- A number of seconds from one of milliseconds: the cast to int rounds, a half away from zero.
abbrev pub to_seconds : ℤ → ℤ
to_seconds (pos ms) = pos ((ms + 500) / 1000)
to_seconds (negsuc ms) = opposite ((ms + 501) / 1000)

-- `now` is the answer of now()
unfoldable pub oldest_pending_age_seconds : ℕ → List Row → Option ℤ
unfolding earliest
oldest_pending_age_seconds now table =
    map_option (λ t. to_seconds (difference now t)) (earliest (filter is_pending table))

-- The relay as the source of the gauges.
abbrev pub relay : ℕ → OutboxGaugeSource (List Row)
relay now = record {
  pending_count = λ table. (ok (pending_count table), table);
  oldest_pending_age_seconds = λ table. (ok (oldest_pending_age_seconds now table), table);
}

-- onModuleInit; `now` is the now() of the SQL at the scrapes that follow
unfoldable pub on_module_init : ℕ → CatalogMetrics (List Row) → CatalogMetrics (List Row)
unfolding set_outbox_source
on_module_init now metrics = set_outbox_source metrics (relay now)

length-insert_by_id : (x : Row) (rows : List Row) → length (insert_by_id x rows) ≡ suc (length rows)
unfolding insert_by_id
length-insert_by_id x [] = refl
length-insert_by_id x (y ∷ ys) = ground (arith, length-insert_by_id x ys)

length-order_by_id : (rows : List Row) → length (order_by_id rows) ≡ length rows
unfolding order_by_id
length-order_by_id [] = refl
length-order_by_id (x ∷ xs) =
    length-insert_by_id x (order_by_id xs) ∙ ap suc (length-order_by_id xs)

-- No row is older than the least time,
least-le :
    (t : ℕ) (rows : List Row) → (least t rows ≤ t) × All (λ row. least t rows ≤ row.created_at) rows
unfolding least
least-le t [] = (omega arith, tt)
least-le t (row ∷ rows) =
    let (below, all) = least-le (if leb row.created_at t then row.created_at else t) rows in
    (ground (arith, below), (ground (arith, below), all))

-- which is the time of one of them.
least-any :
    (t : ℕ) (rows : List Row)
    → (least t rows ≡ t) ⊎ (any (λ row. nat_eq row.created_at (least t rows)) rows ≡ true)
unfolding least
least-any t [] = inl refl
least-any t (row ∷ rows) =
    ground (arith, least-any (if leb row.created_at t then row.created_at else t) rows)

least_in :
    (row : Row) (rows : List Row)
    → any (λ r. nat_eq r.created_at (least row.created_at rows)) (row ∷ rows) ≡ true
least_in row rows = ground (arith, least-any row.created_at rows)

-- The order of the integers.
abbrev pub IsAtMost : ℤ → ℤ → Type 0
IsAtMost (pos a) (pos b) = a ≤ b
IsAtMost (negsuc a) (pos b) = Unit
IsAtMost (pos a) (negsuc b) = ⊥
IsAtMost (negsuc a) (negsuc b) = b ≤ a

opposite-pos : (a b : ℕ) → IsAtMost (opposite a) (pos b)
opposite-pos zero b = omega arith
opposite-pos (suc a) b = tt

opposite-IsAtMost : (a b : ℕ) → a ≤ b → IsAtMost (opposite b) (opposite a)
opposite-IsAtMost zero b h = opposite-pos b 0
opposite-IsAtMost (suc a) zero h = ground (arith, h)
opposite-IsAtMost (suc a) (suc b) h = omega (arith, h)

past_of_le : (now t u : ℕ) → t ≤ u → leb u now ≡ true → leb t now ≡ true
past_of_le now t u h late = ground (arith, h, late)

difference-IsAtMost : (now t u : ℕ) → t ≤ u → IsAtMost (difference now u) (difference now t)
difference-IsAtMost now t u h = elim (Bool-cases (leb u now)) [
  | inl late ↦ rw (late, past_of_le now t u h late) (omega (arith, h))
  | inr early ↦ elim (Bool-cases (leb t now)) [
    | inl past ↦ rw (early, past) (opposite-pos (u - now) (now - t))
    | inr ahead ↦ rw (early, ahead) (opposite-IsAtMost (t - now) (u - now) (omega (arith, h)))
  ]
]

to_seconds-IsAtMost : (x y : ℤ) → IsAtMost x y → IsAtMost (to_seconds x) (to_seconds y)
to_seconds-IsAtMost (pos a) (pos b) h = omega (arith, h)
to_seconds-IsAtMost (negsuc a) (pos b) h = opposite-pos ((a + 501) / 1000) ((b + 500) / 1000)
to_seconds-IsAtMost (pos a) (negsuc b) h = elim h [ ]
to_seconds-IsAtMost (negsuc a) (negsuc b) h =
    opposite-IsAtMost ((b + 501) / 1000) ((a + 501) / 1000) (omega (arith, h))

-- The age that the gauge shows of a row, in seconds.
abbrev pub age : ℕ → Row → ℤ
age now row = to_seconds (difference now row.created_at)

oldest-ages :
    (now : ℕ) (rows : List Row) (shown : ℤ)
    → map_option (λ t. to_seconds (difference now t)) (earliest rows) ≡ some shown
    → All (λ row. IsAtMost (age now row) shown) rows
unfolding earliest
oldest-ages now [] shown h = tt
oldest-ages now (row ∷ rows) shown h =
    let (own, others) = least-le row.created_at rows in
    let same = some-injective _ _ h in
    subst (λ x. All (λ r. IsAtMost (age now r) x) (row ∷ rows)) same
      (All-mono
        (λ r below.
          to_seconds-IsAtMost _ _
            (difference-IsAtMost now (least row.created_at rows) r.created_at below))
        (row ∷ rows) (own, others))

-- What the gauge of the oldest row shows, over the pending rows.
abbrev pub ShowsOldest : ℕ → List Row → ℤ → Type 0
ShowsOldest now rows shown =
    All (λ row. IsAtMost (age now row) shown) rows
    × ((rows ≡ []) × (shown ≡ pos 0)
        ⊎ (t : ℕ) × (any (λ row. nat_eq row.created_at t) rows ≡ true)
          × (shown ≡ to_seconds (difference now t)))

-- … ?? 0
abbrev or_zero : Option ℤ → ℤ
or_zero none = pos 0
or_zero (some x) = x

shows-oldest :
    (now : ℕ) (rows : List Row)
    → ShowsOldest now rows
        (or_zero (map_option (λ t. to_seconds (difference now t)) (earliest rows)))
unfolding earliest
shows-oldest now [] = (tt, inl (refl, refl))
shows-oldest now (row ∷ rows) =
    (oldest-ages now (row ∷ rows) _ refl, inr (least row.created_at rows, least_in row rows, refl))

scraped-oldest :
    (now : ℕ) (metrics : CatalogMetrics (List Row)) (table : List Row)
    → (collect (on_module_init now metrics) table).outbox_oldest_pending_seconds
      ≡ or_zero (oldest_pending_age_seconds now table)
unfolding collect on_module_init
scraped-oldest now metrics table = elim (Option-cases (oldest_pending_age_seconds now table)) [
  | inl empty ↦ rw empty refl
  | inr (x, there) ↦ rw there refl
]

-- A scrape of the relay's metrics shows how many rows are pending, those that the drains have yet to
-- send, and the age of the oldest of them by the time they were recorded, in seconds: no pending row
-- is older, and it is the age of one, or 0 where none is pending.
pub scrape-pending :
    (now : ℕ) (metrics : CatalogMetrics (List Row)) (table : List Row)
    → let shown = collect (on_module_init now metrics) table in
      (shown.outbox_pending_rows ≡ length (pending table))
      × ShowsOldest now (filter is_pending table) shown.outbox_oldest_pending_seconds
unfolding collect on_module_init pending pending_count oldest_pending_age_seconds
scrape-pending now metrics table = (
  sym (length-order_by_id (filter is_pending table)),
  subst (ShowsOldest now (filter is_pending table)) (sym (scraped-oldest now metrics table))
      (shows-oldest now (filter is_pending table)),
)
