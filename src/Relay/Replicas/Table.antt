-- ===== src/Relay/Replicas/Table.antt =====
-- What a recorded event and a committed mark do to the order of a sequence of rows.
use processing_catalog.Prelude.{
  ℕ, List, All, ◌++◌, ◌∷◌, ◌≡◌, [], false, inl, nat_eq, true, arith, ◌<◌, sym, if◌then◌else◌, inr,
  ◌∙◌, some, All-append,
}
use processing_catalog.Relay.Replicas.Order.{is_in, IsKnown, InOrder, is_in-append}
use processing_catalog.Value.{Value}
use processing_catalog.Relay.Replicas.{mark_all, request_of}
use processing_catalog.Relay.Drain.{mark_published, Row, is_pending}

abbrev pub IsNewest : List Row → Row → Type 0
IsNewest table row = All (λ y. request_of y ≡ request_of row → y.id < row.id) table

-- A row that the table knows is older than a newer one of its request.
IsKnown-below :
    (table : List Row) (row x : Row)
    → IsKnown table x
    → IsNewest table row
    → request_of row ≡ request_of x
    → x.id < row.id
IsKnown-below [] row x k h same = elim k [ ]
IsKnown-below (y ∷ ys) row x (inl (e, r)) h same = rw (sym e) (h.0 (r ∙ sym same))
IsKnown-below (y ∷ ys) row x (inr k) h same = IsKnown-below ys row x k h.1 same

pub IsKnown-append :
    (table : List Row) (row x : Row) → IsKnown table x → IsKnown (table ++ row ∷ []) x
IsKnown-append [] row x k = elim k [ ]
IsKnown-append (y ∷ ys) row x (inl e) = inl e
IsKnown-append (y ∷ ys) row x (inr k) = inr (IsKnown-append ys row x k)

pub InOrder-records :
    (table : List Row) (row : Row) (seen xs : List Row)
    → IsNewest table row
    → All (IsKnown table) xs
    → InOrder table seen xs
    → InOrder (table ++ row ∷ []) seen xs
InOrder-records table row seen [] newest known h = tt
InOrder-records table row seen (x ∷ xs) newest known h = (
  All-append _ table (row ∷ []) h.0 (
    (λ same below. let older = IsKnown-below table row x known.0 newest same in ground arith),
    tt,
  ),
  InOrder-records table row (seen ++ x ∷ []) xs newest known.1 h.1,
)

-- A mark changes neither ids nor requests.
marked-All :
    (P : ℕ → Value → Type 0) (now id : ℕ) (table : List Row)
    → All (λ y. P y.id (request_of y)) table
    → All (λ y. P y.id (request_of y)) (mark_published now id table)
unfolding mark_published
marked-All P now id [] h = tt
marked-All P now id (y ∷ ys) h = (
  elim (nat_eq y.id id)
      as (λ b.
        let z = (if b then record y { published_at = some now } else y) in P z.id (request_of z)) [
          | true ↦ h.0
          | false ↦ h.0
        ],
  marked-All P now id ys h.1,
)

marked-IsKnown :
    (now id : ℕ) (table : List Row) (x : Row)
    → IsKnown table x
    → IsKnown (mark_published now id table) x
unfolding mark_published
marked-IsKnown now id [] x k = k
marked-IsKnown now id (y ∷ ys) x (inl e) =
    inl
      (elim (nat_eq y.id id)
        as (λ b.
          let z = (if b then record y { published_at = some now } else y) in
          (z.id ≡ x.id) × (request_of z ≡ request_of x)) [ true ↦ e | false ↦ e ])
marked-IsKnown now id (y ∷ ys) x (inr k) = inr (marked-IsKnown now id ys x k)

marked-InOrder :
    (now id : ℕ) (table seen xs : List Row)
    → InOrder table seen xs
    → InOrder (mark_published now id table) seen xs
marked-InOrder now id table seen [] h = tt
marked-InOrder now id table seen (x ∷ xs) h = (
  marked-All (λ n r. r ≡ request_of x → n < x.id → is_in seen n ≡ true) now id table h.0,
  marked-InOrder now id table (seen ++ x ∷ []) xs h.1,
)

-- Every row that is published is among `sent`.
abbrev pub IsSent : List Row → List Row → Type 0
IsSent sent table = All (λ y. is_pending y ≡ false → is_in sent y.id ≡ true) table

marked-IsSent :
    (now id : ℕ) (sent table : List Row)
    → is_in sent id ≡ true
    → IsSent sent table
    → IsSent sent (mark_published now id table)
unfolding mark_published
marked-IsSent now id sent [] h k = tt
marked-IsSent now id sent (y ∷ ys) h k =
    (λ p. ground (arith, k.0), marked-IsSent now id sent ys h k.1)

pub IsSent-records :
    (sent table : List Row) (row : Row)
    → is_pending row ≡ true
    → IsSent sent table
    → IsSent sent (table ++ row ∷ [])
IsSent-records sent table row p h = All-append _ table (row ∷ []) h ((λ q. ground arith), tt)

pub IsSent-grows : (sent more table : List Row) → IsSent sent table → IsSent (sent ++ more) table
IsSent-grows sent more [] h = tt
IsSent-grows sent more (y ∷ ys) h =
    (λ p. ground (arith, is_in-append sent more y.id, h.0 p), IsSent-grows sent more ys h.1)

module _ (now : ℕ) where
  pub mark_all-IsSent :
      (ids : List ℕ) (sent table : List Row)
      → All (λ id. is_in sent id ≡ true) ids
      → IsSent sent table
      → IsSent sent (mark_all now ids table)
  unfolding mark_all
  mark_all-IsSent [] sent table h k = k
  mark_all-IsSent (id ∷ ids) sent table h k =
      mark_all-IsSent ids sent (mark_published now id table) h.1
        (marked-IsSent now id sent table h.0 k)

  pub mark_all-InOrder :
      (ids : List ℕ) (table seen xs : List Row)
      → InOrder table seen xs
      → InOrder (mark_all now ids table) seen xs
  unfolding mark_all
  mark_all-InOrder [] table seen xs h = h
  mark_all-InOrder (id ∷ ids) table seen xs h =
      mark_all-InOrder ids (mark_published now id table) seen xs
        (marked-InOrder now id table seen xs h)

  pub mark_all-IsKnown :
      (ids : List ℕ) (table : List Row) (x : Row)
      → IsKnown table x
      → IsKnown (mark_all now ids table) x
  unfolding mark_all
  mark_all-IsKnown [] table x k = k
  mark_all-IsKnown (id ∷ ids) table x k =
      mark_all-IsKnown ids (mark_published now id table) x (marked-IsKnown now id table x k)
