-- ===== src/Relay/Replicas/Order.antt =====
-- When a sequence of rows keeps the order of each request, and how the parts of a drain do.
use processing_catalog.Prelude.{
  List, All, ◌∷◌, ℕ, ◌++◌, Bool, Bool-cases, ◌≡◌, ◌≤◌, leb, take, [], inl, ◌<◌, if◌then◌else◌, suc,
  sym, any, ◌⊎◌, ap, ◌||◌, arith, nat_eq, zero, true, refl, inr, false, ◌∙◌, filter, append-nil,
  All-both, All-mono, append_assoc, drop,
}
use mathlib.Core.Path.{subst}
use processing_catalog.Relay.Replicas.{request_of}
use processing_catalog.Relay.Drain.{insert_by_id, order_by_id, Row, is_pending, pending}

abbrev pub is_in : List Row → ℕ → Bool
is_in rows id = any (λ r. nat_eq r.id id) rows

-- The rows of the request of `x` that were recorded before it are among `seen`.
abbrev pub Follows : List Row → List Row → Row → Type 0
Follows table seen x =
    All (λ y. request_of y ≡ request_of x → y.id < x.id → is_in seen y.id ≡ true) table

-- Each row of the sequence follows, in it or in `seen`, the earlier rows of its request.
abbrev pub InOrder : List Row → List Row → List Row → Type 0
InOrder table seen [] = Unit
InOrder table seen (x ∷ xs) = Follows table seen x × InOrder table (seen ++ x ∷ []) xs

-- The table has a row of this id and request.
abbrev pub IsKnown : List Row → Row → Type 0
IsKnown [] x = ⊥
IsKnown (y ∷ ys) x = ((y.id ≡ x.id) × (request_of y ≡ request_of x)) ⊎ IsKnown ys x

pub is_in-append : (xs ys : List Row) (id : ℕ) → is_in (xs ++ ys) id ≡ (is_in xs id || is_in ys id)
is_in-append [] ys id = refl
is_in-append (x ∷ xs) ys id = ground (arith, is_in-append xs ys id)

module _ (table : List Row) where
  pub InOrder-append :
      (seen xs ys : List Row)
      → InOrder table seen xs
      → InOrder table (seen ++ xs) ys
      → InOrder table seen (xs ++ ys)
  InOrder-append seen [] ys h k = subst (λ s. InOrder table s ys) (append-nil seen) k
  InOrder-append seen (x ∷ xs) ys h k = (
    h.0,
    InOrder-append (seen ++ x ∷ []) xs ys h.1
        (subst (λ s. InOrder table s ys) (sym (append_assoc seen (x ∷ []) xs)) k),
  )

  pub InOrder-prefix :
      (seen xs ys : List Row) → InOrder table seen (xs ++ ys) → InOrder table seen xs
  InOrder-prefix seen [] ys h = tt
  InOrder-prefix seen (x ∷ xs) ys h = (h.0, InOrder-prefix (seen ++ x ∷ []) xs ys h.1)

  pub InOrder-take :
      (n : ℕ) (seen xs : List Row) → InOrder table seen xs → InOrder table seen (take n xs)
  InOrder-take zero seen xs h = tt
  InOrder-take (suc n) seen [] h = tt
  InOrder-take (suc n) seen (x ∷ xs) h = (h.0, InOrder-take n (seen ++ x ∷ []) xs h.1)

abbrev IsSorted : List Row → Type 0
IsSorted [] = Unit
IsSorted (x ∷ xs) = All (λ y. x.id ≤ y.id) xs × IsSorted xs

insert_by_id-All :
    (P : Row → Type 0) (x : Row) (xs : List Row) → P x → All P xs → All P (insert_by_id x xs)
unfolding insert_by_id
insert_by_id-All P x [] p h = (p, tt)
insert_by_id-All P x (y ∷ ys) p h =
    elim (leb x.id y.id) as (λ b. All P (if b then x ∷ y ∷ ys else y ∷ insert_by_id x ys)) [
      | true ↦ (p, h)
      | false ↦ (h.0, insert_by_id-All P x ys p h.1)
    ]

le_of_leb : {n m : ℕ} → leb n m ≡ true → n ≤ m
le_of_leb h = ground arith

insert_by_id-IsSorted : (x : Row) (xs : List Row) → IsSorted xs → IsSorted (insert_by_id x xs)
unfolding insert_by_id
insert_by_id-IsSorted x [] h = (tt, tt)
insert_by_id-IsSorted x (y ∷ ys) h = elim (Bool-cases (leb x.id y.id)) [
  | inl below ↦
      rw below ((le_of_leb below, All-mono (λ z p. omega (arith, le_of_leb below)) ys h.0), h)
  | inr above ↦
      rw above (
        insert_by_id-All (λ z. y.id ≤ z.id) x ys (ground arith) h.0,
        insert_by_id-IsSorted x ys h.1,
      )
]

pub order_by_id-IsSorted : (xs : List Row) → IsSorted (order_by_id xs)
unfolding order_by_id
order_by_id-IsSorted [] = tt
order_by_id-IsSorted (x ∷ xs) = insert_by_id-IsSorted x (order_by_id xs) (order_by_id-IsSorted xs)

insert_by_id-is_in :
    (x : Row) (xs : List Row) (id : ℕ)
    → is_in (insert_by_id x xs) id ≡ (nat_eq x.id id || is_in xs id)
unfolding insert_by_id
insert_by_id-is_in x [] id = refl
insert_by_id-is_in x (y ∷ ys) id = ground (arith, insert_by_id-is_in x ys id)

order_by_id-is_in : (xs : List Row) (id : ℕ) → is_in (order_by_id xs) id ≡ is_in xs id
unfolding order_by_id
order_by_id-is_in [] id = refl
order_by_id-is_in (x ∷ xs) id =
    insert_by_id-is_in x (order_by_id xs) id ∙ ap (nat_eq x.id id ||◌) (order_by_id-is_in xs id)

not_in_above :
    (n : ℕ) (xs : List Row) (id : ℕ) → All (λ y. n ≤ y.id) xs → id < n → is_in xs id ≡ false
not_in_above n [] id h l = refl
not_in_above n (x ∷ xs) id h l = ground (arith, not_in_above n xs id h.1 l)

-- Rows in the order of their ids that hold, with those that were seen, every row of the table.
sorted-InOrder :
    (table seen xs : List Row)
    → IsSorted xs
    → All (λ y. (is_in seen y.id || is_in xs y.id) ≡ true) table
    → InOrder table seen xs
sorted-InOrder table seen [] s h = tt
sorted-InOrder table seen (x ∷ xs) s h = (
  All-mono (λ y p same below. ground (arith, not_in_above x.id xs y.id s.0 below)) table h,
  sorted-InOrder table (seen ++ x ∷ []) xs s.1
      (All-mono (λ y p. ground (arith, is_in-append seen (x ∷ []) y.id)) table h),
)

filter-is_in :
    (table : List Row)
    → All (λ y. is_pending y ≡ true → is_in (filter is_pending table) y.id ≡ true) table
filter-is_in [] = tt
filter-is_in (x ∷ xs) =
    (λ p. ground arith, All-mono (λ y h p. ground (arith, h p)) xs (filter-is_in xs))

-- The pending rows in the order of their ids, once those that are published have been sent.
pub pending-InOrder :
    (table broker : List Row)
    → All (λ y. is_pending y ≡ false → is_in broker y.id ≡ true) table
    → InOrder table broker (pending table)
unfolding pending
pending-InOrder table broker h =
    sorted-InOrder table broker (order_by_id (filter is_pending table)) (order_by_id-IsSorted _) (
      All-both
        (λ y p q. ground (
          arith,
          order_by_id-is_in (filter is_pending table) y.id,
          Bool-cases (is_pending y),
          p,
          q,
        ))
        table h (filter-is_in table))

pub take-drop : (n : ℕ) (xs : List Row) → take n xs ++ drop n xs ≡ xs
take-drop zero xs = refl
take-drop (suc n) [] = refl
take-drop (suc n) (x ∷ xs) = ap (x ∷◌) (take-drop n xs)

self-IsKnown : (table : List Row) → All (IsKnown table) table
self-IsKnown [] = tt
self-IsKnown (x ∷ xs) = (inl (refl, refl), All-mono (λ y k. inr k) xs (self-IsKnown xs))

order_by_id-All : (P : Row → Type 0) (xs : List Row) → All P xs → All P (order_by_id xs)
unfolding order_by_id
order_by_id-All P [] h = tt
order_by_id-All P (x ∷ xs) h = insert_by_id-All P x (order_by_id xs) h.0 (order_by_id-All P xs h.1)

All-filter : (P : Row → Type 0) (p : Row → Bool) (xs : List Row) → All P xs → All P (filter p xs)
All-filter P p [] h = tt
All-filter P p (x ∷ xs) (h, k) = ground (arith, All-filter P p xs k)

pub pending-IsKnown : (table : List Row) → All (IsKnown table) (pending table)
unfolding pending
pending-IsKnown table =
    order_by_id-All (IsKnown table) (filter is_pending table)
      (All-filter (IsKnown table) is_pending table (self-IsKnown table))
