-- ===== src/Query/Sorting.antt =====
-- The order of the pages (findPageByOwner of
-- src/infrastructure/in-memory-processing-request.repository.ts).
use processing_catalog.Domain.Request.{ProcessingRequest}
use processing_catalog.Query.Order.{IsSorted, Precedes, UnitsLe, Precedes-trans}
use processing_catalog.Text.{units_lt, text_lt, utf16}
use processing_catalog.Prelude.{
  List, Bool, ℕ, ◌∷◌, ◌≡◌, length, filter, true, false, arith, suc, [], refl, All, Bool-cases,
  if◌then◌else◌, inl, inr,
}
use processing_catalog.Memory.Store.{sort, stands_before, insert_sorted}

-- How often a request with some property is in a list.
abbrev pub occurrences : (ProcessingRequest → Bool) → List ProcessingRequest → ℕ
occurrences p xs = length (filter p xs)

units_lt-UnitsLe : (xs ys : List ℕ) → units_lt xs ys ≡ true → UnitsLe xs ys
unfolding units_lt
units_lt-UnitsLe [] ys h = tt
units_lt-UnitsLe (x ∷ xs) [] h = ground arith
units_lt-UnitsLe (x ∷ xs) (y ∷ ys) h = ground (arith, units_lt-UnitsLe xs ys)

not_units_lt-UnitsLe : (xs ys : List ℕ) → units_lt ys xs ≡ false → UnitsLe xs ys
unfolding units_lt
not_units_lt-UnitsLe [] ys h = tt
not_units_lt-UnitsLe (x ∷ xs) [] h = ground arith
not_units_lt-UnitsLe (x ∷ xs) (y ∷ ys) h = ground (arith, not_units_lt-UnitsLe xs ys)

stands_before-Precedes : (a b : ProcessingRequest) → stands_before a b ≡ true → Precedes a b
unfolding stands_before text_lt
stands_before-Precedes a b h =
    ground
      (arith, not_units_lt-UnitsLe (utf16 a.processing_request_id) (utf16 b.processing_request_id))

not_stands_before-Precedes : (a b : ProcessingRequest) → stands_before a b ≡ false → Precedes b a
unfolding stands_before text_lt
not_stands_before-Precedes a b h =
    ground (arith, units_lt-UnitsLe (utf16 b.processing_request_id) (utf16 a.processing_request_id))

insert_sorted-All :
    (P : ProcessingRequest → Type 0) (x : ProcessingRequest) (xs : List ProcessingRequest)
    → P x
    → All P xs
    → All P (insert_sorted x xs)
unfolding insert_sorted
insert_sorted-All P x [] h hs = (h, tt)
insert_sorted-All P x (y ∷ ys) h (hy, hys) =
    let rest = insert_sorted-All P x ys h hys in
    elim (stands_before x y) as (λ b. All P (if b then x ∷ y ∷ ys else y ∷ insert_sorted x ys)) [
      | true ↦ (h, (hy, hys))
      | false ↦ (hy, rest)
    ]

All-Precedes :
    (x y : ProcessingRequest) (ys : List ProcessingRequest)
    → Precedes x y
    → All (Precedes y) ys
    → All (Precedes x) ys
All-Precedes x y [] h hs = tt
All-Precedes x y (z ∷ zs) h (hz, hzs) = (Precedes-trans x y z h hz, All-Precedes x y zs h hzs)

insert_sorted-IsSorted :
    (x : ProcessingRequest) (xs : List ProcessingRequest)
    → IsSorted xs
    → IsSorted (insert_sorted x xs)
unfolding insert_sorted
insert_sorted-IsSorted x [] h = (tt, tt)
insert_sorted-IsSorted x (y ∷ ys) (first, rest) = elim (Bool-cases (stands_before x y)) [
  | inl before ↦
      let le = stands_before-Precedes x y before in
      rw before ((le, All-Precedes x y ys le first), (first, rest))
  | inr after ↦ rw after (
    insert_sorted-All (Precedes y) x ys (not_stands_before-Precedes x y after) first,
    insert_sorted-IsSorted x ys rest,
  )
]

insert_sorted-occurrences :
    (p : ProcessingRequest → Bool) (x : ProcessingRequest) (xs : List ProcessingRequest)
    → occurrences p (insert_sorted x xs) ≡ occurrences p (x ∷ xs)
unfolding insert_sorted
insert_sorted-occurrences p x [] = refl
insert_sorted-occurrences p x (y ∷ ys) = ground (arith, insert_sorted-occurrences p x ys)

-- After sorting, each request precedes all those after it: it was created later, or at the same
-- time with an id whose UTF-16 code units are not greater; and each request is there as often as
-- before.
pub sort-IsSorted :
    (xs : List ProcessingRequest)
    → IsSorted (sort xs)
      × ((p : ProcessingRequest → Bool) → occurrences p (sort xs) ≡ occurrences p xs)
unfolding sort
sort-IsSorted [] = (tt, λ p. refl)
sort-IsSorted (x ∷ xs) =
    let (sorted, same) = sort-IsSorted xs in
    (
      insert_sorted-IsSorted x (sort xs) sorted,
      λ p. ground (arith, insert_sorted-occurrences p x (sort xs), same p),
    )

length-insert_sorted :
    (x : ProcessingRequest) (xs : List ProcessingRequest)
    → length (insert_sorted x xs) ≡ suc (length xs)
unfolding insert_sorted
length-insert_sorted x [] = refl
length-insert_sorted x (y ∷ ys) = ground (arith, length-insert_sorted x ys)

pub length-sort : (xs : List ProcessingRequest) → length (sort xs) ≡ length xs
unfolding sort
length-sort [] = refl
length-sort (x ∷ xs) = ground (arith, length-sort xs, length-insert_sorted x (sort xs))
