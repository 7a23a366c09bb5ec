-- ===== src/Persistence/Ordering.antt =====
-- The rows of a page stand for the requests of the page, in the one order that these can have.
use mathlib.Core.List.Permᴰ
use mathlib.Core.List.{Permᴰ}
use processing_catalog.Prelude.{
  List, [], ◌∷◌, ◌≡◌, All, Bool, arith, filter, String, if◌then◌else◌, true, false, eq_iff, map,
}
use processing_catalog.Map.{values, has}
use processing_catalog.Memory.Store.{sort}
use processing_catalog.Query.Order.{Precedes, IsSorted}
use processing_catalog.Query.Unique.{
  AreDistinct, AreDistinct-perm, IsOther, sorted_unique, sort-perm,
}
use processing_catalog.Persistence.View.{IsKeyed}
use processing_catalog.Query.Sorting.{sort-IsSorted}
use processing_catalog.Persistence.Manager.{ProcessingRequestEntity}
use processing_catalog.Persistence.Database.{InOrder, ComesFirst}
use processing_catalog.Persistence.TypeOrm.{to_domain}
use processing_catalog.Domain.Request.{ProcessingRequest}

-- The requests that stand each under its own id have distinct ids, and so have those of an owner.
fresh-IsOther :
    (k : String) (x : ProcessingRequest) (m : List (String × ProcessingRequest))
    → x.processing_request_id ≡ k
    → has k m ≡ false
    → All (λ e. e.1.processing_request_id ≡ e.0) m
    → All (IsOther x) (values m)
unfolding has values
fresh-IsOther k x [] e h keyed = tt
fresh-IsOther k x ((i, y) ∷ m) e h (f, keyed) =
    (ground (arith, eq_iff i k), fresh-IsOther k x m e (ground arith) keyed)

keyed-AreDistinct : (m : List (String × ProcessingRequest)) → IsKeyed m → AreDistinct (values m)
unfolding values
keyed-AreDistinct [] keyed = tt
keyed-AreDistinct ((k, x) ∷ m) ((e, own), (h, distinct)) =
    (fresh-IsOther k x m e h own, keyed-AreDistinct m (own, distinct))

All-filter :
    {A : Type 0} (P : A → Type 0) (p : A → Bool) (xs : List A) → All P xs → All P (filter p xs)
All-filter P p [] h = tt
All-filter P p (x ∷ xs) (h, hs) =
    let rest = All-filter P p xs hs in
    elim (p x) as (λ b. All P (if b then x ∷ filter p xs else filter p xs)) [
      | true ↦ (h, rest)
      | false ↦ rest
    ]

filter-AreDistinct :
    (p : ProcessingRequest → Bool) (xs : List ProcessingRequest)
    → AreDistinct xs
    → AreDistinct (filter p xs)
filter-AreDistinct p [] h = tt
filter-AreDistinct p (x ∷ xs) (h, hs) =
    let rest = filter-AreDistinct p xs hs in
    let others = All-filter (IsOther x) p xs h in
    elim (p x) as (λ b. AreDistinct (if b then x ∷ filter p xs else filter p xs)) [
      | true ↦ (others, rest)
      | false ↦ rest
    ]

pub owned-AreDistinct :
    (p : ProcessingRequest → Bool) (m : List (String × ProcessingRequest))
    → IsKeyed m
    → AreDistinct (filter p (values m))
owned-AreDistinct p m keyed = filter-AreDistinct p (values m) (keyed-AreDistinct m keyed)

InOrder-All :
    (r : ProcessingRequestEntity) (rows : List ProcessingRequestEntity)
    → All (ComesFirst r) rows
    → All (Precedes (to_domain r)) (map to_domain rows)
unfolding to_domain
InOrder-All r [] h = tt
InOrder-All r (row ∷ rows) (h, hs) = (h, InOrder-All r rows hs)

InOrder-IsSorted :
    (rows : List ProcessingRequestEntity) → InOrder rows → IsSorted (map to_domain rows)
InOrder-IsSorted [] h = tt
InOrder-IsSorted (r ∷ rows) (h, hs) = (InOrder-All r rows h, InOrder-IsSorted rows hs)

-- Rows in order that stand for requests with distinct ids are these requests sorted.
pub ordered_lem :
    (rows : List ProcessingRequestEntity) {xs : List ProcessingRequest}
    → InOrder rows
    → Permᴰ (map to_domain rows) xs
    → AreDistinct xs
    → map to_domain rows ≡ sort xs
ordered_lem rows {xs} h d distinct =
    sorted_unique (Permᴰ.trans d (Permᴰ.symm (sort-perm xs))) (InOrder-IsSorted rows h)
      ((sort-IsSorted xs).0) (AreDistinct-perm (Permᴰ.symm (sort-perm xs)) distinct)
