-- ===== src/Query/Pages.antt =====
-- The pages of a list, one after the other (list-owned-processing-requests.query.ts).
use mathlib.Core.List.{map-append}
use processing_catalog.Prelude.{
  ℕ, String, List, length, take, ◌≡◌, ◌≤◌, ◌++◌, [], map, drop, ◌*◌, ◌+◌, suc, ◌∷◌, ◌∙◌, ap, arith,
  zero, refl, sym,
}
use processing_catalog.Query.Reads.{list_owned, OwnedPage, OwnedItem, to_owned_item}
use processing_catalog.Memory.Store.{
  Memory, find_page_by_owner, count_by_owner, owned_by, sort, in_memory_repository,
}
use processing_catalog.Query.Sorting.{length-sort}
use processing_catalog.Outcome.{Result, ok, err}

items_of : Result OwnedPage → List OwnedItem
items_of (ok p) = p.items
items_of (err e) = []

-- The items of pages 1 to `pages`, as an owner reads them.
unfoldable pub read_pages : String → ℕ → ℕ → Memory → List OwnedItem
unfolding items_of
read_pages owner page_size zero s = []
read_pages owner page_size (suc pages) s =
    read_pages owner page_size pages s
    ++ items_of (list_owned in_memory_repository owner (suc pages) page_size s).0

suc_add : (n m : ℕ) → suc (n + m) ≡ suc n + m
suc_add n m = omega arith

module _ {ℓ} {A : Type ℓ} where
  take-nil : (n : ℕ) → take {A = A} n [] ≡ []
  take-nil zero = refl
  take-nil (suc n) = refl

  take-add : (n m : ℕ) (xs : List A) → take n xs ++ take m (drop n xs) ≡ take (n + m) xs
  take-add zero m xs = ground arith
  take-add (suc n) m [] = take-nil m ∙ sym (take-nil (suc n + m))
  take-add (suc n) m (x ∷ xs) =
      ap (x ∷◌) (take-add n m xs) ∙ ap (λ k. take k (x ∷ xs)) (suc_add n m)

  take-all : (n : ℕ) (xs : List A) → length xs ≤ n → take n xs ≡ xs
  take-all zero [] h = refl
  take-all zero (x ∷ xs) h = ground arith
  take-all (suc n) [] h = refl
  take-all (suc n) (x ∷ xs) h = ground (arith, take-all n xs)

pages_prefix :
    (owner : String) (page_size pages : ℕ) (s : Memory)
    → read_pages owner page_size pages s
      ≡ map to_owned_item (take (pages * page_size) (sort (owned_by owner s)))
unfolding read_pages list_owned find_page_by_owner count_by_owner
pages_prefix owner page_size zero s = ground arith
pages_prefix owner page_size (suc pages) s =
    let listed = sort (owned_by owner s) in
    let n = pages * page_size in
    ap
      (λ start.
        read_pages owner page_size pages s
        ++ map to_owned_item (take page_size (drop (start * page_size) listed)))
      (omega arith)
    ∙ ap (◌++ map to_owned_item (take page_size (drop n listed)))
        (pages_prefix owner page_size pages s)
    ∙ sym (map-append to_owned_item (take n listed) (take page_size (drop n listed)))
    ∙ ap (map to_owned_item) (take-add n page_size listed)
    ∙ ap (λ k. map to_owned_item (take k listed)) (omega arith)

-- The pages of an owner, read one after the other while nothing is written, give each of the
-- owner's requests once, in the order of the sort, as soon as there are enough of them.
pub pages_complete :
    (owner : String) (page_size pages : ℕ) (s : Memory)
    → length (owned_by owner s) ≤ pages * page_size
    → read_pages owner page_size pages s ≡ map to_owned_item (sort (owned_by owner s))
pages_complete owner page_size pages s h =
    pages_prefix owner page_size pages s
    ∙ ap (map to_owned_item) (
        take-all (pages * page_size) (sort (owned_by owner s))
          (ground (arith, length-sort (owned_by owner s))))
