-- ===== src/Query/Unique.antt =====
-- A list of requests with distinct ids has one sorted arrangement, the one that findPageByOwner of
-- src/infrastructure/in-memory-processing-request.repository.ts makes.
use mathlib.Core.List.Permᴰ
use mathlib.Core.List.{Permᴰ}
use mathlib.Core.Path.{subst}
use processing_catalog.Prelude.{
  List, [], ◌∷◌, ◌≡◌, ◌≢◌, ◌⊎◌, inl, inr, All, refl, sym, ap, arith, ◌∙◌, if◌then◌else◌, true,
  false,
}
use processing_catalog.Memory.Store.{insert_sorted, sort, stands_before}
use processing_catalog.Query.Order.{Precedes, IsSorted, UnitsLe-antisym}
use processing_catalog.Query.Units.{utf16-injective}
use processing_catalog.Text.{utf16}
use processing_catalog.Domain.Request.{ProcessingRequest}

All-perm : {A : Type 0} (P : A → Type 0) {xs ys : List A} → Permᴰ xs ys → All P xs → All P ys
All-perm P Permᴰ.nil h = h
All-perm P (Permᴰ.cons e d) (h, hs) = (subst P e h, All-perm P d hs)
All-perm P (Permᴰ.swap e f) (h, (k, hs)) = (subst P f k, (subst P e h, hs))
All-perm P (Permᴰ.trans d e) h = All-perm P e (All-perm P d h)

-- Another request than this one.
abbrev pub IsOther : ProcessingRequest → ProcessingRequest → Type 0
IsOther x z = x.processing_request_id ≢ z.processing_request_id

-- No two of the requests have one id.
abbrev pub AreDistinct : List ProcessingRequest → Type 0
AreDistinct [] = Unit
AreDistinct (x ∷ xs) = All (IsOther x) xs × AreDistinct xs

pub AreDistinct-perm :
    {xs ys : List ProcessingRequest} → Permᴰ xs ys → AreDistinct xs → AreDistinct ys
AreDistinct-perm Permᴰ.nil h = h
AreDistinct-perm (Permᴰ.cons {a} {l₂ = ys} e d) (h, hs) =
    (subst (λ x. All (IsOther x) ys) e (All-perm (IsOther a) d h), AreDistinct-perm d hs)
AreDistinct-perm (Permᴰ.swap {a} {b} {a' = c} {b' = d} {l = l} e f) ((h, hs), (k, ks)) = (
  (
    subst (λ x. IsOther x d) f (subst (λ x. IsOther b x) e (λ same. h (sym same))),
    subst (λ x. All (IsOther x) l) f k,
  ),
  (subst (λ x. All (IsOther x) l) e hs, ks),
)
AreDistinct-perm (Permᴰ.trans d e) h = AreDistinct-perm e (AreDistinct-perm d h)

All-both :
    {A : Type 0} (P Q R : A → Type 0)
    → ((a : A) → P a → Q a → R a)
    → (xs : List A) → All P xs
    → All Q xs
    → All R xs
All-both P Q R f [] h k = tt
All-both P Q R f (x ∷ xs) (h, hs) (k, ks) = (f x h k, All-both P Q R f xs hs ks)

All-each :
    {A : Type 0} (P Q : A → Type 0) → ((a : A) → P a → Q a) → (xs : List A) → All P xs → All Q xs
All-each P Q f [] h = tt
All-each P Q f (x ∷ xs) (h, hs) = (f x h, All-each P Q f xs hs)

-- What holds of the one list holds of the other.
abbrev Covers : List ProcessingRequest → List ProcessingRequest → Type 1
Covers xs ys = (P : ProcessingRequest → Type 0) → All P xs → All P ys

-- The tails of lists with the same head cover each other as the lists do.
Covers-tail :
    (x : ProcessingRequest) (xs ys : List ProcessingRequest)
    → Covers (x ∷ xs) (x ∷ ys)
    → All (IsOther x) ys
    → Covers xs ys
Covers-tail x xs ys covers others P h =
    let marked = covers (λ z. (x ≡ z) ⊎ P z) (inl refl, All-each P _ (λ a k. inr k) xs h) in
    All-both (λ z. (x ≡ z) ⊎ P z) (IsOther x) P
      (λ z k other. elim k [
        | inl same ↦ elim (other (ap (λ r. r.processing_request_id) same)) [ ]
        | inr holds ↦ holds
      ])
      ys marked.1 others

-- Of two requests with different ids, one does not precede the other.
Precedes-antisym : (x y : ProcessingRequest) → IsOther x y → Precedes x y → Precedes y x → ⊥
Precedes-antisym x y other (inl h) (inl k) = omega arith
Precedes-antisym x y other (inl h) (inr (e, k)) = omega arith
Precedes-antisym x y other (inr (e, h)) (inl k) = omega arith
Precedes-antisym x y other (inr (e, h)) (inr (f, k)) = other (
    utf16-injective x.processing_request_id y.processing_request_id
      (UnitsLe-antisym (utf16 x.processing_request_id) (utf16 y.processing_request_id) h k))

same_head :
    (x y : ProcessingRequest)
    → (x ≡ y) ⊎ IsOther x y × Precedes x y
    → (y ≡ x) ⊎ IsOther y x × Precedes y x
    → x ≡ y
same_head x y (inl e) k = e
same_head x y (inr h) (inl e) = sym e
same_head x y (inr (other, h)) (inr (_, k)) = elim (Precedes-antisym x y other h k) [ ]

-- The first of a sorted list is before all others in it.
head_first :
    (x : ProcessingRequest) (xs : List ProcessingRequest)
    → IsSorted (x ∷ xs)
    → AreDistinct (x ∷ xs)
    → All (λ z. (x ≡ z) ⊎ IsOther x z × Precedes x z) (x ∷ xs)
head_first x xs sorted distinct = (
  inl refl,
  All-both (IsOther x) (Precedes x) _ (λ z other before. inr (other, before)) xs distinct.0
      sorted.0,
)

covered_same :
    (xs ys : List ProcessingRequest)
    → IsSorted xs
    → IsSorted ys
    → AreDistinct xs
    → AreDistinct ys
    → Covers xs ys
    → Covers ys xs
    → xs ≡ ys
covered_same [] [] sx sy dx dy f g = refl
covered_same [] (y ∷ ys) sx sy dx dy f g = elim ((f (λ z. ⊥) tt).0) [ ]
covered_same (x ∷ xs) [] sx sy dx dy f g = elim ((g (λ z. ⊥) tt).0) [ ]
covered_same (x ∷ xs) (y ∷ ys) sx sy dx dy f g =
    let same = same_head x y (f _ (head_first x xs sx dx)).0 (g _ (head_first y ys sy dy)).0 in
    let back = subst (λ z. Covers (z ∷ ys) (x ∷ xs)) (sym same) g in
    let forth = subst (λ z. Covers (x ∷ xs) (z ∷ ys)) (sym same) f in
    let others = subst (λ z. All (IsOther z) ys) (sym same) dy.0 in
    ap (x ∷◌) (
      covered_same xs ys sx.1 sy.1 dx.1 dy.1 (Covers-tail x xs ys forth others)
        (Covers-tail x ys xs back dx.0))
    ∙ ap (◌∷ ys) same

-- Two arrangements of requests with distinct ids that are sorted are one.
pub sorted_unique :
    {xs ys : List ProcessingRequest}
    → Permᴰ xs ys
    → IsSorted xs
    → IsSorted ys
    → AreDistinct ys
    → xs ≡ ys
sorted_unique {xs} {ys} d sx sy dy =
    covered_same xs ys sx sy (AreDistinct-perm (Permᴰ.symm d) dy) dy (λ P. All-perm P d)
      (λ P. All-perm P (Permᴰ.symm d))

insert_sorted-perm :
    (x : ProcessingRequest) (xs : List ProcessingRequest) → Permᴰ (insert_sorted x xs) (x ∷ xs)
unfolding insert_sorted
insert_sorted-perm x [] = Permᴰ.refl (x ∷ [])
insert_sorted-perm x (y ∷ ys) =
    let rest = Permᴰ.trans (Permᴰ.cons refl (insert_sorted-perm x ys)) (Permᴰ.swap refl refl) in
    elim (stands_before x y)
      as (λ b. Permᴰ (if b then x ∷ y ∷ ys else y ∷ insert_sorted x ys) (x ∷ y ∷ ys)) [
        | true ↦ Permᴰ.refl (x ∷ y ∷ ys)
        | false ↦ rest
      ]

-- Sorting rearranges.
pub sort-perm : (xs : List ProcessingRequest) → Permᴰ (sort xs) xs
unfolding sort
sort-perm [] = Permᴰ.nil
sort-perm (x ∷ xs) = Permᴰ.trans (insert_sorted-perm x (sort xs)) (Permᴰ.cons refl (sort-perm xs))
