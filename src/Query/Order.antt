-- ===== src/Query/Order.antt =====
-- ORDER BY created_at DESC, processing_request_id ASC, said of pairs of requests and without a
-- comparison function (findPageByOwner of src/domain/processing-request.repository.ts).
use processing_catalog.Prelude.{ℕ, List, [], ◌∷◌, ◌⊎◌, ◌<◌, ◌≡◌, All, inl, inr, arith, ap, refl}
use processing_catalog.Domain.Request.{ProcessingRequest}
use processing_catalog.Text.{utf16}

-- Code unit by code unit, the shorter first where one begins the other.
abbrev pub UnitsLe : List ℕ → List ℕ → Type 0
UnitsLe [] ys = Unit
UnitsLe (x ∷ xs) [] = ⊥
UnitsLe (x ∷ xs) (y ∷ ys) = (x < y) ⊎ (x ≡ y) × UnitsLe xs ys

-- Created later, or at the same time with an id that is not greater.
abbrev pub Precedes : ProcessingRequest → ProcessingRequest → Type 0
Precedes a b =
    (b.created_at < a.created_at)
    ⊎ (a.created_at ≡ b.created_at)
      × UnitsLe (utf16 a.processing_request_id) (utf16 b.processing_request_id)

-- Each request precedes all those after it.
abbrev pub IsSorted : List ProcessingRequest → Type 0
IsSorted [] = Unit
IsSorted (x ∷ xs) = All (Precedes x) xs × IsSorted xs

UnitsLe-trans : (xs ys zs : List ℕ) → UnitsLe xs ys → UnitsLe ys zs → UnitsLe xs zs
UnitsLe-trans [] ys zs h k = tt
UnitsLe-trans (x ∷ xs) [] zs h k = elim h [ ]
UnitsLe-trans (x ∷ xs) (y ∷ ys) [] h k = elim k [ ]
UnitsLe-trans (x ∷ xs) (y ∷ ys) (z ∷ zs) (inl h) (inl k) = inl (omega arith)
UnitsLe-trans (x ∷ xs) (y ∷ ys) (z ∷ zs) (inl h) (inr (e, k)) = inl (omega arith)
UnitsLe-trans (x ∷ xs) (y ∷ ys) (z ∷ zs) (inr (e, h)) (inl k) = inl (omega arith)
UnitsLe-trans (x ∷ xs) (y ∷ ys) (z ∷ zs) (inr (e, h)) (inr (f, k)) =
    inr (omega arith, UnitsLe-trans xs ys zs h k)

pub Precedes-trans : (a b c : ProcessingRequest) → Precedes a b → Precedes b c → Precedes a c
Precedes-trans a b c (inl h) (inl k) = inl (omega arith)
Precedes-trans a b c (inl h) (inr (e, k)) = inl (omega arith)
Precedes-trans a b c (inr (e, h)) (inl k) = inl (omega arith)
Precedes-trans a b c (inr (e, h)) (inr (f, k)) = inr (
  omega arith,
  UnitsLe-trans (utf16 a.processing_request_id) (utf16 b.processing_request_id)
      (utf16 c.processing_request_id) h k,
)

pub UnitsLe-antisym : (xs ys : List ℕ) → UnitsLe xs ys → UnitsLe ys xs → xs ≡ ys
UnitsLe-antisym [] [] h k = refl
UnitsLe-antisym [] (y ∷ ys) h k = elim k [ ]
UnitsLe-antisym (x ∷ xs) [] h k = elim h [ ]
UnitsLe-antisym (x ∷ xs) (y ∷ ys) (inl h) (inl k) = ground arith
UnitsLe-antisym (x ∷ xs) (y ∷ ys) (inl h) (inr (e, k)) = ground arith
UnitsLe-antisym (x ∷ xs) (y ∷ ys) (inr (e, h)) (inl k) = ground arith
UnitsLe-antisym (x ∷ xs) (y ∷ ys) (inr (e, h)) (inr (f, k)) =
    rw e (ap (y ∷◌) (UnitsLe-antisym xs ys h k))
