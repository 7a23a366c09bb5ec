-- ===== src/Query/Units.antt =====
-- A text is determined by its UTF-16 code units.
use text.Mathlib.TextEquality.{Char-path}
use Prim.Native.Char.{IsScalar, Char, code, char}
use processing_catalog.Prelude.{
  ℕ, List, ◌++◌, ◌≡◌, ◌⊎◌, ◌<◌, arith, ◌≢◌, [], String, sym, ap, ◌∙◌, refl,
}
use processing_catalog.Text.{code_units, utf16}

-- A character is no half of a surrogate pair.
scalar-bounds : (n : ℕ) → IsScalar n → (n < 55296) ⊎ (57343 < n) × (n < 1114112)
scalar-bounds n h = ground arith

same_unit :
    (m n : ℕ) (xs ys : List ℕ)
    → (m < 55296) ⊎ (57343 < m) × (m < 1114112)
    → (n < 55296) ⊎ (57343 < n) × (n < 1114112)
    → code_units m ++ xs ≡ code_units n ++ ys
    → (m ≡ n) × (xs ≡ ys)
same_unit m n xs ys bm bn h = ground arith

scalar : (c : Char) → (code c < 55296) ⊎ (57343 < code c) × (code c < 1114112)
scalar (char n h) = scalar-bounds n h

no_units : (n : ℕ) (xs : List ℕ) → ◌≢◌ {A = List ℕ} [] (code_units n ++ xs)
no_units n xs h = ground arith

pub utf16-injective : (s t : String) → utf16 s ≡ utf16 t → s ≡ t
unfolding utf16
utf16-injective String.[] String.[] h = refl
utf16-injective String.[] (String.◌∷◌ d t) h = elim (no_units (code d) (utf16 t) h) [ ]
utf16-injective (String.◌∷◌ c s) String.[] h = elim (no_units (code c) (utf16 s) (sym h)) [ ]
utf16-injective (String.◌∷◌ c s) (String.◌∷◌ d t) h =
    let (same, rest) = same_unit (code c) (code d) (utf16 s) (utf16 t) (scalar c) (scalar d) h in
    ap (λ e. String.◌∷◌ e s) (Char-path c d same) ∙ ap (String.◌∷◌ d) (utf16-injective s t rest)
