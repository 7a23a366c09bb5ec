-- ===== src/Correlation/Trim.antt =====
-- A trimmed text is trimmed (String.prototype.trim, as src/observability/correlation-context.ts
-- calls it).
use processing_catalog.Text.{is_blank, trim, trim_end, trim_start, is_space}
use processing_catalog.Prelude.{
  ◌&&◌, String, ◌≡◌, ap, refl, ◌∙◌, Bool-cases, inl, inr, sym, true, false,
}
use Prim.Native.Char.{code, Char}
use mathlib.Core.Path.{subst}

trim_end-cut :
    (c : Char) (s : String) → is_blank (String.◌∷◌ c s) ≡ true → trim_end (String.◌∷◌ c s) ≡ ""
unfolding is_blank trim_end
trim_end-cut c s h = rw h refl

trim_end-kept :
    (c : Char) (s : String)
    → is_blank (String.◌∷◌ c s) ≡ false
    → trim_end (String.◌∷◌ c s) ≡ String.◌∷◌ c (trim_end s)
unfolding is_blank trim_end
trim_end-kept c s h = rw h refl

trim_end-empty : trim_end "" ≡ ""
unfolding trim_end
trim_end-empty = refl

trim_start-cut :
    (c : Char) (s : String) → is_space (code c) ≡ true → trim_start (String.◌∷◌ c s) ≡ trim_start s
unfolding trim_start
trim_start-cut c s h = rw h refl

trim_start-kept :
    (c : Char) (s : String)
    → is_space (code c) ≡ false
    → trim_start (String.◌∷◌ c s) ≡ String.◌∷◌ c s
unfolding trim_start
trim_start-kept c s h = rw h refl

is_blank-kept :
    (c : Char) (s : String) → is_space (code c) ≡ false → is_blank (String.◌∷◌ c s) ≡ false
unfolding is_blank
is_blank-kept c s h = ap (◌&& is_blank s) h

is_blank-trim_end : (s : String) → is_blank (trim_end s) ≡ is_blank s
unfolding is_blank
is_blank-trim_end String.[] = ap is_blank trim_end-empty
is_blank-trim_end (String.◌∷◌ c s) = elim (Bool-cases (is_blank (String.◌∷◌ c s))) [
  | inl blank ↦ ap is_blank (trim_end-cut c s blank) ∙ sym blank
  | inr full ↦
      ap is_blank (trim_end-kept c s full) ∙ ap (is_space (code c) &&◌) (is_blank-trim_end s)
]

trim_end-trim_end : (s : String) → trim_end (trim_end s) ≡ trim_end s
unfolding is_blank
trim_end-trim_end String.[] = ap trim_end trim_end-empty
trim_end-trim_end (String.◌∷◌ c s) = elim (Bool-cases (is_blank (String.◌∷◌ c s))) [
  | inl blank ↦ ap trim_end (trim_end-cut c s blank) ∙ trim_end-empty ∙ sym (trim_end-cut c s blank)
  | inr full ↦
      ap trim_end (trim_end-kept c s full)
      ∙ trim_end-kept c (trim_end s) (ap (is_space (code c) &&◌) (is_blank-trim_end s) ∙ full)
      ∙ ap (String.◌∷◌ c) (trim_end-trim_end s)
      ∙ sym (trim_end-kept c s full)
]

-- A trimmed end leaves a start that is trimmed.
trim_start-trim_end : (s : String) → trim_start (trim_end (trim_start s)) ≡ trim_end (trim_start s)
unfolding trim_start
trim_start-trim_end String.[] = ap trim_start trim_end-empty ∙ sym trim_end-empty
trim_start-trim_end (String.◌∷◌ c s) = elim (Bool-cases (is_space (code c))) [
  | inl space ↦
      subst (λ t. trim_start (trim_end t) ≡ trim_end t) (sym (trim_start-cut c s space))
        (trim_start-trim_end s)
  | inr other ↦
      let kept = trim_end-kept c s (is_blank-kept c s other) in
      subst (λ t. trim_start (trim_end t) ≡ trim_end t) (sym (trim_start-kept c s other))
        (ap trim_start kept ∙ trim_start-kept c (trim_end s) other ∙ sym kept)
]

pub trim-trim : (s : String) → trim (trim s) ≡ trim s
unfolding trim
trim-trim s = ap trim_end (trim_start-trim_end s) ∙ trim_end-trim_end (trim_start s)
