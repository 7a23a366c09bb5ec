-- ===== src/Persistence/Lists.antt =====
-- Searches, filters and pages of the rows of a table, in terms of the requests they stand for.
use mathlib.Core.Option.{map as map_option}
use processing_catalog.Prelude.{
  map, suc, zero, [], ◌∷◌, ap, refl, ◌&&◌, arith, Bool, List, ℕ, ◌≡◌, find, any, length, take, drop,
  filter, ◌++◌,
}

module _ {A B : Type 0} (f : A → B) (p : B → Bool) (q : A → Bool)
    (same : (a : A) → p (f a) ≡ q a) where
  pub find-map : (xs : List A) → find p (map f xs) ≡ map_option f (find q xs)
  find-map [] = refl
  find-map (x ∷ xs) = ground (arith, same x, find-map xs)

  pub filter-map : (xs : List A) → filter p (map f xs) ≡ map f (filter q xs)
  filter-map [] = refl
  filter-map (x ∷ xs) = ground (arith, same x, filter-map xs)

  pub any-map : (xs : List A) → any p (map f xs) ≡ any q xs
  any-map [] = refl
  any-map (x ∷ xs) = ground (arith, same x, any-map xs)

module _ {A : Type 0} (p own : A → Bool) where
  pub find-filter : (xs : List A) → find p (filter own xs) ≡ find (λ x. own x && p x) xs
  find-filter [] = refl
  find-filter (x ∷ xs) = ground (arith, find-filter xs)

  pub any-filter : (xs : List A) → any p (filter own xs) ≡ any (λ x. own x && p x) xs
  any-filter [] = refl
  any-filter (x ∷ xs) = ground (arith, any-filter xs)

module _ {A B : Type 0} (f : A → B) where
  pub length-map : (xs : List A) → length (map f xs) ≡ length xs
  length-map [] = refl
  length-map (x ∷ xs) = ap suc (length-map xs)

  pub map-take : (n : ℕ) (xs : List A) → map f (take n xs) ≡ take n (map f xs)
  map-take zero xs = refl
  map-take (suc n) [] = refl
  map-take (suc n) (x ∷ xs) = ap (f x ∷◌) (map-take n xs)

  pub map-drop : (n : ℕ) (xs : List A) → map f (drop n xs) ≡ drop n (map f xs)
  map-drop zero xs = refl
  map-drop (suc n) [] = refl
  map-drop (suc n) (x ∷ xs) = map-drop n xs

  -- The function `g` undoes `f`.
  pub map-inverse : (g : B → A) → ((a : A) → g (f a) ≡ a) → (xs : List A) → map g (map f xs) ≡ xs
  map-inverse g undo [] = refl
  map-inverse g undo (x ∷ xs) = ground (arith, undo x, map-inverse g undo xs)

pub map-append :
    {A B : Type 0} (f : A → B) (xs ys : List A) → map f (xs ++ ys) ≡ map f xs ++ map f ys
map-append f [] ys = refl
map-append f (x ∷ xs) ys = ap (f x ∷◌) (map-append f xs ys)
