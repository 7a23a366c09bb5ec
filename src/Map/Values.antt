-- ===== src/Map/Values.antt =====
-- The values of a `Map`: its keys are distinct, and a search among the values finds what is stored.
use processing_catalog.Prelude.{
  String, ◌≡◌, refl, ◌≢◌, Bool, true, false, none, some, List, [], ◌∷◌, filter, find, arith, eq_iff,
  Bool-cases, Option-cases, inl, inr, ◌&&◌, eq_refl, ap, ◌∙◌,
}
use processing_catalog.Map.{get, set, has, values, has-set, has_of_get}

module _ {ℓ} {V : Type ℓ} where
  abbrev pub IsDistinct : List (String × V) → Type 0
  IsDistinct [] = Unit
  IsDistinct ((k, v) ∷ m) = (has k m ≡ false) × IsDistinct m

  pub set-IsDistinct :
      (k : String) (v : V) (m : List (String × V)) → IsDistinct m → IsDistinct (set k v m)
  unfolding set has
  set-IsDistinct k v [] d = (refl, tt)
  set-IsDistinct k v ((i, w) ∷ m) d =
      ground (arith, set-IsDistinct k v m, has-set k i v m, eq_iff k i, eq_iff i k)

module _ {V : Type 0} (p own : V → Bool) where
  -- What a search among the owned values finds is stored under some key, is owned and passes.
  pub find_stored :
      (m : List (String × V)) (q : V)
      → IsDistinct m
      → find p (filter own (values m)) ≡ some q
      → (key : String) × (get key m ≡ some q) × (own q ≡ true) × (p q ≡ true)
  unfolding values get
  find_stored [] q d h = cc
  find_stored ((k, v) ∷ m) q (new, d) h = elim (Bool-cases (own v && p v)) [
    | inl here ↦ (k, ground (arith, eq_refl k), ground arith, ground arith)
    | inr later ↦
        let (key, found, owned, passed) = find_stored m q d (ground arith) in
        (key, ground (arith, eq_iff k key, has_of_get key q m found), owned, passed)
  ]

  -- Where a stored value is owned and passes, the search finds one.
  pub find_of_get :
      (m : List (String × V)) (key : String) (r : V)
      → get key m ≡ some r
      → own r ≡ true
      → p r ≡ true
      → find p (filter own (values m)) ≢ none
  unfolding values get
  find_of_get [] key r g o c = ground arith
  find_of_get ((k, v) ∷ m) key r g o c = ground (arith, find_of_get m key r)

  -- If all that is owned and passes is one value, the search finds that.
  pub find_only :
      (m : List (String × V)) (key : String) (r : V)
      → IsDistinct m
      → get key m ≡ some r
      → own r ≡ true
      → p r ≡ true
      → ((j : String) (q : V) → get j m ≡ some q → own q ≡ true → p q ≡ true → q ≡ r)
      → find p (filter own (values m)) ≡ some r
  find_only m key r d g o c only = elim (Option-cases (find p (filter own (values m)))) [
    | inl none_found ↦ absurd (find_of_get m key r g o c none_found)
    | inr (q, found) ↦
        let (j, at_j, owned, passed) = find_stored m q d found in
        found ∙ ap some (only j q at_j owned passed)
  ]
