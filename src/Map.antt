-- ===== src/Map.antt =====
-- JavaScript's `Map` with text keys: the entries in the order of insertion, where a key that is
-- set again keeps its place.
pub mod Values
use processing_catalog.Prelude.{
  String, ◌≡◌, refl, Bool, true, false, ◌||◌, Option, none, some, List, [], ◌∷◌, arith, ◌==◌,
  eq_iff, if◌then◌else◌,
}

module _ {ℓ} {V : Type ℓ} where
  -- map.get(key)
  unfoldable pub get : String → List (String × V) → Option V
  get key [] = none
  get key ((k, v) ∷ m) = if k == key then some v else get key m

  -- map.set(key, value)
  unfoldable pub set : String → V → List (String × V) → List (String × V)
  set key v [] = (key, v) ∷ []
  set key v ((k, w) ∷ m) = if k == key then (k, v) ∷ m else (k, w) ∷ set key v m

  -- map.has(key)
  unfoldable pub has : String → List (String × V) → Bool
  has key [] = false
  has key ((k, v) ∷ m) = k == key || has key m

  -- [...map.values()]
  unfoldable pub values : List (String × V) → List V
  values [] = []
  values ((k, v) ∷ m) = v ∷ values m

  pub get-set :
      (written read : String) (v : V) (m : List (String × V))
      → get read (set written v m) ≡ (if written == read then some v else get read m)
  unfolding get set
  get-set written read v [] = refl
  get-set written read v ((key, old) ∷ m) =
      ground
        (arith, get-set written read v m, eq_iff key read, eq_iff key written, eq_iff written read)

  pub has-set :
      (written read : String) (v : V) (m : List (String × V))
      → has read (set written v m) ≡ (if written == read then true else has read m)
  unfolding has set
  has-set written read v [] = ground arith
  has-set written read v ((key, old) ∷ m) =
      ground
        (arith, has-set written read v m, eq_iff key read, eq_iff key written, eq_iff written read)

  pub has_of_get : (k : String) (v : V) (m : List (String × V)) → get k m ≡ some v → has k m ≡ true
  unfolding has get
  has_of_get k v [] h = ground arith
  has_of_get k v ((i, w) ∷ m) h = ground (arith, has_of_get k v m)

  pub get_of_has : (k : String) (m : List (String × V)) → get k m ≡ none → has k m ≡ false
  unfolding has get
  get_of_has k [] h = refl
  get_of_has k ((i, w) ∷ m) h = ground (arith, get_of_has k m)
