-- ===== src/Interface/Checks.antt =====
-- What the checks of src/interface let through.
use processing_catalog.Interface.Owned.{
  parse_bounded, list, max_safe_integer, require_owner, number_of, page_input, on_page,
}
use processing_catalog.Interface.Creation.{require_string}
use processing_catalog.Prelude.{
  ℕ, String, ◌≡◌, ◌≤◌, false, ◌↔◌, ◌⊎◌, some, length, arith, inl, List, eq_iff, inr, take, map,
  refl, ◌∷◌, ap, zero, [], nat_eq, true, drop, ◌-◌, ◌*◌,
}
use processing_catalog.Text.{is_missing, text_length, trim}
use processing_catalog.Value.{Value, Fields, string, get_field}
use processing_catalog.Query.Reads.{list_owned, OwnedPage, to_owned_item}
use processing_catalog.Memory.Store.{
  find_page_by_owner, count_by_owner, Memory, in_memory_repository, owned_by, sort,
}
use processing_catalog.Interface.Http.{passed, answered, Checked, checked}
use processing_catalog.Domain.Request.{ProcessingRequest}
use mathlib.Core.Path.{subst}
use Prim.Native.Nat.{ℕ, suc}

-- A text that is there, is not blank, and is not longer than the bound.
abbrev pub IsText : ℕ → Value → String → Type 0
IsText max_length v s = (v ≡ string s) × (is_missing s ≡ false) × (text_length s ≤ max_length)

blank_of_empty : (s : String) → s ≡ "" → nat_eq (text_length (trim s)) 0 ≡ true
unfolding trim text_length
blank_of_empty s e = rw e refl

is_missing_iff_blank : (s : String) → is_missing s ≡ nat_eq (text_length (trim s)) 0
unfolding is_missing
is_missing_iff_blank s = ground (arith, eq_iff s "", blank_of_empty s)

IsText-of_passed :
    (dto : Fields) (name : String) (max_length : ℕ) (shown s : String) (v : Value)
    → get_field name dto ≡ v
    → require_string dto name max_length shown ≡ passed s
    → IsText max_length v s
unfolding require_string
IsText-of_passed dto name max_length shown s (string x) e h =
    let same : x ≡ s = ground arith in
    subst (λ y. (string x ≡ string y) × (is_missing y ≡ false) × (text_length y ≤ max_length)) same
      (refl, ground (arith, is_missing_iff_blank x), ground arith)
IsText-of_passed dto name max_length shown s v e h = ground arith

-- A field of a body passes exactly when it is a text that is not blank nor longer than the bound,
-- and is passed on as it is.
pub require_string-passed_iff :
    (dto : Fields) (name : String) (max_length : ℕ) (shown s : String)
    → (require_string dto name max_length shown ≡ passed s)
      ↔ IsText max_length (get_field name dto) s
unfolding require_string
require_string-passed_iff dto name max_length shown s = (
  IsText-of_passed dto name max_length shown s (get_field name dto) refl,
  λ h. ground (arith, is_missing_iff_blank s),
)

-- A query parameter is taken for a number exactly when it is absent and the number is the default,
-- or is a text of digits whose value is the number and within the bounds.
pub parse_bounded-passed_iff :
    (raw : Value) (fallback min max n : ℕ) (message : String)
    → max ≤ max_safe_integer
    → (parse_bounded raw fallback min max message ≡ passed n)
      ↔ ((raw ≡ Value.undefined) × (n ≡ fallback))
        ⊎ ((s : String) × (raw ≡ string s) × (number_of s ≡ some n) × (min ≤ n) × (n ≤ max))
unfolding parse_bounded
parse_bounded-passed_iff Value.undefined fallback min max n message h =
    (λ p. inl (refl, ground arith), λ p. ground arith)
parse_bounded-passed_iff (string s) fallback min max n message h =
    (λ p. inr (s, refl, ground arith, ground arith, ground arith), λ p. ground arith)
parse_bounded-passed_iff raw fallback min max n message h = (λ p. ground arith, λ p. ground arith)

page_input-bounds :
    (owner : String) (page page_size : Value) (n size : ℕ)
    → page_input in_memory_repository owner page page_size ≡ passed (n, size)
    → (1 ≤ n) × (1 ≤ size) × (size ≤ 100)
unfolding page_input parse_bounded
page_input-bounds owner page page_size n size h = ground arith

length-take : {A : Type 0} (n : ℕ) (xs : List A) → length (take n xs) ≤ n
length-take zero xs = omega arith
length-take (suc n) [] = omega arith
length-take (suc n) (x ∷ xs) = omega (arith, length-take n xs)

length-map_item : (xs : List ProcessingRequest) → length (map to_owned_item xs) ≡ length xs
length-map_item [] = refl
length-map_item (x ∷ xs) = ap suc (length-map_item xs)

-- A page that the list answers is one of at most 100 items, with the number of all the owner's
-- requests beside it.
pub list-bounded :
    (owner : String) (page page_size : Value) (s : Memory) (status : ℕ) (p : OwnedPage)
    → (list in_memory_repository owner page page_size s).0 ≡ answered status p
    → (1 ≤ p.page)
      × (1 ≤ p.page_size)
      × (p.page_size ≤ 100)
      × (length p.items ≤ p.page_size)
      × (p.total ≡ length (owned_by owner s))
unfolding list list_owned find_page_by_owner count_by_owner parse_bounded require_owner
list-bounded owner page page_size s status p h =
    on_input (page_input in_memory_repository owner page page_size) refl h
  where
    on_input :
        (c : Checked (ℕ × ℕ))
        → page_input in_memory_repository owner page page_size ≡ c
        → (checked c (on_page in_memory_repository owner) s).0 ≡ answered status p
        → (1 ≤ p.page)
          × (1 ≤ p.page_size)
          × (p.page_size ≤ 100)
          × (length p.items ≤ p.page_size)
          × (p.total ≡ length (owned_by owner s))
    on_input (Checked.failed e) q k = ground arith
    on_input (passed (n, size)) q k =
        let rest = drop ((n - 1) * size) (sort (owned_by owner s)) in
        ground (
          arith,
          page_input-bounds owner page page_size n size q,
          length-take size rest,
          length-map_item (take size rest),
        )
