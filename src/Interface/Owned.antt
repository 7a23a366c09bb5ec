-- ===== src/Interface/Owned.antt =====
-- src/interface/owned-processing-requests.controller.ts. A query parameter is the value that the
-- framework gives: a text, an array of a repeated one, or undefined.

use Prim.Native.Char.{code}
use processing_catalog.Interface.Http.{
  ◌>>=◌, conflict, bad_request, not_found, unhandled, HttpError, Checked, Answer, failed, passed,
  checked, refused, answered,
}
use Prim.Native.Nat.{ℕ, suc}
use Prim.Native.String.{String}
use processing_catalog.Outcome.{Result, ok, err}
use processing_catalog.Value.{Value}
use processing_catalog.Prelude.{
  String, ℕ, Option, Bool, some, if◌then◌else◌, leb, false, ◌==◌, none, not, ◌&&◌, nat_eq, ◌*◌,
  ◌||◌, ◌+◌, zero, ltb, ◌-◌,
}
use processing_catalog.Repository.{Repository}
use processing_catalog.Text.{is_missing}
use processing_catalog.Query.Reads.{
  OwnedArchive, OwnedPage, OwnedItem, list_owned, get_owned, get_owned_archive,
}

-- The value of a text of ASCII digits, in base 10.
digits_value : ℕ → String → Option ℕ
digits_value n String.[] = some n
digits_value n (String.◌∷◌ c s) =
    let rest = digits_value (10 * n + (code c - 48)) s in
    if leb 48 (code c) && leb (code c) 57 then rest else none

-- /^\d+$/.test(raw) ? Number(raw). `Number` is exact up to Number.MAX_SAFE_INTEGER, and is not a
-- safe integer above it.
unfoldable pub number_of : String → Option ℕ
unfolding digits_value
number_of s = if s == "" then none else digits_value 0 s

abbrev pub max_safe_integer : ℕ
max_safe_integer = 9007199254740991

in_bounds : ℕ → ℕ → String → Option ℕ → Checked ℕ
in_bounds min max message none = failed (bad_request message)
in_bounds min max message (some n) =
    if not (leb n max_safe_integer) || ltb n min || ltb max n
    then failed (bad_request message)
    else passed n

unfoldable pub parse_bounded : Value → ℕ → ℕ → ℕ → String → Checked ℕ
unfolding in_bounds
parse_bounded Value.undefined fallback min max message = passed fallback
parse_bounded (Value.string s) fallback min max message = in_bounds min max message (number_of s)
parse_bounded _ fallback min max message = failed (bad_request message)

-- A hexadecimal digit, in either case.
is_hex : ℕ → Bool
is_hex c = (leb 48 c && leb c 57) || (leb 97 c && leb c 102) || (leb 65 c && leb c 70)

hex_digits : ℕ → (String → Bool) → String → Bool
hex_digits zero rest s = rest s
hex_digits (suc n) rest String.[] = false
hex_digits (suc n) rest (String.◌∷◌ c s) = is_hex (code c) && hex_digits n rest s

after_dash : (String → Bool) → String → Bool
after_dash rest String.[] = false
after_dash rest (String.◌∷◌ c s) = nat_eq (code c) 45 && rest s

-- UUID.test(id)
unfoldable pub is_uuid : String → Bool
unfolding hex_digits after_dash is_hex
is_uuid = hex_digits 8 (
    after_dash (
      hex_digits 4 (
        after_dash (
          hex_digits 4
            (after_dash (hex_digits 4 (after_dash (hex_digits 12 (λ rest. rest == "")))))))))

unfoldable pub require_owner : String → Checked (Unit {0})
require_owner owner =
    if is_missing owner then failed (bad_request "ownerUserId is required") else passed tt

abbrev pub missed : HttpError
missed = not_found "Processing request not found"

item_answer : Result (Option OwnedItem) → Answer OwnedItem
item_answer (ok none) = refused missed
item_answer (ok (some item)) = answered 200 item
item_answer (err e) = refused (unhandled e)

archive_answer : Result OwnedArchive → Answer String
archive_answer (ok OwnedArchive.not_found) = refused missed
archive_answer (ok OwnedArchive.not_completed) =
    refused (conflict "Processing request is not completed")
archive_answer (ok (OwnedArchive.ready key)) = answered 200 key
archive_answer (err e) = refused (unhandled e)

abbrev page_answer : Result OwnedPage → Answer OwnedPage
page_answer (ok page) = answered 200 page
page_answer (err e) = refused (unhandled e)

module _ {S : Type 0} (repository : Repository S) where
  abbrev pub on_page : String → ℕ × ℕ → S → Answer OwnedPage × S
  on_page owner (page, page_size) s = (
    page_answer (list_owned repository owner page page_size s).0,
    (list_owned repository owner page page_size s).1,
  )

  unfoldable pub page_input : String → Value → Value → Checked (ℕ × ℕ)
  page_input owner page page_size = do
    u ← require_owner owner
    n ← parse_bounded page 1 1 max_safe_integer "page must be an integer greater than or equal to 1"
    size ← parse_bounded page_size 20 1 100 "pageSize must be an integer between 1 and 100"
    passed (n, size)

  unfoldable pub list : String → Value → Value → S → Answer OwnedPage × S
  unfolding page_input
  list owner page page_size = checked (page_input owner page page_size) (on_page owner)

  on_item : String → String → S → Answer OwnedItem × S
  unfolding item_answer
  on_item owner id s =
      if not (is_uuid id)
      then (refused missed, s)
      else (item_answer (get_owned repository owner id s).0, (get_owned repository owner id s).1)

  unfoldable pub find_one : String → String → S → Answer OwnedItem × S
  unfolding on_item
  find_one owner id = checked (require_owner owner) λ u. on_item owner id

  on_archive : String → String → S → Answer String × S
  unfolding archive_answer
  on_archive owner id s = if not (is_uuid id) then (refused missed, s) else (
    archive_answer (get_owned_archive repository owner id s).0,
    (get_owned_archive repository owner id s).1,
  )

  unfoldable pub find_archive : String → String → S → Answer String × S
  unfolding on_archive
  find_archive owner id = checked (require_owner owner) λ u. on_archive owner id
