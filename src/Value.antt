-- ===== src/Value.antt =====
-- JavaScript values as they reach the program from JSON: a message's body, a request's body, a
-- query parameter. A number is its canonical text, the one that `String` gives: the program asks a
-- number for no more than `typeof`, its truth and that text. An object's keys are distinct.
use processing_catalog.Prelude.{String, Bool, true, false, not, ◌||◌, ◌==◌, if◌then◌else◌}
use processing_catalog.Text.{◌<>◌}
use processing_catalog.Outcome.{Result, ok, err, type_error, ◌>>=◌}

mutual
  pub data Value : Type 0 where
    undefined null : Value
    boolean : Bool → Value
    number : String → Value
    string : String → Value
    array : Values → Value
    object : Fields → Value

  pub data Values : Type 0 where
    nil : Values
    cons : Value → Values → Values

  pub data Fields : Type 0 where
    end : Fields
    field : String → Value → Fields → Fields

-- name in object
unfoldable pub has_field : String → Fields → Bool
has_field name end = false
has_field name (field k v fs) = k == name || has_field name fs

-- object[name]
unfoldable pub get_field : String → Fields → Value
get_field name end = undefined
get_field name (field k v fs) = if k == name then v else get_field name fs

-- Whether a value counts as true in a test.
unfoldable pub is_truthy : Value → Bool
is_truthy undefined = false
is_truthy null = false
is_truthy (boolean b) = b
is_truthy (number text) = not (text == "0" || text == "NaN")
is_truthy (string s) = not (s == "")
is_truthy (array vs) = true
is_truthy (object fs) = true

-- String(value). An object of its own `toString` property hides the built-in function; a value
-- from JSON is never callable, so the conversion then throws a TypeError. An array joins the
-- texts of its elements, where null and undefined give the empty text.
abbrev element_text : Value → Result String → Result String
element_text undefined text = ok ""
element_text null text = ok ""
element_text v text = text

unfoldable mutual
  pub to_text : Value → Result String
  to_text undefined = ok "undefined"
  to_text null = ok "null"
  to_text (boolean true) = ok "true"
  to_text (boolean false) = ok "false"
  to_text (number text) = ok text
  to_text (string s) = ok s
  to_text (array vs) = join_texts vs
  to_text (object fs) = if has_field "toString" fs then err type_error else ok "[object Object]"

  -- Array.prototype.join
  pub join_texts : Values → Result String
  join_texts nil = ok ""
  join_texts (cons v vs) = element_text v (to_text v) >>= λ first. join_rest first vs

  pub join_rest : String → Values → Result String
  join_rest first nil = ok first
  join_rest first (cons v vs) =
      element_text v (to_text v) >>= λ next. join_rest (first <> "," <> next) vs
