-- ===== src/Persistence/Columns.antt =====
-- Which texts the columns of src/infrastructure/persistence/migrations store as they are: a `text`
-- column every text without the character 0, a `varchar(128)` one of them up to its length, and a `uuid` column the canonical form of an id, in lower
-- case.
use Prim.Native.Char.{code}
use Prim.Native.String.{String}
use processing_catalog.Persistence.Manager.{Where, ProcessingRequestEntity}
use mathlib.Core.Path.{subst}
use processing_catalog.Prelude.{
  suc, zero, ◌==◌, ◌&&◌, ◌||◌, ℕ, String, Bool, leb, false, true, Option, nat_eq, not, some, none,
  ◌≡◌, arith, refl, sym, eq_iff,
}

-- A hexadecimal digit in lower case.
is_digit : ℕ → Bool
is_digit c = (leb 48 c && leb c 57) || (leb 97 c && leb c 102)

digits : ℕ → (String → Bool) → String → Bool
digits zero rest s = rest s
digits (suc n) rest String.[] = false
digits (suc n) rest (String.◌∷◌ c s) = is_digit (code c) && digits n rest s

dash : (String → Bool) → String → Bool
dash rest String.[] = false
dash rest (String.◌∷◌ c s) = nat_eq (code c) 45 && rest s

unfoldable pub fits_uuid : String → Bool
unfolding digits dash is_digit
fits_uuid =
    digits 8
      (dash (digits 4 (dash (digits 4 (dash (digits 4 (dash (digits 12 (λ rest. rest == "")))))))))

unfoldable pub fits_text : String → Bool
fits_text String.[] = true
fits_text (String.◌∷◌ c s) = not (nat_eq (code c) 0) && fits_text s

unfoldable pub code_points : String → ℕ
code_points String.[] = 0
code_points (String.◌∷◌ c s) = suc (code_points s)

-- varchar(128)
unfoldable pub fits_varchar : String → Bool
unfolding code_points
fits_varchar s = fits_text s && leb (code_points s) 128

abbrev pub fits_optional : (String → Bool) → Option String → Bool
fits_optional fits none = true
fits_optional fits (some s) = fits s

-- The texts of a request fit its columns.
unfoldable pub fits_row : ProcessingRequestEntity → Bool
unfolding fits_varchar
fits_row row =
    fits_uuid row.processing_request_id
    && fits_text row.owner_user_id
    && fits_text row.owner_email
    && fits_text row.source_storage_key
    && fits_optional fits_uuid row.attempt_id
    && fits_optional fits_text row.zip_storage_key
    && fits_optional fits_text row.idempotency_key
    && fits_optional fits_varchar row.correlation_id

abbrev pub fits_where : Where → Bool
fits_where w =
    fits_optional fits_uuid w.processing_request_id
    && fits_optional fits_text w.owner_user_id
    && fits_optional fits_text w.idempotency_key
    && fits_optional fits_text w.source_storage_key

rest-fits :
    (n : ℕ) (rest : String → Bool)
    → ((t : String) → rest t ≡ true → fits_text t ≡ true)
    → (s : String) → digits n rest s ≡ true
    → fits_text s ≡ true
unfolding digits is_digit fits_text
rest-fits zero rest h s e = h s e
rest-fits (suc n) rest h String.[] e = refl
rest-fits (suc n) rest h (String.◌∷◌ c s) e = ground (arith, rest-fits n rest h s)

dash-fits :
    (rest : String → Bool)
    → ((t : String) → rest t ≡ true → fits_text t ≡ true)
    → (s : String) → dash rest s ≡ true
    → fits_text s ≡ true
unfolding dash fits_text
dash-fits rest h String.[] e = refl
dash-fits rest h (String.◌∷◌ c s) e = ground (arith, h s)

empty-fits : (t : String) → (t == "") ≡ true → fits_text t ≡ true
unfolding fits_text
empty-fits t e = subst (λ x. fits_text x ≡ true) (sym ((eq_iff t "").0 e)) refl

-- A uuid has no character 0.
pub uuid-fits : (s : String) → fits_uuid s ≡ true → fits_text s ≡ true
unfolding fits_uuid
uuid-fits = rest-fits 8 _ (
    dash-fits _ (
      rest-fits 4 _ (
        dash-fits _
          (rest-fits 4 _ (dash-fits _ (rest-fits 4 _ (dash-fits _ (rest-fits 12 _ empty-fits))))))))
