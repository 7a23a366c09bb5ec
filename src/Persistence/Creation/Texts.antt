-- ===== src/Persistence/Creation/Texts.antt =====
-- What a creation writes fits its columns: the new row, and the request for its validation.
use Prim.Native.String.append
use processing_catalog.Text.{◌<>◌, text_length, utf16}
use processing_catalog.IsoDate.{to_iso_string, padded, digit_from, digits}
use processing_catalog.UseCase.Create.{valid_correlation_id, CreateInput, validation_payload}
use processing_catalog.Persistence.Columns.{
  fits_text, code_points, fits_varchar, fits_optional, fits_row, fits_uuid, uuid-fits,
}
use processing_catalog.Prelude.{
  Bool, ℕ, String, All, List, ◌≡◌, if◌then◌else◌, true, arith, suc, ◌∷◌, ◌/◌, false, refl, ◌%◌, [],
  zero, ◌&&◌, ap, ◌∙◌, Option, some, none,
}
use processing_catalog.Correlation.{is_printable, parse_correlation_id, printable_ascii}
use processing_catalog.Outcome.{ok}
use processing_catalog.Domain.Request.{ProcessingRequest, create_processing_request}
use processing_catalog.Persistence.TypeOrm.{to_row}
use processing_catalog.UseCase.Create.Outcomes.{domain_input}
use processing_catalog.Persistence.Database.{fits_payload}
use processing_catalog.Persistence.Delivery.Payload.{row-fits, text-fits, correlation-fits}
use processing_catalog.Value.{Value, string}

fits_text-append : (s t : String) → fits_text (s <> t) ≡ (fits_text s && fits_text t)
unfolding fits_text
fits_text-append String.[] t = ap fits_text (append.nil t)
fits_text-append (String.◌∷◌ c s) t =
    ap fits_text (append.cons c s t) ∙ ground (arith, fits_text-append s t)

digit-fits :
    (ds : List String)
    → All (λ d. fits_text d ≡ true) ds
    → (n : ℕ) → fits_text (digit_from ds n) ≡ true
unfolding digit_from fits_text
digit-fits [] h n = refl
digit-fits (d ∷ ds) h zero = h.0
digit-fits (d ∷ ds) h (suc n) = digit-fits ds h.1 n

digits-fit : All (λ d. fits_text d ≡ true) digits
unfolding fits_text
digits-fit = (refl, (refl, (refl, (refl, (refl, (refl, (refl, (refl, (refl, (refl, tt))))))))))

padded-fits : (width n : ℕ) → fits_text (padded width n) ≡ true
unfolding padded fits_text
padded-fits zero n = refl
padded-fits (suc width) n =
    simp (fits_text-append, padded-fits width (n / 10), digit-fits digits digits-fit (n % 10))

ruleset pieces = (fits_text-append, padded-fits)

year-fits :
    (long : Bool) (year : ℕ)
    → fits_text (if long then padded 4 year else "+" <> padded 6 year) ≡ true
unfolding fits_text
year-fits true year = simp pieces
year-fits false year = simp pieces

-- An ISO date holds no character 0.
pub iso-fits : (ms : ℕ) → fits_text (to_iso_string ms) ≡ true
unfolding to_iso_string fits_text
iso-fits ms = simp (pieces, year-fits, digit-fits digits digits-fit)

printable-fits :
    (s : String) → is_printable s ≡ true → (fits_text s ≡ true) × (code_points s ≡ text_length s)
unfolding is_printable fits_text code_points text_length utf16
printable-fits String.[] h = (refl, refl)
printable-fits (String.◌∷◌ c s) h = ground (arith, printable-fits s)

-- An id that the check lets through fits its column.
correlation_id-fits :
    (raw : Value) (id : Option String)
    → valid_correlation_id raw ≡ ok id
    → fits_optional fits_varchar id ≡ true
unfolding valid_correlation_id parse_correlation_id printable_ascii fits_varchar
correlation_id-fits raw none h = refl
correlation_id-fits (string raw) (some id) h = ground (arith, printable-fits id)
correlation_id-fits _ (some id) h = ground arith

-- The texts of the call and of the id that randomUUID() answers fit their columns.
pub record InputFits (uuid : String) (input : CreateInput) : Type 0 where
  pub id : fits_uuid uuid ≡ true
  pub event : fits_text input.event_id ≡ true
  pub owner : fits_text input.owner_user_id ≡ true
  pub email : fits_text input.owner_email ≡ true
  pub source : fits_text input.source_storage_key ≡ true
  pub key : fits_text input.idempotency_key ≡ true

-- So do those of the new request,
pub created-fits :
    (uuid : String) (now : ℕ) (input : CreateInput) (id : Option String) (r : ProcessingRequest)
    → InputFits uuid input
    → valid_correlation_id input.correlation_id ≡ ok id
    → create_processing_request uuid now (domain_input input id) ≡ ok r
    → fits_row (to_row r) ≡ true
unfolding create_processing_request fits_row to_row
created-fits uuid now input id r fits checked h =
    ground (arith, fits, correlation_id-fits input.correlation_id id checked)

-- and those of the event that asks for its validation.
pub validation-fits :
    (event_id : String) (r : ProcessingRequest)
    → fits_text event_id ≡ true
    → fits_row (to_row r) ≡ true
    → fits_payload (validation_payload event_id r) ≡ true
unfolding fits_text
validation-fits event_id r h fits =
    let (id, owner, email, source, zip, attempt, trace) = row-fits r fits in
    text-fits "eventId" event_id _ refl h (
      text-fits "processingRequestId" r.processing_request_id _ refl
        (uuid-fits r.processing_request_id id)
        (text-fits "ownerUserId" r.owner_user_id _ refl owner (
          text-fits "sourceStorageKey" r.source_storage_key _ refl source (
            text-fits "occurredAt" (to_iso_string r.created_at) _ refl (iso-fits r.created_at)
              (correlation-fits r.correlation_id trace)))))
