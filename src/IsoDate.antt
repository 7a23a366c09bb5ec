-- ===== src/IsoDate.antt =====
-- Date.prototype.toISOString, for a time value in milliseconds from 1970 on: the date in the
-- Gregorian calendar and the time of day, in UTC.
use processing_catalog.Prelude.{
  ℕ, zero, suc, ◌+◌, ◌-◌, ◌*◌, ◌/◌, ◌%◌, ◌≡◌, refl, String, List, [], ◌∷◌, leb, ltb, if◌then◌else◌,
}
use processing_catalog.Text.{◌<>◌}

unfoldable pub digit_from : List String → ℕ → String
digit_from [] n = ""
digit_from (d ∷ ds) zero = d
digit_from (d ∷ ds) (suc n) = digit_from ds n

abbrev pub digits : List String
digits = "0" ∷ "1" ∷ "2" ∷ "3" ∷ "4" ∷ "5" ∷ "6" ∷ "7" ∷ "8" ∷ "9" ∷ []

-- The last `width` decimal digits of a number.
unfoldable pub padded : ℕ → ℕ → String
padded zero n = ""
padded (suc width) n = padded width (n / 10) <> digit_from digits (n % 10)

-- The date of a day, counted from 1970-01-01, by eras of 400 years from 0000-03-01.
unfoldable pub date_text : ℕ → String
date_text days =
    let z = days + 719468 in
    let era = z / 146097 in
    let day_of_era = z % 146097 in
    let year_of_era =
      (day_of_era - day_of_era / 1460 + day_of_era / 36524 - day_of_era / 146096) / 365 in
    let day_of_year = day_of_era - (365 * year_of_era + year_of_era / 4 - year_of_era / 100) in
    let shifted = (5 * day_of_year + 2) / 153 in
    let day = day_of_year - (153 * shifted + 2) / 5 + 1 in
    let month = if ltb shifted 10 then shifted + 3 else shifted - 9 in
    let year = year_of_era + era * 400 + (if leb month 2 then 1 else 0) in
    let year_text = if leb year 9999 then padded 4 year else "+" <> padded 6 year in
    year_text <> "-" <> padded 2 month <> "-" <> padded 2 day

unfoldable pub time_text : ℕ → String
time_text ms =
    padded 2 (ms / 3600000)
    <> ":"
    <> padded 2 (ms / 60000 % 60)
    <> ":"
    <> padded 2 (ms / 1000 % 60)
    <> "."
    <> padded 3 (ms % 1000)

unfoldable pub to_iso_string : ℕ → String
unfolding date_text time_text padded digit_from
to_iso_string ms = date_text (ms / 86400000) <> "T" <> time_text (ms % 86400000) <> "Z"

leap_day : to_iso_string 1709208000123 ≡ "2024-02-29T12:00:00.123Z"
unfolding to_iso_string
leap_day = refl

start_of_time : to_iso_string 0 ≡ "1970-01-01T00:00:00.000Z"
unfolding to_iso_string
start_of_time = refl
