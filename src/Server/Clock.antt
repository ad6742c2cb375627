-- ===== src/Server/Clock.antt =====
-- The time stamps of src/server.rs: `format_utc` and the date it computes.
pub mod Civil
use nix_capsule.Prelude.Decimal.{to_decimal}
use nix_capsule.Prelude.{
  ltb, leb, if◌then◌else◌, length, Str, ℕ, zero, suc, ◌+◌, ◌-◌, ◌*◌, ◌/◌, ◌%◌, [], ◌∷◌, ◌++◌,
}

pub record Date : Type 0 where
  pub year : ℕ
  pub month : ℕ
  pub day : ℕ

abbrev pub year_of_era : ℕ → ℕ
year_of_era day_of_era =
    (day_of_era - day_of_era / 1460 + day_of_era / 36524 - day_of_era / 146096) / 365

abbrev pub day_of_year : ℕ → ℕ
day_of_year day_of_era =
    day_of_era
    - (365 * year_of_era day_of_era + year_of_era day_of_era / 4 - year_of_era day_of_era / 100)

abbrev pub month_prime : ℕ → ℕ
month_prime doy = (5 * doy + 2) / 153

abbrev pub month_of : ℕ → ℕ
month_of mp = if ltb mp 10 then mp + 3 else mp - 9

abbrev pub day_of : ℕ → ℕ
day_of doy = doy - (153 * month_prime doy + 2) / 5 + 1

abbrev pub year_from : ℕ → ℕ → ℕ
year_from month year_index = if leb month 2 then year_index + 1 else year_index

-- The date of a day behind 1970-01-01; all its numbers are at least 0.
unfoldable pub date_of_days : ℕ → Date
date_of_days days =
    let era_index = (days + 719468) / 146097 in
    let day_of_era = (days + 719468) % 146097 in
    let doy = day_of_year day_of_era in
    let month = month_of (month_prime doy) in
    record {
      year = year_from month (year_of_era day_of_era + era_index * 400);
      month = month;
      day = day_of doy;
    }

zeros : ℕ → Str
zeros zero = []
zeros (suc n) = b'0' ∷ zeros n

-- `{:0w}`
unfoldable padded : ℕ → ℕ → Str
unfolding zeros
padded width n = let text = to_decimal n in zeros (width - length text) ++ text

unfoldable pub format_utc : ℕ → Str
unfolding date_of_days padded
format_utc secs =
    let date = date_of_days (secs / 86400) in
    let secs_of_day = secs % 86400 in
    padded 4 date.year
    ++ b'-'
      ∷ (padded 2 date.month
          ++ b'-'
            ∷ (padded 2 date.day
                ++ b'T'
                  ∷ (padded 2 (secs_of_day / 3600)
                      ++ b':'
                        ∷ (padded 2 (secs_of_day % 3600 / 60)
                            ++ b':' ∷ (padded 2 (secs_of_day % 60) ++ b'Z' ∷ [])))))
