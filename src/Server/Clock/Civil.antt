-- ===== src/Server/Clock/Civil.antt =====
-- The date of src/server.rs is a date, and it is the right one.
use nix_capsule.Server.Clock.{
  Date, year_of_era, day_of_year, month_prime, month_of, year_from, date_of_days,
}
use nix_capsule.Prelude.{
  leb, ◌==◌, if◌then◌else◌, ==_iff, Bool-cases, ℕ, ◌+◌, ◌-◌, ◌*◌, ◌/◌, ◌%◌, ◌≤◌, ◌<◌, ◌≡◌, refl,
  ◌∙◌, ◌≢◌, inl, inr, Bool, true, not, ◌&&◌, ◌||◌, arith,
}

year_bound : (d : ℕ) → d < 146097 → year_of_era d < 400
year_bound d h = omega arith

year_start :
    (d : ℕ) → d < 146097 → 365 * year_of_era d + year_of_era d / 4 - year_of_era d / 100 ≤ d
year_start d h = omega arith

day_of_year_bound : (d : ℕ) → d < 146097 → day_of_year d < 366
day_of_year_bound d h = omega arith

month_bound : (doy : ℕ) → doy < 366 → month_prime doy < 12
month_bound doy h = omega arith

month_start : (doy : ℕ) → (153 * month_prime doy + 2) / 5 ≤ doy
month_start doy = omega arith

day_bound : (doy : ℕ) → doy - (153 * month_prime doy + 2) / 5 < 31
day_bound doy = omega arith

-- Hinnant's `days_from_civil`, counted from 1970-01-01.
year_before : Date → ℕ
year_before t = if leb t.month 2 then t.year - 1 else t.year

month_after : ℕ → ℕ
month_after month = if leb month 2 then month + 9 else month - 3

pub days_from_civil : Date → ℕ
days_from_civil t =
    let y = year_before t in
    let yoe = y % 400 in
    y / 400 * 146097
    + (yoe * 365 + yoe / 4 - yoe / 100 + ((153 * month_after t.month + 2) / 5 + t.day - 1))
    - 719468

-- The Gregorian calendar.
pub leap : ℕ → Bool
leap y = y % 4 == 0 && not (y % 100 == 0) || y % 400 == 0

pub month_length : ℕ → ℕ → ℕ
month_length y m =
    if m == 2
    then if leap y then 29 else 28
    else if m == 4 || m == 6 || m == 9 || m == 11
    then 30
    else 31

month_after-month_of : (mp : ℕ) → mp < 12 → month_after (month_of mp) ≡ mp
unfolding month_after
month_after-month_of mp h = ground arith

year_back :
    (mp y day : ℕ)
    → mp < 12
    → year_before (record { year = year_from (month_of mp) y; month = month_of mp; day = day }) ≡ y
unfolding year_before
year_back mp y day h = ground arith

-- A year of 366 days ends in the February of a leap year.
leap_year : (d : ℕ) → d < 146097 → day_of_year d ≡ 365 → (year_of_era d + 1) % 4 ≡ 0
leap_year d h e = omega (arith, e, h)

no_century :
    (d : ℕ) → d < 146097 → day_of_year d ≡ 365 → (year_of_era d + 1) % 100 ≡ 0 → year_of_era d ≡ 399
no_century d h e c = omega (arith, e, h, c)

leap_day : (d : ℕ) → d < 146097 → day_of_year d ≡ 365 → leap (year_of_era d + 1) ≡ true
unfolding leap
leap_day d h e = elim (Bool-cases ((year_of_era d + 1) % 100 == 0)) [
  | inl c ↦ rw (no_century d h e ((==_iff ((year_of_era d + 1) % 100) 0).0 c)) refl
  | inr c ↦ rw (leap_year d h e, c) refl
]

leap_period : (y e : ℕ) → leap (y + e * 400) ≡ leap y
unfolding leap
leap_period y e =
    let four : (y + e * 400) % 4 ≡ y % 4 = omega arith in
    let hundred : (y + e * 400) % 100 ≡ y % 100 = omega arith in
    let whole : (y + e * 400) % 400 ≡ y % 400 = omega arith in rw (four, hundred, whole) refl

february :
    (doy y : ℕ)
    → doy < 366
    → (doy ≡ 365 → leap (y + 1) ≡ true)
    → doy - 337 + 1 ≤ month_length (y + 1) 2
unfolding month_length
february doy y h last = elim (Bool-cases (leap (y + 1))) [
  | inl long ↦ rw long (omega (arith, h))
  | inr short ↦
      rw short (let other : doy ≢ 365 = λ e. cc (last e, short) in omega (arith, h, other))
]

-- The day of each month.
day_of_month :
    (mp doy y : ℕ)
    → month_prime doy ≡ mp
    → doy < 366
    → (doy ≡ 365 → leap (y + 1) ≡ true)
    → doy - (153 * mp + 2) / 5 + 1 ≤ month_length (year_from (month_of mp) y) (month_of mp)
unfolding month_length
day_of_month mp doy y m h last = elim (Bool-cases (mp == 11)) [
  | inl feb ↦ rw ((==_iff mp 11).0 feb) (february doy y h last)
  | inr rest ↦ ground (arith, m, h, rest)
]

last_day : (d e : ℕ) → d < 146097 → day_of_year d ≡ 365 → leap (year_of_era d + e * 400 + 1) ≡ true
last_day d e h k =
    let same : year_of_era d + e * 400 + 1 ≡ year_of_era d + 1 + e * 400 = omega arith in
    rw (same, leap_period (year_of_era d + 1) e) (leap_day d h k)

month_of_bounds : (mp : ℕ) → mp < 12 → (1 ≤ month_of mp) × (month_of mp ≤ 12)
month_of_bounds mp h = (ground (arith, h), ground (arith, h))

-- The date of a time stamp is one of the calendar: a month from 1 to 12, and a day from 1 to the number of
-- days that the month has in its year.
pub date_of_days_valid :
    (days : ℕ)
    → (1 ≤ (date_of_days days).month)
      × ((date_of_days days).month ≤ 12)
      × ((1 ≤ (date_of_days days).day)
          × ((date_of_days days).day
              ≤ month_length (date_of_days days).year (date_of_days days).month))
unfolding date_of_days
date_of_days_valid days =
    let d = (days + 719468) % 146097 in
    let e = (days + 719468) / 146097 in
    let small : d < 146097 = omega arith in
    let doy_small = day_of_year_bound d small in
    let (low, high) =
      month_of_bounds (month_prime (day_of_year d)) (month_bound (day_of_year d) doy_small) in
    (
      low,
      high,
      (
        omega arith,
        day_of_month (month_prime (day_of_year d)) (day_of_year d) (year_of_era d + e * 400) refl
            doy_small (last_day d e small),
      ),
    )

civil_back :
    (e d yoe doy mp : ℕ)
    → yoe < 400
    → mp < 12
    → 365 * yoe + yoe / 4 - yoe / 100 ≤ d
    → doy ≡ d - (365 * yoe + yoe / 4 - yoe / 100)
    → (153 * mp + 2) / 5 ≤ doy
    → days_from_civil (record {
      year = year_from (month_of mp) (yoe + e * 400);
      month = month_of mp;
      day = doy - (153 * mp + 2) / 5 + 1;
    })
      ≡ e * 146097 + d - 719468
unfolding days_from_civil
civil_back e d yoe doy mp a b c g k =
    let div : (yoe + e * 400) / 400 ≡ e = omega (arith, a) in
    let left : (yoe + e * 400) % 400 ≡ yoe = omega (arith, a) in
    rw
      (
        year_back mp (yoe + e * 400) (doy - (153 * mp + 2) / 5 + 1) b,
        month_after-month_of mp b,
        div,
        left,
      )
      (omega (arith, c, g, k))

-- The number of a date's day is the number the date was computed from.
pub days_from_civil-date_of_days : (days : ℕ) → days_from_civil (date_of_days days) ≡ days
unfolding days_from_civil date_of_days
days_from_civil-date_of_days days =
    let d = (days + 719468) % 146097 in
    let small : d < 146097 = omega arith in
    civil_back ((days + 719468) / 146097) d (year_of_era d) (day_of_year d)
      (month_prime (day_of_year d)) (year_bound d small)
      (month_bound (day_of_year d) (day_of_year_bound d small)) (year_start d small) refl
      (month_start (day_of_year d))
    ∙ omega arith
