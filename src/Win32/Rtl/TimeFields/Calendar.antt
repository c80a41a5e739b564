-- ===== src/Win32/Rtl/TimeFields/Calendar.antt =====
-- The calendar that `civil_of_days` counts in.
use windows_10_js.Prelude.{
  ℕ, zero, suc, ◌+◌, ◌-◌, ◌*◌, ◌/◌, ◌%◌, ◌≡◌, ◌⊎◌, ◌<◌, ◌≤◌, refl, arith, Bool, ◌&&◌, ◌||◌, not,
  ◌==◌, ltb, leb, if◌then◌else◌, inl, inr, subst, sym, ap, ◌∙◌, Option, some, none, List, ◌∷◌,
}
use windows_10_js.Win32.Rtl.TimeFields.{year_of_era, day_of_year, civil_of_days, time_fields}

-- The year that begins in March, and the day in it, of the day `z` after 0000-03-01.
abbrev march_year : ℕ → ℕ
march_year z = year_of_era (z - z / 146097 * 146097) + z / 146097 * 400

abbrev march_day : ℕ → ℕ
march_day z = day_of_year (z - z / 146097 * 146097)

-- The days before the March of a year.
abbrev start : ℕ → ℕ
start y = 365 * y + y / 4 - y / 100 + y / 400

era_year :
    (e : ℕ)
    → e < 146097
    → (year_of_era e < 400)
      × (365 * year_of_era e + year_of_era e / 4 - year_of_era e / 100 ≤ e)
      × (e < start (year_of_era e + 1))
era_year e h = omega arith

start-era : (y k : ℕ) → y < 400 → start (y + k * 400) ≡ 365 * y + y / 4 - y / 100 + k * 146097
start-era y k h = omega arith

start-era_next : (y k : ℕ) → y < 400 → start (y + k * 400 + 1) ≡ start (y + 1) + k * 146097
start-era_next y k h = omega arith

-- The year begins at or before the day, and the next one after it.
march_date : (z : ℕ) → (start (march_year z) + march_day z ≡ z) × (z < start (march_year z + 1))
march_date z =
    let era = z / 146097 in
    let e = z - era * 146097 in
    let inside = era_year e (omega arith) in
    let now = start-era (year_of_era e) era inside.0 in
    let next = start-era_next (year_of_era e) era inside.0 in omega arith

unfoldable pub is_leap : ℕ → Bool
is_leap y = (y % 4 == 0) && (not (y % 100 == 0) || (y % 400 == 0))

unfoldable pub leap_days : ℕ → ℕ
unfolding is_leap
leap_days y = if is_leap y then 1 else 0

start-suc : (y : ℕ) → start (y + 1) ≡ start y + 365 + leap_days (y + 1)
unfolding leap_days
start-suc y = ground arith

start_mono : (y y' : ℕ) → y + 1 ≤ y' → start (y + 1) + 365 * (y' - (y + 1)) ≤ start y'
start_mono y y' h = omega arith

-- Of two days in a row, by their years and the days in these.
days_in_a_row :
    (z y d y' d' : ℕ)
    → (start y + d ≡ z) × (z < start (y + 1))
    → (start y' + d' ≡ suc z) × (suc z < start (y' + 1))
    → ((y' ≡ y) × (d' ≡ d + 1) × (d < 364 + leap_days (y + 1)))
      ⊎ ((y' ≡ y + 1) × (d' ≡ 0) × (d ≡ 364 + leap_days (y + 1)))
days_in_a_row z y d y' d' h h' = elim (trichotomy y' y) [
  | inl before ↦ let m = start_mono y' y before in absurd (omega arith)
  | inr (inl same) ↦ let leap = start-suc y in inl (omega arith)
  | inr (inr after) ↦
      let leap = start-suc y in
      let m = start_mono y y' after in
      let one : y' ≡ y + 1 = omega arith in inr (one, omega arith, omega arith)
]
  where
    trichotomy : (a b : ℕ) → (a + 1 ≤ b) ⊎ (a ≡ b) ⊎ (b + 1 ≤ a)
    trichotomy a b = omega arith

-- Leap years and months of the calendar.
unfoldable pub days_in_month : (year month : ℕ) → ℕ
days_in_month y m =
    if m == 2
    then 28 + leap_days y
    else if (m == 4) || (m == 6) || (m == 9) || (m == 11)
    then 30
    else 31

-- The day after a date.
unfoldable pub next_day : ℕ × ℕ × ℕ → ℕ × ℕ × ℕ
next_day (y, m, d) =
    if ltb d (days_in_month y m)
    then (y, m, d + 1)
    else if ltb m 12
    then (y, m + 1, 1)
    else (y + 1, 1, 1)

-- The date of the day `d` of the year `y` that begins in March.
abbrev date_of : ℕ → ℕ → ℕ × ℕ × ℕ
date_of y d =
    let month_prime = (5 * d + 2) / 153 in
    let month = if ltb month_prime 10 then month_prime + 3 else month_prime - 9 in
    (if leb month 2 then y + 1 else y, month, d - (153 * month_prime + 2) / 5 + 1)

same_year :
    (y d : ℕ)
    → d < 364 + leap_days (y + 1)
    → leap_days (y + 1) ≤ 1
    → date_of y (d + 1) ≡ next_day (date_of y d)
unfolding next_day days_in_month
same_year y d h small = ground arith

new_year :
    (y d : ℕ)
    → d ≡ 364 + leap_days (y + 1)
    → leap_days (y + 1) ≤ 1
    → date_of (y + 1) 0 ≡ next_day (date_of y d)
unfolding next_day days_in_month
new_year y d h small = ground arith

leap_days-le : (y : ℕ) → leap_days y ≤ 1
unfolding leap_days
leap_days-le y = ground arith

civil_of_days-next : (n : ℕ) → civil_of_days (suc n) ≡ next_day (civil_of_days n)
unfolding civil_of_days
civil_of_days-next n =
    let z = n + 719468 in
    let shift : suc n + 719468 ≡ suc z = omega arith in
    let small = leap_days-le (march_year z + 1) in
    let row =
      days_in_a_row z (march_year z) (march_day z) (march_year (suc z)) (march_day (suc z))
        (march_date z) (march_date (suc z)) in
    let step : date_of (march_year (suc z)) (march_day (suc z))
        ≡ next_day (date_of (march_year z) (march_day z)) =
      elim row [
        | inl (y, d, h) ↦ rw (y, d) (same_year (march_year z) (march_day z) h small)
        | inr (y, d, h) ↦ rw (y, d) (new_year (march_year z) (march_day z) h small)
      ] in
    subst
      (λ w. date_of (march_year w) (march_day w) ≡ next_day (date_of (march_year z) (march_day z)))
      (sym shift) step

-- The date so many days after a date.
unfoldable pub days_after : ℕ × ℕ × ℕ → ℕ → ℕ × ℕ × ℕ
unfolding next_day
days_after date zero = date
days_after date (suc n) = next_day (days_after date n)

civil_of_days-days_after : (n : ℕ) → civil_of_days n ≡ days_after (1970, 1, 1) n
unfolding days_after civil_of_days
civil_of_days-days_after zero = refl
civil_of_days-days_after (suc n) = civil_of_days-next n ∙ ap next_day (civil_of_days-days_after n)

-- The first three fields.
pub take_date : List ℕ → Option (ℕ × ℕ × ℕ)
take_date (y ∷ m ∷ d ∷ rest) = some (y, m, d)
take_date fields = none

-- The year, month and day of a time of `t` units of 100 ns are those of the Gregorian calendar for
-- so many whole days after 1 January 1970.
pub time_fields-days_after :
    (t : ℕ) → take_date (time_fields t) ≡ some (days_after (1970, 1, 1) (t / 864_000_000_000))
unfolding time_fields take_date
time_fields-days_after t =
    let days : t / 10000000 / 86400 ≡ t / 864_000_000_000 = omega arith in
    ap some (ap civil_of_days days ∙ civil_of_days-days_after (t / 864_000_000_000))
