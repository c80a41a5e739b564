-- ===== src/Win32/Rtl/TimeFields.antt =====
-- RtlTimeToTimeFields of rtl.js.
pub mod Calendar
use windows_10_js.Prelude.{ℕ, ◌+◌, ◌-◌, ◌*◌, ◌/◌, ◌%◌, List, [], ◌∷◌, ltb, leb, if◌then◌else◌}
use windows_10_js.Hal.Memory.{Memory, read64, write16}
use windows_10_js.Win32.GuestStrings.{write_units}

abbrev pub year_of_era : ℕ → ℕ
year_of_era e = (e - e / 1460 + e / 36524 - e / 146096) / 365

abbrev pub day_of_year : ℕ → ℕ
day_of_year e = let y = year_of_era e in e - (365 * y + y / 4 - y / 100)

-- Year, month and day of a number of days; no difference below is negative, as `e` is below 146097.
unfoldable pub civil_of_days : ℕ → ℕ × ℕ × ℕ
civil_of_days days =
    let z = days + 719468 in
    let era = z / 146097 in
    let e = z - era * 146097 in
    let year = year_of_era e + era * 400 in
    let month_prime = (5 * day_of_year e + 2) / 153 in
    let day = day_of_year e - (153 * month_prime + 2) / 5 + 1 in
    let month = if ltb month_prime 10 then month_prime + 3 else month_prime - 9 in
    (if leb month 2 then year + 1 else year, month, day)

-- The eight fields, for a time in units of 100 ns.
unfoldable pub time_fields : ℕ → List ℕ
unfolding civil_of_days
time_fields filetime =
    let total_seconds = filetime / 10000000 in
    let days = total_seconds / 86400 in
    let seconds_of_day = total_seconds % 86400 in
    let (year, month, day) = civil_of_days days in
    year
    ∷ month
    ∷ day
    ∷ (seconds_of_day / 3600)
    ∷ (seconds_of_day % 3600 / 60)
    ∷ (seconds_of_day % 60)
    ∷ (filetime % 10000000 / 10000)
    ∷ ((days + 1) % 7)
    ∷ []

unfoldable pub rtl_time_to_time_fields : (time_pointer fields_pointer : ℕ) → Memory → Memory
unfolding time_fields write_units
rtl_time_to_time_fields time_pointer fields_pointer m =
    write_units fields_pointer (time_fields (read64 m time_pointer)) m
