-- ===== src/Examples/Jalali.antt =====
-- The years 1403 to 1406 as they are: 1403 began on 20 March 2024 and had 366 days.
use havale_khodro.Prelude.{
  ℕ, ltb, leb, if◌then◌else◌, ◌+◌, ◌-◌, ◌*◌, present, ◌≤◌, ◌≡◌, refl, some, arith, none,
}
use havale_khodro.Jalali.Calendar.{month_day, IsCalendar}
use havale_khodro.Jalali.{
  JalaliDate, march_21, passes, day_of_year, to_gregorian, jalali, days_in_jalali_month,
}
use havale_khodro.Jalali.RoundTrip.{to_gregorian-to_jalali}
use havale_khodro.Jalali.Lengths.{to_gregorian-days_in_jalali_month}

abbrev new_year : ℕ → ℕ
new_year jy = 738964 + (jy - 1403) * 365 + (if leb jy 1403 then 0 else 1)

abbrev day_in : ℕ → ℕ → JalaliDate
day_in jy d = month_day jy (d + 1 - new_year jy)

abbrev persian : ℕ → JalaliDate
persian d =
    if ltb d (new_year 1404)
    then day_in 1403 d
    else if ltb d (new_year 1405)
    then day_in 1404 d
    else if ltb d (new_year 1406)
    then day_in 1405 d
    else day_in 1406 d

year_near :
    (jy : ℕ)
    → 1403 ≤ jy
    → jy ≤ 1406
    → (new_year jy ≤ march_21 (jy + 621) + 1) × (march_21 (jy + 621) ≤ new_year jy + 1)
unfolding march_21
year_near jy a b = ground arith

year_lasts :
    (jy : ℕ)
    → 1403 ≤ jy
    → jy ≤ 1406
    → (new_year jy + 365 ≤ new_year (jy + 1)) × (new_year (jy + 1) ≤ new_year jy + 366)
year_lasts jy a b = ground arith

year_names :
    (jy e : ℕ)
    → 1403 ≤ jy
    → jy ≤ 1406
    → 1 ≤ e
    → new_year jy + e ≤ new_year (jy + 1)
    → persian (new_year jy + e - 1) ≡ month_day jy e
year_names jy e a b h k = ground arith

abbrev persian_calendar : IsCalendar persian 1403 1406
persian_calendar = record {
  nowruz = new_year;
  near = year_near;
  lasts = year_lasts;
  names = year_names;
}

-- A year of 365 days that begins on 20 March, as 1407 does: its last day is found in the third pass.
unfoldable year_1407 : ℕ → JalaliDate
unfolding month_day march_21
year_1407 d =
    let start = march_21 2028 - 1 in
    if ltb d (start + 365)
    then month_day 1407 (d + 1 - start)
    else month_day 1408 (d + 1 - (start + 365))

third_pass :
    (passes year_1407 1407 12 29 2 (march_21 2028 + day_of_year 12 29 - 1) ≡ none)
    × (passes year_1407 1407 12 29 3 (march_21 2028 + day_of_year 12 29 - 1)
        ≡ some (march_21 2028 - 1 + 364))
unfolding passes march_21 day_of_year year_1407 month_day
third_pass = (refl, refl)

to_gregorian-to_jalali_example :
    (to_gregorian persian 1404 6 15 ≡ some (new_year 1404 + day_of_year 6 15 - 1))
    × (persian (new_year 1404 + day_of_year 6 15 - 1) ≡ jalali 1404 6 15)
    × (to_gregorian persian 1404 12 29 ≡ some (new_year 1404 + 365 - 1))
unfolding month_day day_of_year
to_gregorian-to_jalali_example =
    to_gregorian-to_jalali persian 1403 1406 persian_calendar 1403 6 15 365 365 (omega arith)
      (omega arith) refl (omega arith, omega arith, omega arith, omega arith, omega arith)
      (omega arith) (omega arith)

to_gregorian-days_in_jalali_month_example :
    present (to_gregorian persian 1404 12 30) ≡ leb 30 (days_in_jalali_month persian 1404 12)
to_gregorian-days_in_jalali_month_example =
    to_gregorian-days_in_jalali_month persian 1403 1406 persian_calendar 1403 12 30 (omega arith)
      (omega arith) (omega arith) (omega arith) (omega arith) (omega arith)
