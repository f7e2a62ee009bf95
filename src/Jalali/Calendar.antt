-- ===== src/Jalali/Calendar.antt =====
-- What is asked of the calendar that frontend/src/ui/jalali.js takes from the runtime.
use havale_khodro.Prelude.{ℕ, leb, if◌then◌else◌, ◌+◌, ◌-◌, ◌/◌, ◌%◌, ◌≤◌, ◌≡◌, arith}
use havale_khodro.Jalali.{JalaliDate, day_of_year, jalali, march_21}

-- The day of a year as month and day: six months of 31 days, then months of 30.
unfoldable pub month_day : ℕ → ℕ → JalaliDate
month_day jy e =
    if leb e 186
    then jalali jy ((e - 1) / 31 + 1) ((e - 1) % 31 + 1)
    else jalali jy ((e - 187) / 30 + 7) ((e - 187) % 30 + 1)

-- In the years from `from` to `to` the year begins between 20 and 22 March and has 365 or 366 days,
-- and its days are named in order.
pub record IsCalendar (to_jalali : ℕ → JalaliDate) (from to : ℕ) : Type 0 where
  pub nowruz : ℕ → ℕ
  pub near :
      (jy : ℕ)
      → from ≤ jy
      → jy ≤ to
      → (nowruz jy ≤ march_21 (jy + 621) + 1) × (march_21 (jy + 621) ≤ nowruz jy + 1)
  pub lasts :
      (jy : ℕ)
      → from ≤ jy
      → jy ≤ to
      → (nowruz jy + 365 ≤ nowruz (jy + 1)) × (nowruz (jy + 1) ≤ nowruz jy + 366)
  pub names :
      (jy e : ℕ)
      → from ≤ jy
      → jy ≤ to
      → 1 ≤ e
      → nowruz jy + e ≤ nowruz (jy + 1)
      → to_jalali (nowruz jy + e - 1) ≡ month_day jy e

-- A day of the year counted back from its month and day.
pub day_of_year-month_day :
    (jy e : ℕ) → 1 ≤ e → e ≤ 366 → day_of_year (month_day jy e).jm (month_day jy e).jd ≡ e
unfolding day_of_year month_day
day_of_year-month_day jy e h k = ground arith

-- The months and the days that exist in a year of `n` days.
abbrev pub IsDay : ℕ → ℕ → ℕ → Type 0
IsDay n jm jd =
    (1 ≤ jm) × (jm ≤ 12) × (1 ≤ jd) × (jd ≤ (if leb jm 6 then 31 else 30)) × (day_of_year jm jd ≤ n)

pub month_day-day_of_year :
    (n jy jm jd : ℕ) → IsDay n jm jd → month_day jy (day_of_year jm jd) ≡ jalali jy jm jd
unfolding day_of_year month_day
month_day-day_of_year n jy jm jd h = ground arith

pub month_day_jy : (jy e : ℕ) → month_day jy e ≡ jalali jy (month_day jy e).jm (month_day jy e).jd
unfolding month_day
month_day_jy jy e = ground arith

pub month_day-IsDay :
    (n jy e : ℕ) → 1 ≤ e → e ≤ n → n ≤ 366 → IsDay n (month_day jy e).jm (month_day jy e).jd
unfolding month_day day_of_year
month_day-IsDay n jy e h k l = ground arith
