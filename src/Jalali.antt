-- ===== src/Jalali.antt =====
-- frontend/src/ui/jalali.js. A `Date` at noon is its local day, counted from 1 January of the year 1,
-- and the calendar of the runtime (`Intl`) is an argument. Years, months and days are positive.
pub mod Calendar
pub mod Passes
pub mod RoundTrip
pub mod Missing
pub mod Lengths
use havale_khodro.Prelude.{
  ℕ, leb, ◌==◌, if◌then◌else◌, zero, suc, ◌+◌, ◌-◌, ◌*◌, ◌/◌, ◌%◌, Bool, not, ◌&&◌, ◌||◌, Option,
  none, some,
}

pub record JalaliDate : Type 0 where
  pub jy : ℕ
  pub jm : ℕ
  pub jd : ℕ

abbrev pub jalali : ℕ → ℕ → ℕ → JalaliDate
jalali y m d = record { jy = y; jm = m; jd = d }

-- `dayOfYear`
unfoldable pub day_of_year : ℕ → ℕ → ℕ
day_of_year jm jd = (if leb jm 6 then (jm - 1) * 31 else 186 + (jm - 7) * 30) + jd

unfoldable pub is_leap : ℕ → Bool
is_leap y = (y % 4 == 0) && (not (y % 100 == 0) || y % 400 == 0)

-- `new Date(year, 2, 21, 12)`: 21 March, in the calendar that the language prescribes.
unfoldable pub march_21 : ℕ → ℕ
unfolding is_leap
march_21 y =
    (y - 1) * 365 + (y - 1) / 4 - (y - 1) / 100 + (y - 1) / 400 + 79 + (if is_leap y then 1 else 0)

abbrev pub same_date : JalaliDate → ℕ → ℕ → ℕ → Bool
same_date at jy jm jd = at.jy == jy && at.jm == jm && at.jd == jd

-- The two sides of the drift, `(at.jy - jy) * 366 + dayOfYear(at.jm, at.jd) - target`.
abbrev pub reached : JalaliDate → ℕ
reached at = at.jy * 366 + day_of_year at.jm at.jd

abbrev pub wanted : ℕ → ℕ → ℕ → ℕ
wanted jy jm jd = jy * 366 + day_of_year jm jd

module _ (to_jalali : ℕ → JalaliDate) where
  -- The loop of `toGregorian`, with the passes that are left.
  unfoldable pub passes : ℕ → ℕ → ℕ → ℕ → ℕ → Option ℕ
  unfolding day_of_year
  passes jy jm jd zero found = none
  passes jy jm jd (suc left) found =
      let at = to_jalali found in
      let rest = passes jy jm jd left (found + wanted jy jm jd - reached at) in
      if same_date at jy jm jd
      then some found
      else if reached at == wanted jy jm jd
      then none
      else rest

  unfoldable pub to_gregorian : ℕ → ℕ → ℕ → Option ℕ
  unfolding passes march_21 day_of_year
  to_gregorian jy jm jd = passes jy jm jd 8 (march_21 (jy + 621) + day_of_year jm jd - 1)

  abbrev pub esfand : Option ℕ → Option ℕ → ℕ
  esfand none next = 29
  esfand (some nowruz) none = 29
  esfand (some nowruz) (some next) = if next - nowruz == 366 then 30 else 29

  unfoldable pub days_in_jalali_month : ℕ → ℕ → ℕ
  unfolding to_gregorian
  days_in_jalali_month jy jm =
      if leb jm 6
      then 31
      else if leb jm 11
      then 30
      else esfand (to_gregorian jy 1 1) (to_gregorian (jy + 1) 1 1)
