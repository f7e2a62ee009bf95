-- ===== src/Jalali/RoundTrip.antt =====
-- `toGregorian` of frontend/src/ui/jalali.js and the calendar, there and back.
use havale_khodro.Prelude.{ℕ, ◌+◌, ◌-◌, ◌≤◌, ◌≡◌, ◌∙◌, some, arith}
use havale_khodro.Jalali.{to_gregorian, JalaliDate, jalali, march_21, day_of_year}
use havale_khodro.Jalali.Calendar.{
  IsCalendar, IsDay, month_day, month_day_jy, month_day-IsDay, day_of_year-month_day,
}
use havale_khodro.Jalali.Passes.{passes-same_date, three_passes}

to_gregorian-same_date :
    (to_jalali : ℕ → JalaliDate) (jy jm jd d : ℕ)
    → to_gregorian to_jalali jy jm jd ≡ some d
    → to_jalali d ≡ jalali jy jm jd
unfolding to_gregorian
to_gregorian-same_date to_jalali jy jm jd d h =
    passes-same_date to_jalali jy jm jd 8 (march_21 (jy + 621) + day_of_year jm jd - 1) d h

module _ (to_jalali : ℕ → JalaliDate) (from to : ℕ) (C : IsCalendar to_jalali from to) where
  pub day_found :
      (p jm jd n : ℕ)
      → from ≤ p
      → p + 2 ≤ to
      → C.nowruz (p + 1) + n ≡ C.nowruz (p + 1 + 1)
      → IsDay n jm jd
      → to_gregorian to_jalali (p + 1) jm jd ≡ some (C.nowruz (p + 1) + day_of_year jm jd - 1)
  unfolding to_gregorian
  day_found p jm jd n a b len day = three_passes to_jalali from to C p jm jd 5 n a b day len

  -- There and back: a date that exists is found, the day that is found bears that date, and every day of
  -- the year is found again by its date.
  pub to_gregorian-to_jalali :
      (p jm jd e n : ℕ)
      → from ≤ p
      → p + 2 ≤ to
      → C.nowruz (p + 1) + n ≡ C.nowruz (p + 1 + 1)
      → IsDay n jm jd
      → 1 ≤ e
      → e ≤ n
      → let d = C.nowruz (p + 1) + day_of_year jm jd - 1 in
        let at = to_jalali (C.nowruz (p + 1) + e - 1) in
        (to_gregorian to_jalali (p + 1) jm jd ≡ some d)
        × (to_jalali d ≡ jalali (p + 1) jm jd)
        × (to_gregorian to_jalali at.jy at.jm at.jd ≡ some (C.nowruz (p + 1) + e - 1))
  to_gregorian-to_jalali p jm jd e n a b len day h k =
      let d = C.nowruz (p + 1) + day_of_year jm jd - 1 in
      let (short, long) = C.lasts (p + 1) (omega arith) (omega arith) in
      let at = month_day (p + 1) e in
      let same =
        C.names (p + 1) e (omega arith) (omega arith) h (omega arith) ∙ month_day_jy (p + 1) e in
      let again =
        day_found p at.jm at.jd n a b len (month_day-IsDay n (p + 1) e h k (omega arith)) in
      (
        day_found p jm jd n a b len day,
        to_gregorian-same_date to_jalali (p + 1) jm jd d (day_found p jm jd n a b len day),
        rw same (rw (day_of_year-month_day (p + 1) e h (omega arith)) at again),
      )
