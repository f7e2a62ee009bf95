-- ===== src/Jalali/Lengths.antt =====
-- `daysInJalaliMonth` of frontend/src/ui/jalali.js, and which dates `toGregorian` finds.
use havale_khodro.Prelude.{
  ℕ, leb, if◌then◌else◌, Bool-cases, present, ◌+◌, ◌-◌, ◌≤◌, ◌≡◌, refl, ◌∙◌, inl, inr, true, Option,
  some, arith,
}
use havale_khodro.Jalali.{JalaliDate, esfand, days_in_jalali_month, to_gregorian, day_of_year}
use havale_khodro.Jalali.Calendar.{IsCalendar, IsDay}
use havale_khodro.Jalali.RoundTrip.{day_found}
use havale_khodro.Jalali.Missing.{no_31, no_late}

before_esfand :
    (jm : ℕ)
    → jm ≤ 11
    → (days : ℕ)
    → (if leb jm 6 then 31 else if leb jm 11 then 30 else days) ≡ (if leb jm 6 then 31 else 30)
before_esfand jm h days = ground arith

module _ (to_jalali : ℕ → JalaliDate) (from to : ℕ) (C : IsCalendar to_jalali from to) where
  esfand-some :
      (x y : Option ℕ) (first next n : ℕ)
      → x ≡ some first
      → y ≡ some next
      → next ≡ first + n
      → 365 ≤ n
      → n ≤ 366
      → esfand to_jalali x y ≡ n - 336
  esfand-some x y first next n e f g low high = ground arith

  days_in_esfand :
      (jy : ℕ)
      → days_in_jalali_month to_jalali jy 12
        ≡ esfand to_jalali (to_gregorian to_jalali jy 1 1) (to_gregorian to_jalali (jy + 1) 1 1)
  unfolding days_in_jalali_month
  days_in_esfand jy = refl

  days_elsewhere :
      (jy jm : ℕ) → jm ≤ 11 → days_in_jalali_month to_jalali jy jm ≡ (if leb jm 6 then 31 else 30)
  unfolding days_in_jalali_month
  days_elsewhere jy jm h =
      before_esfand jm h
        (esfand to_jalali (to_gregorian to_jalali jy 1 1) (to_gregorian to_jalali (jy + 1) 1 1))

  nowruz_found :
      (p : ℕ) → from ≤ p → p + 2 ≤ to → to_gregorian to_jalali (p + 1) 1 1 ≡ some (C.nowruz (p + 1))
  nowruz_found p a b =
      let (short, long) = C.lasts (p + 1) (omega arith) (omega arith) in
      let n = C.nowruz (p + 1 + 1) - C.nowruz (p + 1) in
      let day : IsDay n 1 1 =
        unfold day_of_year in (omega arith, omega arith, omega arith, omega arith, omega arith) in
      let i : C.nowruz (p + 1) + day_of_year 1 1 - 1 ≡ C.nowruz (p + 1) =
        unfold day_of_year in omega arith in
      rw i at (day_found to_jalali from to C p 1 1 n a b (omega arith) day)

  esfand_days :
      (p n : ℕ)
      → from ≤ p
      → p + 3 ≤ to
      → C.nowruz (p + 1) + n ≡ C.nowruz (p + 1 + 1)
      → days_in_jalali_month to_jalali (p + 1) 12 ≡ n - 336
  esfand_days p n a b len =
      let (short, long) = C.lasts (p + 1) (omega arith) (omega arith) in
      days_in_esfand (p + 1)
      ∙ esfand-some _ _ (C.nowruz (p + 1)) (C.nowruz (p + 1 + 1)) n (nowruz_found p a (omega arith))
          (nowruz_found (p + 1) (omega arith) (omega arith)) (omega arith) (omega arith)
          (omega arith)

  present_found :
      (p jm jd n : ℕ)
      → from ≤ p
      → p + 2 ≤ to
      → C.nowruz (p + 1) + n ≡ C.nowruz (p + 1 + 1)
      → IsDay n jm jd
      → present (to_gregorian to_jalali (p + 1) jm jd) ≡ true
  present_found p jm jd n a b len day =
      rw (day_found to_jalali from to C p jm jd n a b len day) refl

  -- `toGregorian` finds a date of the year exactly if the day is within the length of the month.
  pub to_gregorian-days_in_jalali_month :
      (p jm jd : ℕ)
      → from ≤ p
      → p + 3 ≤ to
      → 1 ≤ jm
      → jm ≤ 12
      → 1 ≤ jd
      → jd ≤ 31
      → present (to_gregorian to_jalali (p + 1) jm jd)
        ≡ leb jd (days_in_jalali_month to_jalali (p + 1) jm)
  to_gregorian-days_in_jalali_month p jm jd a b low high first last =
      let (short, long) = C.lasts (p + 1) (omega arith) (omega arith) in
      let n = C.nowruz (p + 1 + 1) - C.nowruz (p + 1) in
      let len : C.nowruz (p + 1) + n ≡ C.nowruz (p + 1 + 1) = omega arith in
      elim (Bool-cases (leb jm 11)) [
        | inl within ↦
            rw (days_elsewhere (p + 1) jm (ground arith))
              (elim (Bool-cases (leb jd (if leb jm 6 then 31 else 30))) [
                | inl fits ↦ rw fits (
                    present_found p jm jd n a (omega arith) len
                      (unfold day_of_year in ground arith))
                | inr beyond ↦
                    let i : jd ≡ 31 = ground arith in
                    rw (beyond, i)
                      (rw
                        (no_31 to_jalali from to C (p + 1) jm (omega arith) (omega arith)
                          (ground arith) (ground arith))
                        refl)
              ])
        | inr last_month ↦
            let i : jm ≡ 12 = ground arith in
            rw (i, esfand_days p n a b len)
              (elim (Bool-cases (leb jd (n - 336))) [
                | inl fits ↦ rw fits (
                    present_found p 12 jd n a (omega arith) len
                      (unfold day_of_year in ground arith))
                | inr beyond ↦ rw beyond (
                    rw
                      (no_late to_jalali from to C (p + 1) jd n (omega arith) (omega arith) len
                        (ground arith) last)
                      refl)
              ])
      ]
