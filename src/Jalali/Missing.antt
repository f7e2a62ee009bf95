-- ===== src/Jalali/Missing.antt =====
-- Dates that `toGregorian` of frontend/src/ui/jalali.js does not find.
use havale_khodro.Prelude.{
  ℕ, leb, ◌==◌, Bool-cases, zero, suc, ◌+◌, ◌-◌, ◌*◌, ◌≤◌, ◌<◌, ◌≡◌, refl, ◌∙◌, inl, inr, false,
  none, arith,
}
use havale_khodro.Jalali.{
  JalaliDate, passes, day_of_year, to_gregorian, reached, march_21, wanted, same_date,
}
use havale_khodro.Jalali.Calendar.{IsCalendar, month_day, month_day_jy}
use havale_khodro.Jalali.Passes.{pass_on, reached-names}

module _ (to_jalali : ℕ → JalaliDate) (from to : ℕ) (C : IsCalendar to_jalali from to) where
  -- A pass at the day that was wanted, which bears another date.
  stop_none :
      (jy jm jd left found r : ℕ)
      → reached (to_jalali found) ≡ r
      → r ≡ wanted jy jm jd
      → same_date (to_jalali found) jy jm jd ≡ false
      → passes to_jalali jy jm jd (suc left) found ≡ none
  unfolding passes
  stop_none jy jm jd left found r e w n = ground arith

  at_end :
      (jy jd n k : ℕ)
      → C.nowruz jy + n ≡ C.nowruz (jy + 1)
      → 1 ≤ n
      → 30 ≤ jd
      → jd ≤ 31
      → ((e : ℕ) → 1 ≤ e → e ≤ n → passes to_jalali jy 12 jd k (C.nowruz jy + e - 1) ≡ none)
      → ((e : ℕ) → 1 ≤ e → e ≤ 3 → passes to_jalali jy 12 jd k (C.nowruz (jy + 1) + e - 1) ≡ none)
      → passes to_jalali jy 12 jd k (C.nowruz (jy + 1) + (jd - 30) - 1) ≡ none
  at_end jy jd n k len pos low high here there = elim (Bool-cases (jd == 30)) [
    | inl z ↦
        let i : C.nowruz jy + n - 1 ≡ C.nowruz (jy + 1) + (jd - 30) - 1 = ground arith in
        rw i at (here n pos (omega arith))
    | inr z ↦ there (jd - 30) (ground arith) (omega arith)
  ]

  -- After the end of the year.
  late :
      (jy jd n k : ℕ)
      → from ≤ jy
      → jy + 1 ≤ to
      → C.nowruz jy + n ≡ C.nowruz (jy + 1)
      → n < day_of_year 12 jd
      → jd ≤ 31
      → ((e : ℕ) → 1 ≤ e → e ≤ n → passes to_jalali jy 12 jd k (C.nowruz jy + e - 1) ≡ none)
        × ((e : ℕ) → 1 ≤ e → e ≤ 3 → passes to_jalali jy 12 jd k (C.nowruz (jy + 1) + e - 1) ≡ none)
  unfolding day_of_year
  late jy jd n zero a b len q r = unfold passes in (λ e h k. refl, λ e h k. refl)
  late jy jd n (suc k) a b len q low =
      let (here, there) = late jy jd n k a b len q low in
      let (short, long) = C.lasts jy a (omega arith) in
      let (short_next, long_next) = C.lasts (jy + 1) (omega arith) b in
      (
        (λ e h g.
            pass_on to_jalali from to C jy 12 jd k _ (C.nowruz (jy + 1) + (336 + jd - n) - 1) _
              (reached-names to_jalali from to C jy e a (omega arith) h (omega arith))
              (λ z. omega arith) (omega arith)
            ∙ there (336 + jd - n) (omega arith) (omega arith)),
        (λ e h g.
            let r = reached-names to_jalali from to C (jy + 1) e (omega arith) b h (omega arith) in
            elim (Bool-cases (e + 30 == jd)) [
              | inl z ↦
                  let other =
                    C.names (jy + 1) e (omega arith) b h (omega arith) ∙ month_day_jy (jy + 1) e in
                  stop_none jy 12 jd k _ _ r (ground arith) (rw other (ground arith))
              | inr z ↦
                  pass_on to_jalali from to C jy 12 jd k _ (C.nowruz (jy + 1) + (jd - 30) - 1) _ r
                    (λ y. ground arith) (omega arith)
                  ∙ at_end jy jd n k len (omega arith) (omega arith) low here there
            ]),
      )

  -- The 31st of a month of 30 days within the year.
  at_31 :
      (jy jm k : ℕ)
      → from ≤ jy
      → jy ≤ to
      → 7 ≤ jm
      → jm ≤ 11
      → passes to_jalali jy jm 31 k (C.nowruz jy + day_of_year jm 31 - 1) ≡ none
  unfolding day_of_year month_day
  at_31 jy jm zero a b low high = unfold passes in refl
  at_31 jy jm (suc k) a b low high =
      let (short, long) = C.lasts jy a b in
      let t = day_of_year jm 31 in
      stop_none jy jm 31 k (C.nowruz jy + t - 1) (jy * 366 + t)
        (reached-names to_jalali from to C jy t a b (ground arith) (ground arith)) refl
        (rw (C.names jy t a b (ground arith) (ground arith)) (ground arith))

  year_31 :
      (jy jm e k : ℕ)
      → from ≤ jy
      → jy ≤ to
      → 7 ≤ jm
      → jm ≤ 11
      → 1 ≤ e
      → C.nowruz jy + e ≤ C.nowruz (jy + 1)
      → passes to_jalali jy jm 31 k (C.nowruz jy + e - 1) ≡ none
  year_31 jy jm e zero a b low high h g = unfold passes in refl
  year_31 jy jm e (suc k) a b low high h g = elim (Bool-cases (e == day_of_year jm 31)) [
    | inl z ↦
        let i : e ≡ day_of_year jm 31 = ground arith in rw i (at_31 jy jm (suc k) a b low high)
    | inr z ↦
        pass_on to_jalali from to C jy jm 31 k _ (C.nowruz jy + day_of_year jm 31 - 1) _
          (reached-names to_jalali from to C jy e a b h g) (λ y. ground arith)
          (unfold day_of_year in omega arith)
        ∙ at_31 jy jm k a b low high
  ]

  pub no_31 :
      (jy jm : ℕ) → from ≤ jy → jy ≤ to → 7 ≤ jm → jm ≤ 11 → to_gregorian to_jalali jy jm 31 ≡ none
  unfolding to_gregorian day_of_year
  no_31 jy jm a b low high =
      let (short, long) = C.lasts jy a b in
      let (before, after) = C.near jy a b in
      let e = march_21 (jy + 621) + day_of_year jm 31 - C.nowruz jy in
      let i : C.nowruz jy + e - 1 ≡ march_21 (jy + 621) + day_of_year jm 31 - 1 = ground arith in
      rw i at (year_31 jy jm e 8 a b low high (ground arith) (ground arith))

  pub no_late :
      (jy jd n : ℕ)
      → from ≤ jy
      → jy + 1 ≤ to
      → C.nowruz jy + n ≡ C.nowruz (jy + 1)
      → n < 336 + jd
      → jd ≤ 31
      → to_gregorian to_jalali jy 12 jd ≡ none
  unfolding to_gregorian day_of_year
  no_late jy jd n a b len q low =
      let (short, long) = C.lasts jy a (omega arith) in
      let (before, after) = C.near jy a (omega arith) in
      let (here, there) = late jy jd n 8 a b len q low in
      let e = march_21 (jy + 621) + day_of_year 12 jd - C.nowruz jy in
      elim (Bool-cases (leb e n)) [
        | inl z ↦
            let i : C.nowruz jy + e - 1 ≡ march_21 (jy + 621) + day_of_year 12 jd - 1 =
              omega arith in
            rw i at (here e (omega arith) (ground arith))
        | inr z ↦
            let i : C.nowruz (jy + 1) + (e - n) - 1 ≡ march_21 (jy + 621) + day_of_year 12 jd - 1 =
              ground arith in
            rw i at (there (e - n) (ground arith) (omega arith))
      ]
