-- ===== src/Jalali/Passes.antt =====
-- The loop of `toGregorian` of frontend/src/ui/jalali.js: where it stops, and after how many passes.
use havale_khodro.Prelude.{
  ℕ, Bool-cases, zero, suc, ◌+◌, ◌-◌, ◌*◌, ◌≤◌, ◌≡◌, ◌≢◌, inl, inr, some, arith, ◌==◌, refl, sym,
  ◌∙◌, true, leb,
}
use havale_khodro.Jalali.{
  passes, JalaliDate, jalali, same_date, reached, wanted, day_of_year, march_21,
}
use havale_khodro.Jalali.Calendar.{
  IsCalendar, month_day, day_of_year-month_day, IsDay, month_day-day_of_year,
}

same_date_eq :
    (at : JalaliDate) (jy jm jd : ℕ) → same_date at jy jm jd ≡ true → at ≡ jalali jy jm jd
same_date_eq at jy jm jd h = ground arith

pub reached-same_date :
    (at : JalaliDate) (jy jm jd : ℕ) → same_date at jy jm jd ≡ true → reached at ≡ wanted jy jm jd
reached-same_date at jy jm jd h = rw (same_date_eq at jy jm jd h) refl

pub day_positive : (n jm jd : ℕ) → IsDay n jm jd → 1 ≤ day_of_year jm jd
unfolding day_of_year
day_positive n jm jd day = ground arith

-- Whatever the calendar is, a day that is found bears the date that was asked for.
pub passes-same_date :
    (to_jalali : ℕ → JalaliDate) (jy jm jd left found d : ℕ)
    → passes to_jalali jy jm jd left found ≡ some d
    → to_jalali d ≡ jalali jy jm jd
unfolding passes
passes-same_date to_jalali jy jm jd zero found d h = absurd (ground arith)
passes-same_date to_jalali jy jm jd (suc left) found d h =
    elim (Bool-cases (same_date (to_jalali found) jy jm jd)) [
      | inl e ↦
          let q : found ≡ d = ground arith in rw (sym q) (same_date_eq (to_jalali found) jy jm jd e)
      | inr e ↦
          passes-same_date to_jalali jy jm jd left
            (found + wanted jy jm jd - reached (to_jalali found)) d (ground arith)
    ]

module _ (to_jalali : ℕ → JalaliDate) (from to : ℕ) (C : IsCalendar to_jalali from to) where
  pub reached-names :
      (y e : ℕ)
      → from ≤ y
      → y ≤ to
      → 1 ≤ e
      → C.nowruz y + e ≤ C.nowruz (y + 1)
      → reached (to_jalali (C.nowruz y + e - 1)) ≡ y * 366 + e
  unfolding month_day
  reached-names y e a b h k =
      let same = C.names y e a b h k in
      let doy = day_of_year-month_day y e h (let (short, long) = C.lasts y a b in omega arith) in
      ground (arith, same, doy)

  -- A pass that is not the last.
  pub pass_on :
      (jy jm jd left found found_next r : ℕ)
      → reached (to_jalali found) ≡ r
      → r ≢ wanted jy jm jd
      → found + wanted jy jm jd - r ≡ found_next
      → passes to_jalali jy jm jd (suc left) found ≡ passes to_jalali jy jm jd left found_next
  unfolding passes
  pass_on jy jm jd left found found_next r e n f =
      ground (arith, reached-same_date (to_jalali found) jy jm jd)

  -- The last pass.
  stop :
      (jy jm jd left n : ℕ)
      → from ≤ jy
      → jy ≤ to
      → IsDay n jm jd
      → C.nowruz jy + n ≡ C.nowruz (jy + 1)
      → passes to_jalali jy jm jd (suc left) (C.nowruz jy + day_of_year jm jd - 1)
        ≡ some (C.nowruz jy + day_of_year jm jd - 1)
  unfolding passes
  stop jy jm jd left n a b day len =
      let t = day_of_year jm jd in
      let same = C.names jy t a b (day_positive n jm jd day) (omega (arith, day.4)) in
      let back = month_day-day_of_year n jy jm jd day in ground (arith, same, back)

  -- From a day of the year it takes two passes.
  from_year :
      (jy jm jd left n e : ℕ)
      → from ≤ jy
      → jy ≤ to
      → IsDay n jm jd
      → C.nowruz jy + n ≡ C.nowruz (jy + 1)
      → 1 ≤ e
      → e ≤ n
      → passes to_jalali jy jm jd (suc (suc left)) (C.nowruz jy + e - 1)
        ≡ some (C.nowruz jy + day_of_year jm jd - 1)
  from_year jy jm jd left n e a b day len h k = elim (Bool-cases (e == day_of_year jm jd)) [
    | inl q ↦
        let i : e ≡ day_of_year jm jd = ground arith in
        rw i (stop jy jm jd (suc left) n a b day len)
    | inr q ↦
        pass_on jy jm jd (suc left) _ _ _ (reached-names jy e a b h (omega arith))
          (λ i. ground arith) (let pos = day_positive n jm jd day in omega arith)
        ∙ stop jy jm jd left n a b day len
  ]

  -- The day before the year, and the day after it, lead into the year.
  from_before :
      (p jm jd left n : ℕ)
      → from ≤ p
      → p + 1 ≤ to
      → IsDay n jm jd
      → C.nowruz (p + 1) + n ≡ C.nowruz (p + 1 + 1)
      → day_of_year jm jd ≡ 1
      → passes to_jalali (p + 1) jm jd (suc (suc (suc left))) (C.nowruz (p + 1) - 1)
        ≡ some (C.nowruz (p + 1) + day_of_year jm jd - 1)
  from_before p jm jd left n a b day len first =
      let (short, long) = C.lasts p a (omega arith) in
      let (short_here, long_here) = C.lasts (p + 1) (omega arith) b in
      let last = C.nowruz (p + 1) - C.nowruz p in
      let i : C.nowruz p + last - 1 ≡ C.nowruz (p + 1) - 1 = omega arith in
      let r : reached (to_jalali (C.nowruz (p + 1) - 1)) ≡ p * 366 + last =
        rw (sym i) (reached-names p last a (omega arith) (omega arith) (omega arith)) in
      pass_on (p + 1) jm jd (suc (suc left)) _ (C.nowruz (p + 1) + (367 - last) - 1) _ r
        (λ e. ground arith) (omega arith)
      ∙ from_year (p + 1) jm jd left n (367 - last) (omega arith) b day len (omega arith)
          (omega arith)

  from_after :
      (jy jm jd left n : ℕ)
      → from ≤ jy
      → jy + 1 ≤ to
      → IsDay n jm jd
      → C.nowruz jy + n ≡ C.nowruz (jy + 1)
      → day_of_year jm jd ≡ n
      → passes to_jalali jy jm jd (suc (suc (suc left))) (C.nowruz jy + n)
        ≡ some (C.nowruz jy + day_of_year jm jd - 1)
  from_after jy jm jd left n a b day len last =
      let (short, long) = C.lasts jy a (omega arith) in
      let (short_next, long_next) = C.lasts (jy + 1) (omega arith) (omega arith) in
      let i : C.nowruz (jy + 1) + 1 - 1 ≡ C.nowruz jy + n = omega arith in
      let r : reached (to_jalali (C.nowruz jy + n)) ≡ (jy + 1) * 366 + 1 =
        rw (sym i)
          (reached-names (jy + 1) 1 (omega arith) (omega arith) (omega arith) (omega arith)) in
      pass_on jy jm jd (suc (suc left)) _ (C.nowruz jy + (n + n - 366) - 1) _ r (λ e. ground arith)
        (omega arith)
      ∙ from_year jy jm jd left n (n + n - 366) a (omega arith) day len (omega arith) (omega arith)

  -- Where the year, the one before it and the one after it begin between 20 and 22 March: the loop finds a
  -- date that exists in three passes, whatever number beyond them it is allowed.
  pub three_passes :
      (p jm jd left n : ℕ)
      → from ≤ p
      → p + 2 ≤ to
      → IsDay n jm jd
      → C.nowruz (p + 1) + n ≡ C.nowruz (p + 1 + 1)
      → passes to_jalali
          (p + 1)
          jm
          jd
          (suc (suc (suc left)))
          (march_21 (p + 1 + 621) + day_of_year jm jd - 1)
        ≡ some (C.nowruz (p + 1) + day_of_year jm jd - 1)
  three_passes p jm jd left n a b day len =
      let (before, after) = C.near (p + 1) (omega arith) (omega arith) in
      let t = day_of_year jm jd in
      let pos = day_positive n jm jd day in
      let e = march_21 (p + 1 + 621) + t - C.nowruz (p + 1) in
      elim (Bool-cases (e == 0)) [
        | inl q ↦
            let i : march_21 (p + 1 + 621) + t - 1 ≡ C.nowruz (p + 1) - 1 = ground arith in
            rw i (from_before p jm jd left n a (omega arith) day len (ground arith))
        | inr q ↦ elim (Bool-cases (leb e n)) [
          | inl inside ↦
              let i : march_21 (p + 1 + 621) + t - 1 ≡ C.nowruz (p + 1) + e - 1 = ground arith in
              rw i (
                from_year (p + 1) jm jd (suc left) n e (omega arith) (omega arith) day len
                  (ground arith) (ground arith))
          | inr beyond ↦
              let i : march_21 (p + 1 + 621) + t - 1 ≡ C.nowruz (p + 1) + n =
                ground (arith, day.4) in
              rw i (
                from_after (p + 1) jm jd left n (omega arith) (omega arith) day len
                  (ground (arith, day.4)))
        ]
      ]
