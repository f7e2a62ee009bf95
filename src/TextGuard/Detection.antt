-- ===== src/TextGuard/Detection.antt =====
-- Telephone numbers in a text, by `normalise` and `looksLikePhone` of backend/src/utils/textGuard.js.
use havale_khodro.TextGuard.{
  folded, normalise, collapse, replace_words, spoken, looks_like_phone, some_run, leading_zero,
  country_code, not_round, is_separator,
}
use havale_khodro.TextGuard.Marks.{
  is_writing, is_bound, is_closing, is_letter, is_plain, folded-append, folded-bound,
  folded-IsPlain, separator_apart,
}
use havale_khodro.TextGuard.Words.{replace_words-before, replace_words-kept, spoken-words}
use havale_khodro.TextGuard.Runs.{
  is_wall, is_walled, collapse-before, collapse-walled, digits_in, some_run-before,
  some_run-collapse,
}
use havale_khodro.Prelude.{
  Bool-cases, All-weaken, All, ℕ, ◌≡◌, inl, inr, Bool, true, false, ◌||◌, List, [], ◌∷◌, ◌++◌,
  arith, refl, append_nil,
}

-- The digits of a number as it is written, in order.
abbrev pub digits_of : List ℕ → List ℕ
digits_of xs = digits_in (folded xs)

-- What makes digits a telephone number and not a price.
abbrev pub is_phone : List ℕ → Bool
is_phone run = leading_zero run || country_code run || not_round run

bound-wall : (b : ℕ) → is_bound b ≡ true → (is_wall b ≡ true) × (is_letter b ≡ false)
bound-wall b h = ground arith

plain_letter : (c : ℕ) → is_plain c ≡ true → is_letter c ≡ false
plain_letter c h = elim (Bool-cases (is_separator c)) [
  | inl s ↦ let (d, l) = separator_apart c s in l
  | inr s ↦ ground arith
]

plain-letters : (xs : List ℕ) → All (λ c. is_plain c ≡ true) xs → All (λ c. is_letter c ≡ false) xs
plain-letters xs h = All-weaken _ _ xs plain_letter h

-- A text is read on either side of a bound by itself.
pub normalise-before :
    (xs : List ℕ) (b : ℕ) (ys : List ℕ)
    → is_bound b ≡ true
    → normalise (xs ++ b ∷ ys) ≡ normalise xs ++ b ∷ normalise ys
unfolding normalise
normalise-before xs b ys h =
    let (wall, letter) = bound-wall b h in
    rw (folded-append xs (b ∷ ys)) (
      rw (folded-bound b ys h) (
        rw (replace_words-before spoken (folded xs) b (folded ys) spoken-words letter) (
          collapse-before false (replace_words spoken (folded xs)) b
            (replace_words spoken (folded ys)) wall)))

replace_words_nil : (entries : List (List ℕ × List ℕ)) → replace_words entries [] ≡ []
unfolding replace_words
replace_words_nil [] = refl
replace_words_nil (entry ∷ entries) = replace_words_nil entries

folded_nil : folded [] ≡ []
unfolding folded
folded_nil = refl

normalise_nil : normalise [] ≡ []
unfolding normalise
normalise_nil = rw folded_nil (rw (replace_words_nil spoken) refl)

closing-walled :
    (ys : List ℕ) → is_closing ys ≡ true → is_walled (replace_words spoken (folded ys)) ≡ true
closing-walled [] h = rw folded_nil (rw (replace_words_nil spoken) refl)
closing-walled (b ∷ ys) h =
    let (wall, letter) = bound-wall b h in
    rw (folded-bound b ys h) (
      rw (replace_words-before spoken [] b (folded ys) spoken-words letter)
        (rw (replace_words_nil spoken) wall))

pub normalise-run :
    (xs ys : List ℕ)
    → All (λ c. is_writing c ≡ true) xs
    → is_closing ys ≡ true
    → normalise (xs ++ ys) ≡ collapse false (folded xs) ++ normalise ys
unfolding normalise
normalise-run xs ys h e =
    let plain = folded-IsPlain xs h in
    rw (folded-append xs ys) (
      rw
        (replace_words-kept spoken (folded xs) (folded ys) spoken-words
          (plain-letters (folded xs) plain))
        (collapse-walled false (folded xs) (replace_words spoken (folded ys))
          (closing-walled ys e)))

normalise-walled : (ys : List ℕ) → is_closing ys ≡ true → is_walled (normalise ys) ≡ true
normalise-walled [] h = rw normalise_nil refl
normalise-walled (b ∷ ys) h = rw (normalise-before [] b ys h) (rw normalise_nil (bound-wall b h).0)

run_found :
    (test : List ℕ → Bool) (xs ys : List ℕ)
    → test [] ≡ false
    → All (λ c. is_writing c ≡ true) xs
    → is_closing ys ≡ true
    → some_run test false (normalise (xs ++ ys))
      ≡ (test (digits_of xs) || some_run test false (normalise ys))
run_found test xs ys none_passes h e =
    rw (normalise-run xs ys h e)
      (some_run-collapse test none_passes (folded xs) (normalise ys) (folded-IsPlain xs h)
        (normalise-walled ys e)).1

pub bound_found :
    (test : List ℕ → Bool) (xs : List ℕ) (b : ℕ) (ys : List ℕ)
    → test [] ≡ false
    → is_bound b ≡ true
    → some_run test false (normalise (xs ++ b ∷ ys))
      ≡ (some_run test false (normalise xs) || some_run test false (normalise ys))
bound_found test xs b ys none_passes h =
    rw (normalise-before xs b ys h)
      (some_run-before test none_passes false (normalise xs) b (normalise ys) (bound-wall b h).0)

or_regroup :
    (a b c d e f : Bool) → ((a || d) || (b || e) || (c || f)) ≡ ((a || b || c) || (d || e || f))
or_regroup a b c d e f = ground arith

looks_like_phone-bound :
    (xs : List ℕ) (b : ℕ) (ys : List ℕ)
    → is_bound b ≡ true
    → looks_like_phone (normalise (xs ++ b ∷ ys))
      ≡ (looks_like_phone (normalise xs) || looks_like_phone (normalise ys))
unfolding looks_like_phone
looks_like_phone-bound xs b ys h =
    rw
      (
        bound_found leading_zero xs b ys refl h,
        bound_found country_code xs b ys refl h,
        bound_found not_round xs b ys refl h,
      )
      (or_regroup (some_run leading_zero false (normalise xs))
        (some_run country_code false (normalise xs)) (some_run not_round false (normalise xs)) _ _
        _)

looks_like_phone-run :
    (xs ys : List ℕ)
    → All (λ c. is_writing c ≡ true) xs
    → is_closing ys ≡ true
    → looks_like_phone (normalise (xs ++ ys))
      ≡ (is_phone (digits_of xs) || looks_like_phone (normalise ys))
unfolding looks_like_phone
looks_like_phone-run xs ys h e =
    rw
      (
        run_found leading_zero xs ys refl h e,
        run_found country_code xs ys refl h e,
        run_found not_round xs ys refl h e,
      )
      (or_regroup (leading_zero (digits_of xs)) (country_code (digits_of xs))
        (not_round (digits_of xs)) _ _ _)

looks_like_phone-alone :
    (xs : List ℕ)
    → All (λ c. is_writing c ≡ true) xs
    → looks_like_phone (normalise xs) ≡ is_phone (digits_of xs)
unfolding looks_like_phone
looks_like_phone-alone xs h =
    let whole = rw (append_nil xs) at (looks_like_phone-run xs [] h refl) in
    rw whole (rw normalise_nil (ground arith))

-- A number written in Latin, Persian or Arabic digits, with the separators and the invisible marks that
-- the guard knows anywhere in it, between a character such as a colon and another or the end of the
-- text, is taken for a telephone number
-- exactly when its digits make one; and the text as a whole has a telephone number exactly when one of
-- its three parts has.
pub looks_like_phone-normalise :
    (before : List ℕ) (b : ℕ) (number rest : List ℕ)
    → is_bound b ≡ true
    → All (λ c. is_writing c ≡ true) number
    → is_closing rest ≡ true
    → (looks_like_phone (normalise number) ≡ is_phone (digits_of number))
      × (looks_like_phone (normalise (before ++ b ∷ (number ++ rest))) ≡ (
          looks_like_phone (normalise before)
          || (is_phone (digits_of number) || looks_like_phone (normalise rest))))
looks_like_phone-normalise before b number rest h writing closing = (
  looks_like_phone-alone number writing,
  rw
      (
        looks_like_phone-bound before b (number ++ rest) h,
        looks_like_phone-run number rest writing closing,
      )
      refl,
)
