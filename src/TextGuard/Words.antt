-- ===== src/TextGuard/Words.antt =====
-- The words for numbers in `normalise` of backend/src/utils/textGuard.js: where they cannot reach.
use havale_khodro.TextGuard.{starts_with, replace_word, replace_words, spoken}
use havale_khodro.TextGuard.Marks.{is_letter}
use havale_khodro.Prelude.{
  ◌==◌, Bool-cases, length, All, ℕ, zero, suc, ◌≤◌, ◌≡◌, refl, ap, inl, inr, Bool, true, false,
  ◌&&◌, List, [], ◌∷◌, ◌++◌, arith, ◌-◌, sym, append_assoc,
}

abbrev all_letters : List ℕ → Bool
all_letters [] = true
all_letters (c ∷ cs) = is_letter c && all_letters cs

abbrev pub is_word : List ℕ → Bool
is_word [] = false
is_word (c ∷ cs) = is_letter c && all_letters cs

abbrev pub all_words : List (List ℕ × List ℕ) → Bool
all_words [] = true
all_words (entry ∷ entries) = is_word entry.0 && all_words entries

word-letters : (word : List ℕ) → is_word word ≡ true → all_letters word ≡ true
word-letters [] h = refl
word-letters (w ∷ ws) h = h

pub spoken-words : all_words spoken ≡ true
unfolding spoken
spoken-words = refl

-- A word does not begin at a character that is no letter.
starts_with-bound :
    (word : List ℕ) (c : ℕ) (cs : List ℕ)
    → is_word word ≡ true
    → is_letter c ≡ false
    → starts_with word (c ∷ cs) ≡ false
unfolding starts_with
starts_with-bound [] c cs h e = ground arith
starts_with-bound (w ∷ ws) c cs h e = elim (Bool-cases (w == c)) [
  | inl q ↦ let same : w ≡ c = ground arith in absurd (ground (arith, rw same at h))
  | inr q ↦ rw q refl
]

-- And does not reach over one.
starts_with-before :
    (word xs : List ℕ) (b : ℕ) (ys : List ℕ)
    → all_letters word ≡ true
    → is_letter b ≡ false
    → starts_with word (xs ++ b ∷ ys) ≡ starts_with word xs
unfolding starts_with
starts_with-before [] xs b ys h e = refl
starts_with-before (w ∷ ws) [] b ys h e = starts_with-bound (w ∷ ws) b ys h e
starts_with-before (w ∷ ws) (x ∷ xs) b ys h e = ground (arith, starts_with-before ws xs b ys)

starts_with-length : (word xs : List ℕ) → starts_with word xs ≡ true → length word ≤ length xs
unfolding starts_with
starts_with-length [] xs h = omega arith
starts_with-length (w ∷ ws) [] h = ground arith
starts_with-length (w ∷ ws) (x ∷ xs) h = ground (arith, starts_with-length ws xs)

-- A character that is no letter parts the text.
replace_word-before :
    (word digits : List ℕ) (left : ℕ) (xs : List ℕ) (b : ℕ) (ys : List ℕ)
    → is_word word ≡ true
    → is_letter b ≡ false
    → left ≤ length xs
    → replace_word word digits left (xs ++ b ∷ ys)
      ≡ replace_word word digits left xs ++ b ∷ replace_word word digits 0 ys
unfolding replace_word
replace_word-before word digits zero [] b ys h e l = rw (starts_with-bound word b ys h e) refl
replace_word-before word digits (suc left) [] b ys h e l = absurd (omega arith)
replace_word-before word digits zero (x ∷ xs) b ys h e l =
    let same = starts_with-before word (x ∷ xs) b ys (word-letters word h) e in
    elim (Bool-cases (starts_with word (x ∷ xs))) [
      | inl q ↦
          let long = starts_with-length word (x ∷ xs) q in
          rw (same, q)
            (rw (replace_word-before word digits (length word - 1) xs b ys h e (omega arith)) (
              sym (
                append_assoc digits (replace_word word digits (length word - 1) xs)
                  (b ∷ replace_word word digits 0 ys))))
      | inr q ↦
          rw (same, q)
            (ap (λ r. x ∷ r) (replace_word-before word digits 0 xs b ys h e (omega arith)))
    ]
replace_word-before word digits (suc left) (x ∷ xs) b ys h e l =
    replace_word-before word digits left xs b ys h e (omega arith)

pub replace_words-before :
    (entries : List (List ℕ × List ℕ)) (xs : List ℕ) (b : ℕ) (ys : List ℕ)
    → all_words entries ≡ true
    → is_letter b ≡ false
    → replace_words entries (xs ++ b ∷ ys)
      ≡ replace_words entries xs ++ b ∷ replace_words entries ys
unfolding replace_words
replace_words-before [] xs b ys h e = refl
replace_words-before (entry ∷ entries) xs b ys h e =
    rw (replace_word-before entry.0 entry.1 0 xs b ys (ground arith) e (omega arith))
      (replace_words-before entries _ b _ (ground arith) e)

-- What has no letters stays.
replace_word-kept :
    (word digits xs ys : List ℕ)
    → is_word word ≡ true
    → All (λ c. is_letter c ≡ false) xs
    → replace_word word digits 0 (xs ++ ys) ≡ xs ++ replace_word word digits 0 ys
unfolding replace_word
replace_word-kept word digits [] ys h e = refl
replace_word-kept word digits (x ∷ xs) ys h e =
    rw (starts_with-bound word x (xs ++ ys) h e.0)
      (ap (λ r. x ∷ r) (replace_word-kept word digits xs ys h e.1))

pub replace_words-kept :
    (entries : List (List ℕ × List ℕ)) (xs ys : List ℕ)
    → all_words entries ≡ true
    → All (λ c. is_letter c ≡ false) xs
    → replace_words entries (xs ++ ys) ≡ xs ++ replace_words entries ys
unfolding replace_words
replace_words-kept [] xs ys h e = refl
replace_words-kept (entry ∷ entries) xs ys h e =
    rw (replace_word-kept entry.0 entry.1 xs ys (ground arith) e)
      (replace_words-kept entries xs _ (ground arith) e)
