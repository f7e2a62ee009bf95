-- ===== src/TextGuard/Marks.antt =====
-- What `normalise` of backend/src/utils/textGuard.js makes of the marks and digits of a text.
use havale_khodro.TextGuard.{
  folded, fold_digits, fold_digit, is_digit, is_separator, is_invisible, within, is_space,
}
use havale_khodro.Prelude.{
  ◌==◌, find_many, All, ℕ, ◌≡◌, refl, Bool, true, false, not, ◌&&◌, ◌||◌, List, [], ◌∷◌, ◌++◌,
  arith, Bool-cases, inl, inr,
}

-- The characters a number is written with: digits of three scripts, separators, invisible marks.
abbrev pub is_writing : ℕ → Bool
is_writing c =
    is_invisible c || is_separator c || is_digit c || within 1776 1785 c || within 1632 1641 c

abbrev pub is_letter : ℕ → Bool
is_letter c = within 1570 1740 c && not (c == 1644)

-- A character that neither writes a number nor is a letter, such as a colon.
abbrev pub is_bound : ℕ → Bool
is_bound c = not (is_writing c) && not (is_letter c)

-- The end of a text, or a bound.
abbrev pub is_closing : List ℕ → Bool
is_closing [] = true
is_closing (c ∷ cs) = is_bound c

abbrev pub is_plain : ℕ → Bool
is_plain c = is_digit c || is_separator c

pub separator_apart : (c : ℕ) → is_separator c ≡ true → (is_digit c ≡ false) × (is_letter c ≡ false)
unfolding is_separator is_space
separator_apart c h = ground arith

fold_digits-append :
    (first : ℕ) (xs ys : List ℕ)
    → fold_digits first (xs ++ ys) ≡ fold_digits first xs ++ fold_digits first ys
unfolding fold_digits
fold_digits-append first [] ys = refl
fold_digits-append first (x ∷ xs) ys = ground (arith, fold_digits-append first xs ys)

visible-append :
    (xs ys : List ℕ)
    → find_many (λ c. not (is_invisible c)) (xs ++ ys)
      ≡ find_many (λ c. not (is_invisible c)) xs ++ find_many (λ c. not (is_invisible c)) ys
unfolding find_many
visible-append [] ys = refl
visible-append (x ∷ xs) ys = ground (arith, visible-append xs ys)

pub folded-append : (xs ys : List ℕ) → folded (xs ++ ys) ≡ folded xs ++ folded ys
unfolding folded
folded-append xs ys = rw (visible-append xs ys) (
    rw
      (fold_digits-append 1776 (find_many (λ c. not (is_invisible c)) xs)
        (find_many (λ c. not (is_invisible c)) ys))
      (fold_digits-append 1632 (fold_digits 1776 (find_many (λ c. not (is_invisible c)) xs))
        (fold_digits 1776 (find_many (λ c. not (is_invisible c)) ys))))

pub folded-bound : (b : ℕ) (ys : List ℕ) → is_bound b ≡ true → folded (b ∷ ys) ≡ b ∷ folded ys
unfolding folded fold_digits fold_digit find_many
folded-bound b ys h = ground arith

fold_digit-IsPlain :
    (c : ℕ)
    → is_writing c ≡ true
    → is_invisible c ≡ false
    → is_plain (fold_digit 1632 (fold_digit 1776 c)) ≡ true
unfolding fold_digit
fold_digit-IsPlain c h e = ground arith

-- A number as it is written is digits and separators.
pub folded-IsPlain :
    (xs : List ℕ) → All (λ c. is_writing c ≡ true) xs → All (λ c. is_plain c ≡ true) (folded xs)
unfolding folded fold_digits find_many
folded-IsPlain [] h = tt
folded-IsPlain (x ∷ xs) h = elim (Bool-cases (is_invisible x)) [
  | inl e ↦ rw e (folded-IsPlain xs h.1)
  | inr e ↦ rw e (fold_digit-IsPlain x h.0 e, folded-IsPlain xs h.1)
]
