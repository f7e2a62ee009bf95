-- ===== src/TextGuard.antt =====
-- backend/src/utils/textGuard.js: how the text of a listing is read, and what is a telephone number in it.
-- A text is the list of its code units.
pub mod Marks
pub mod Words
pub mod Runs
pub mod Detection
pub mod Rules
pub mod Refusals
use havale_khodro.Prelude.{
  ℕ, leb, ◌==◌, if◌then◌else◌, ◌+◌, ◌-◌, Bool, true, false, not, ◌&&◌, ◌||◌, List, [], ◌∷◌, ◌++◌,
  length, find_many, zero, suc,
}

-- `\d`
abbrev pub is_digit : ℕ → Bool
is_digit c = leb 48 c && leb c 57

abbrev pub within : ℕ → ℕ → ℕ → Bool
within low high c = leb low c && leb c high

-- `INVISIBLE`: zero-width and directional marks.
unfoldable pub is_invisible : ℕ → Bool
is_invisible c = within 8203 8207 c || within 8234 8238 c || within 8288 8292 c || c == 65279

-- `\s`
unfoldable pub is_space : ℕ → Bool
is_space c =
    within 9 13 c
    || c == 32
    || c == 160
    || c == 5760
    || within 8192 8202 c
    || c == 8232
    || c == 8233
    || c == 8239
    || c == 8287
    || c == 12288
    || c == 65279

-- The characters people put between digits.
unfoldable pub is_separator : ℕ → Bool
unfolding is_space
is_separator c =
    is_space c
    || within 40 47 c
    || within 91 93 c
    || c == 95
    || c == 124
    || c == 171
    || c == 187
    || c == 1548
    || c == 1644

unfoldable pub fold_digit : ℕ → ℕ → ℕ
fold_digit first c = if within first (first + 9) c then c - first + 48 else c

-- The ten digits of a script as ASCII digits, with the first of the ten.
unfoldable pub fold_digits : ℕ → List ℕ → List ℕ
unfolding fold_digit
fold_digits first [] = []
fold_digits first (c ∷ cs) = fold_digit first c ∷ fold_digits first cs

unfoldable pub starts_with : List ℕ → List ℕ → Bool
starts_with [] text = true
starts_with (w ∷ ws) [] = false
starts_with (w ∷ ws) (c ∷ cs) = w == c && starts_with ws cs

-- `split(word).join(digits)`, with what is left to pass over of a word that was replaced.
unfoldable pub replace_word : List ℕ → List ℕ → ℕ → List ℕ → List ℕ
unfolding starts_with
replace_word word digits left [] = []
replace_word word digits zero (c ∷ cs) =
    let here = starts_with word (c ∷ cs) in
    let rest = replace_word word digits (if here then length word - 1 else 0) cs in
    if here then digits ++ rest else c ∷ rest
replace_word word digits (suc left) (c ∷ cs) = replace_word word digits left cs

-- `SPOKEN`: the words for numbers, longest first.
unfoldable pub spoken : List (List ℕ × List ℕ)
spoken =
    (1606 ∷ 1607 ∷ 1589 ∷ 1583 ∷ [], 57 ∷ 48 ∷ 48 ∷ [])
    ∷ (1607 ∷ 1588 ∷ 1578 ∷ 1589 ∷ 1583 ∷ [], 56 ∷ 48 ∷ 48 ∷ [])
    ∷ (1607 ∷ 1601 ∷ 1578 ∷ 1589 ∷ 1583 ∷ [], 55 ∷ 48 ∷ 48 ∷ [])
    ∷ (1588 ∷ 1588 ∷ 1589 ∷ 1583 ∷ [], 54 ∷ 48 ∷ 48 ∷ [])
    ∷ (1662 ∷ 1575 ∷ 1606 ∷ 1589 ∷ 1583 ∷ [], 53 ∷ 48 ∷ 48 ∷ [])
    ∷ (1670 ∷ 1607 ∷ 1575 ∷ 1585 ∷ 1589 ∷ 1583 ∷ [], 52 ∷ 48 ∷ 48 ∷ [])
    ∷ (1587 ∷ 1740 ∷ 1589 ∷ 1583 ∷ [], 51 ∷ 48 ∷ 48 ∷ [])
    ∷ (1583 ∷ 1608 ∷ 1740 ∷ 1587 ∷ 1578 ∷ [], 50 ∷ 48 ∷ 48 ∷ [])
    ∷ (1606 ∷ 1608 ∷ 1586 ∷ 1583 ∷ 1607 ∷ [], 49 ∷ 57 ∷ [])
    ∷ (1607 ∷ 1580 ∷ 1583 ∷ 1607 ∷ [], 49 ∷ 56 ∷ [])
    ∷ (1607 ∷ 1601 ∷ 1583 ∷ 1607 ∷ [], 49 ∷ 55 ∷ [])
    ∷ (1588 ∷ 1575 ∷ 1606 ∷ 1586 ∷ 1583 ∷ 1607 ∷ [], 49 ∷ 54 ∷ [])
    ∷ (1662 ∷ 1575 ∷ 1606 ∷ 1586 ∷ 1583 ∷ 1607 ∷ [], 49 ∷ 53 ∷ [])
    ∷ (1670 ∷ 1607 ∷ 1575 ∷ 1585 ∷ 1583 ∷ 1607 ∷ [], 49 ∷ 52 ∷ [])
    ∷ (1587 ∷ 1740 ∷ 1586 ∷ 1583 ∷ 1607 ∷ [], 49 ∷ 51 ∷ [])
    ∷ (1583 ∷ 1608 ∷ 1575 ∷ 1586 ∷ 1583 ∷ 1607 ∷ [], 49 ∷ 50 ∷ [])
    ∷ (1740 ∷ 1575 ∷ 1586 ∷ 1583 ∷ 1607 ∷ [], 49 ∷ 49 ∷ [])
    ∷ (1606 ∷ 1608 ∷ 1583 ∷ [], 57 ∷ 48 ∷ [])
    ∷ (1607 ∷ 1588 ∷ 1578 ∷ 1575 ∷ 1583 ∷ [], 56 ∷ 48 ∷ [])
    ∷ (1607 ∷ 1601 ∷ 1578 ∷ 1575 ∷ 1583 ∷ [], 55 ∷ 48 ∷ [])
    ∷ (1588 ∷ 1589 ∷ 1578 ∷ [], 54 ∷ 48 ∷ [])
    ∷ (1662 ∷ 1606 ∷ 1580 ∷ 1575 ∷ 1607 ∷ [], 53 ∷ 48 ∷ [])
    ∷ (1670 ∷ 1607 ∷ 1604 ∷ [], 52 ∷ 48 ∷ [])
    ∷ (1587 ∷ 1740 ∷ [], 51 ∷ 48 ∷ [])
    ∷ (1576 ∷ 1740 ∷ 1587 ∷ 1578 ∷ [], 50 ∷ 48 ∷ [])
    ∷ (1583 ∷ 1607 ∷ [], 49 ∷ 48 ∷ [])
    ∷ (1589 ∷ 1583 ∷ [], 49 ∷ 48 ∷ 48 ∷ [])
    ∷ (1606 ∷ 1607 ∷ [], 57 ∷ [])
    ∷ (1607 ∷ 1588 ∷ 1578 ∷ [], 56 ∷ [])
    ∷ (1607 ∷ 1601 ∷ 1578 ∷ [], 55 ∷ [])
    ∷ (1588 ∷ 1588 ∷ [], 54 ∷ [])
    ∷ (1662 ∷ 1606 ∷ 1580 ∷ [], 53 ∷ [])
    ∷ (1670 ∷ 1607 ∷ 1575 ∷ 1585 ∷ [], 52 ∷ [])
    ∷ (1587 ∷ 1607 ∷ [], 51 ∷ [])
    ∷ (1583 ∷ 1608 ∷ [], 50 ∷ [])
    ∷ (1740 ∷ 1705 ∷ [], 49 ∷ [])
    ∷ (1589 ∷ 1601 ∷ 1585 ∷ [], 48 ∷ [])
    ∷ []

unfoldable pub replace_words : List (List ℕ × List ℕ) → List ℕ → List ℕ
unfolding replace_word
replace_words [] text = text
replace_words (entry ∷ entries) text = replace_words entries (replace_word entry.0 entry.1 0 text)

-- Separators alone stand before the next digit.
unfoldable pub gap_ends : List ℕ → Bool
unfolding is_separator
gap_ends [] = false
gap_ends (c ∷ cs) = is_digit c || (is_separator c && gap_ends cs)

-- A separator between two digits; `after` says that a digit stood before the separators.
unfoldable pub is_gap : Bool → ℕ → List ℕ → Bool
unfolding is_separator gap_ends
is_gap after c cs = is_separator c && after && gap_ends cs

-- Separators between two digits are removed.
unfoldable pub collapse : Bool → List ℕ → List ℕ
unfolding is_gap
collapse after [] = []
collapse after (c ∷ cs) =
    let rest = collapse (if is_gap after c cs then true else is_digit c) cs in
    if is_gap after c cs then rest else c ∷ rest

-- The marks dropped and the digits of both scripts folded.
unfoldable pub folded : List ℕ → List ℕ
unfolding find_many fold_digits is_invisible
folded text = fold_digits 1632 (fold_digits 1776 (find_many (λ c. not (is_invisible c)) text))

unfoldable pub normalise : List ℕ → List ℕ
unfolding folded replace_words spoken collapse
normalise text = collapse false (replace_words spoken (folded text))

-- The digits at the front of a text.
unfoldable pub leading : List ℕ → List ℕ
leading [] = []
leading (c ∷ cs) = if is_digit c then c ∷ leading cs else []

unfoldable pub all_zeros : List ℕ → Bool
all_zeros [] = true
all_zeros (c ∷ cs) = c == 48 && all_zeros cs

-- `/0{4,}$/`
unfoldable pub is_round : List ℕ → Bool
unfolding all_zeros
is_round [] = false
is_round (c ∷ cs) = (all_zeros (c ∷ cs) && leb 3 (length cs)) || is_round cs

-- A place in the text that no digit comes before, where the digits pass the test; `before` says that a
-- digit comes before the first.
unfoldable pub some_run : (List ℕ → Bool) → Bool → List ℕ → Bool
unfolding leading
some_run test before [] = false
some_run test before (c ∷ cs) =
    (not before && test (leading (c ∷ cs))) || some_run test (is_digit c) cs

-- `PHONE_LEADING_ZERO`, `PHONE_COUNTRY_CODE` and `PHONE_NOT_ROUND` on the digits at a place.
unfoldable pub leading_zero : List ℕ → Bool
unfolding starts_with
leading_zero run = starts_with (48 ∷ []) run && leb 10 (length run)

unfoldable pub country_code : List ℕ → Bool
unfolding starts_with
country_code run = starts_with (57 ∷ 56 ∷ []) run && leb 11 (length run)

unfoldable pub not_round : List ℕ → Bool
unfolding is_round
not_round run = leb 10 (length run) && not (is_round run)

unfoldable pub looks_like_phone : List ℕ → Bool
unfolding some_run leading_zero country_code not_round
looks_like_phone clean =
    some_run leading_zero false clean
    || some_run country_code false clean
    || some_run not_round false clean
