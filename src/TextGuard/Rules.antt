-- ===== src/TextGuard/Rules.antt =====
-- The rules of backend/src/utils/textGuard.js and what they do with the fields of a form: `HANDLE`, `LINK`,
-- `MESSENGER`, `LONG_DIGITS`, `inspect` and `assertClean`. The upper case of a text is an argument.
use havale_khodro.Prelude.{
  find_many, ℕ, leb, ◌==◌, if◌then◌else◌, Bool, true, false, not, ◌&&◌, ◌||◌, List, [], ◌∷◌, ◌++◌,
  length, Option, none, some, ◌+◌,
}
use havale_khodro.TextGuard.{
  within, is_digit, is_space, starts_with, normalise, looks_like_phone, some_run,
}

pub data Finding : Type 0 where
  phone handle link messenger digits agency_code agency_name agency_word : Finding

-- A place in the text where the test holds; it is given the character before, 0 at the start.
unfoldable pub some_place : (ℕ → List ℕ → Bool) → ℕ → List ℕ → Bool
some_place test before [] = false
some_place test before (c ∷ cs) = test before (c ∷ cs) || some_place test c cs

abbrev pub is_word_char : ℕ → Bool
is_word_char c = within 65 90 c || within 97 122 c || is_digit c || c == 95

-- How many characters at the front pass, and what follows them.
unfoldable pub front : (ℕ → Bool) → List ℕ → ℕ × List ℕ
front p [] = (0, [])
front p (c ∷ cs) = let (n, rest) = front p cs in if p c then (n + 1, rest) else (0, c ∷ cs)

unfoldable pub handle_at : ℕ → List ℕ → Bool
unfolding front
handle_at before [] = false
handle_at before (c ∷ cs) = c == 64 && leb 4 (front is_word_char cs).0

abbrev pub lower : ℕ → ℕ
lower c = if within 65 90 c then c + 32 else c

-- What follows a prefix in either case.
unfoldable pub after_prefix : List ℕ → List ℕ → Option (List ℕ)
after_prefix [] text = some text
after_prefix (w ∷ ws) [] = none
after_prefix (w ∷ ws) (c ∷ cs) =
    let rest = after_prefix ws cs in if w == lower c then rest else none

abbrev pub goes_on : Option (List ℕ) → Bool
goes_on none = false
goes_on (some []) = false
goes_on (some (c ∷ cs)) = not (is_space c)

abbrev pub ends_word : Option (List ℕ) → Bool
ends_word none = false
ends_word (some []) = true
ends_word (some (c ∷ cs)) = not (is_word_char c)

unfoldable pub domain_end : List ℕ → Bool
unfolding after_prefix
domain_end text =
    ends_word (after_prefix (46 ∷ 105 ∷ 114 ∷ []) text)
    || ends_word (after_prefix (46 ∷ 99 ∷ 111 ∷ 109 ∷ []) text)
    || ends_word (after_prefix (46 ∷ 110 ∷ 101 ∷ 116 ∷ []) text)
    || ends_word (after_prefix (46 ∷ 111 ∷ 114 ∷ 103 ∷ []) text)
    || ends_word (after_prefix (46 ∷ 109 ∷ 101 ∷ []) text)
    || ends_word (after_prefix (46 ∷ 99 ∷ 111 ∷ []) text)

abbrev pub is_host_char : ℕ → Bool
is_host_char c = within 65 90 c || within 97 122 c || is_digit c || c == 45

-- A link, or a bare domain that begins at the edge of a word.
unfoldable pub link_at : ℕ → List ℕ → Bool
unfolding after_prefix front domain_end is_space
link_at before [] = false
link_at before (c ∷ cs) =
    goes_on (after_prefix (104 ∷ 116 ∷ 116 ∷ 112 ∷ 58 ∷ 47 ∷ 47 ∷ []) (c ∷ cs))
    || goes_on (after_prefix (104 ∷ 116 ∷ 116 ∷ 112 ∷ 115 ∷ 58 ∷ 47 ∷ 47 ∷ []) (c ∷ cs))
    || goes_on (after_prefix (119 ∷ 119 ∷ 119 ∷ 46 ∷ []) (c ∷ cs))
    || (not (is_word_char before) && is_word_char c || is_word_char before && not (is_word_char c))
      && leb 3 (front is_host_char (c ∷ cs)).0
      && domain_end (front is_host_char (c ∷ cs)).1

abbrev pub found_at : Option (List ℕ) → Bool
found_at none = false
found_at (some rest) = true

-- One word, any spaces, and another.
unfoldable pub spaced_words : List ℕ → List ℕ → List ℕ → Bool
unfolding after_prefix front is_space
spaced_words first second text = elim (after_prefix first text) [
  | none ↦ false
  | some rest ↦ found_at (after_prefix second (front is_space rest).1)
]

unfoldable pub messenger_at : ℕ → List ℕ → Bool
unfolding after_prefix spaced_words
messenger_at before text =
    spaced_words (1608 ∷ 1575 ∷ 1578 ∷ 1587 ∷ []) (1575 ∷ 1662 ∷ []) text
    || found_at (after_prefix (1578 ∷ 1604 ∷ 1711 ∷ 1585 ∷ 1575 ∷ 1605 ∷ []) text)
    || found_at (after_prefix (119 ∷ 104 ∷ 97 ∷ 116 ∷ 115 ∷ 97 ∷ 112 ∷ 112 ∷ []) text)
    || found_at (after_prefix (116 ∷ 101 ∷ 108 ∷ 101 ∷ 103 ∷ 114 ∷ 97 ∷ 109 ∷ []) text)
    || found_at (after_prefix (1575 ∷ 1740 ∷ 1578 ∷ 1575 ∷ []) text)
    || found_at (after_prefix (1585 ∷ 1608 ∷ 1576 ∷ 1740 ∷ 1705 ∷ 1575 ∷ []) text)
    || found_at (after_prefix (1576 ∷ 1604 ∷ 1607 ∷ []) text)
    || found_at (after_prefix (1587 ∷ 1585 ∷ 1608 ∷ 1588 ∷ []) text)
    || found_at (after_prefix (1575 ∷ 1740 ∷ 1606 ∷ 1587 ∷ 1578 ∷ 1575 ∷ []) text)
    || found_at (after_prefix (105 ∷ 110 ∷ 115 ∷ 116 ∷ 97 ∷ 103 ∷ 114 ∷ 97 ∷ 109 ∷ []) text)
    || found_at (after_prefix (1570 ∷ 1740 ∷ 1583 ∷ 1740 ∷ []) text)
    || found_at (after_prefix (1575 ∷ 1740 ∷ 1583 ∷ 1740 ∷ []) text)

-- The word for agency, in the spellings of its letters.
unfoldable pub agency_word_at : ℕ → List ℕ → Bool
unfolding starts_with
agency_word_at before text =
    starts_with (1606 ∷ 1605 ∷ 1575 ∷ 1740 ∷ 1606 ∷ 1583 ∷ 1711 ∷ 1740 ∷ []) text
    || starts_with (1606 ∷ 1605 ∷ 1575 ∷ 1740 ∷ 1606 ∷ 1583 ∷ 1711 ∷ 1609 ∷ []) text
    || starts_with (1606 ∷ 1605 ∷ 1575 ∷ 1610 ∷ 1606 ∷ 1583 ∷ 1711 ∷ 1610 ∷ []) text
    || starts_with (1606 ∷ 1605 ∷ 1575 ∷ 1610 ∷ 1606 ∷ 1583 ∷ 1711 ∷ 1740 ∷ []) text

unfoldable pub includes : List ℕ → List ℕ → Bool
unfolding starts_with some_place
includes part text = starts_with part text || some_place (λ b rest. starts_with part rest) 0 text

unfoldable pub long_digits : List ℕ → Bool
long_digits run = leb 8 (length run)

unfoldable pub trim_start : List ℕ → List ℕ
unfolding front is_space
trim_start text = (front is_space text).1

abbrev pub all_space : List ℕ → Bool
all_space [] = true
all_space (c ∷ cs) = is_space c && all_space cs

unfoldable pub trim_end : List ℕ → List ℕ
unfolding is_space
trim_end [] = []
trim_end (c ∷ cs) = let rest = trim_end cs in if all_space (c ∷ cs) then [] else c ∷ rest

-- The account that writes: its code and its name, where it has them, and the upper case of a text.
pub record Writer : Type 0 where
  pub code : Option (List ℕ)
  pub name : Option (List ℕ)
  pub upper : List ℕ → List ℕ

abbrev pub flag : Bool → Finding → List Finding
flag b kind = if b then kind ∷ [] else []

abbrev pub code_found : Writer → Option (List ℕ) → List ℕ → Bool
code_found w none clean = false
code_found w (some []) clean = false
code_found w (some (c ∷ cs)) clean = includes (w.upper (c ∷ cs)) (w.upper clean)

abbrev pub min_name : ℕ
min_name = 5

unfoldable pub name_found : Option (List ℕ) → List ℕ → Bool
unfolding trim_start trim_end includes
name_found none clean = false
name_found (some name) clean =
    let trimmed = trim_end (trim_start name) in
    leb min_name (length trimmed) && includes trimmed clean

-- The rules that refuse a text.
unfoldable pub hard_findings : Writer → Bool → List ℕ → List Finding
unfolding looks_like_phone some_place handle_at link_at includes name_found agency_word_at
hard_findings w strict clean =
    flag (looks_like_phone clean) Finding.phone
    ++ flag (some_place handle_at 0 clean) Finding.handle
    ++ flag (some_place link_at 0 clean) Finding.link
    ++ flag (code_found w w.code clean) Finding.agency_code
    ++ flag (name_found w.name clean) Finding.agency_name
    ++ flag (strict && some_place agency_word_at 0 clean) Finding.agency_word

-- The rules that only mark it.
unfoldable pub soft_findings : List ℕ → List Finding
unfolding some_place messenger_at some_run long_digits
soft_findings clean =
    flag (some_place messenger_at 0 clean) Finding.messenger
    ++ flag (some_run long_digits false clean) Finding.digits

-- `inspect`: what refuses the text, and what marks it.
unfoldable pub inspect : Writer → Bool → List ℕ → List Finding × List Finding
unfolding normalise hard_findings soft_findings
inspect w strict text = (hard_findings w strict (normalise text), soft_findings (normalise text))

pub record Field : Type 0 where
  pub label : ℕ
  pub text : List ℕ
  pub strict : Bool

-- The first field that is refused, with what was found in it; or the marks of all.
pub data Verdict : Type 0 where
  refused : ℕ → List Finding → Verdict
  clean : List Finding → Verdict

abbrev pub with_marks : List Finding → Verdict → Verdict
with_marks marks (refused label kinds) = refused label kinds
with_marks marks (clean more) = clean (marks ++ more)

-- The loop of `assertClean`.
unfoldable pub check_fields : Writer → List Field → Verdict
unfolding inspect
check_fields w [] = clean []
check_fields w (f ∷ fs) =
    let rest = check_fields w fs in
    elim f.text [
      | [] ↦ rest
      | c ∷ cs ↦ elim (inspect w f.strict f.text).0 [
        | [] ↦ with_marks (inspect w f.strict f.text).1 rest
        | kind ∷ kinds ↦ refused f.label (kind ∷ kinds)
      ]
    ]

abbrev pub finding_index : Finding → ℕ
finding_index Finding.phone = 0
finding_index Finding.handle = 1
finding_index Finding.link = 2
finding_index Finding.messenger = 3
finding_index Finding.digits = 4
finding_index Finding.agency_code = 5
finding_index Finding.agency_name = 6
finding_index Finding.agency_word = 7

-- `[...new Set(soft)]`
unfoldable pub without_repeats : List Finding → List Finding
unfolding find_many
without_repeats [] = []
without_repeats (kind ∷ kinds) =
    kind ∷ find_many (λ k. not (finding_index k == finding_index kind)) (without_repeats kinds)

abbrev pub marked_once : Verdict → Verdict
marked_once (refused label kinds) = refused label kinds
marked_once (clean marks) = clean (without_repeats marks)

unfoldable pub assert_clean : Writer → List Field → Verdict
unfolding check_fields without_repeats
assert_clean w fields = marked_once (check_fields w fields)
