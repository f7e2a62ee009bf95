-- ===== src/TextGuard/Runs.antt =====
-- The separators that `normalise` of backend/src/utils/textGuard.js removes, and the digits at a place.
use havale_khodro.TextGuard.{collapse, gap_ends, leading, some_run, is_digit, is_separator, is_gap}
use havale_khodro.TextGuard.Marks.{is_plain, separator_apart}
use havale_khodro.Prelude.{
  Bool-cases, find_many, All, ℕ, ◌≡◌, refl, ap, inl, inr, Bool, true, false, not, ◌&&◌, ◌||◌, List,
  [], ◌∷◌, ◌++◌, arith, sym, ◌∙◌, append_nil,
}

-- A character that is no separator and no digit.
abbrev pub is_wall : ℕ → Bool
is_wall c = not (is_digit c) && not (is_separator c)

abbrev pub is_walled : List ℕ → Bool
is_walled [] = true
is_walled (c ∷ cs) = is_wall c

gap_ends-before :
    (xs : List ℕ) (b : ℕ) (ys : List ℕ) → is_wall b ≡ true → gap_ends (xs ++ b ∷ ys) ≡ gap_ends xs
unfolding gap_ends
gap_ends-before [] b ys h = ground arith
gap_ends-before (x ∷ xs) b ys h = ground (arith, gap_ends-before xs b ys)

is_gap-before :
    (after : Bool) (x : ℕ) (xs : List ℕ) (b : ℕ) (ys : List ℕ)
    → is_wall b ≡ true
    → is_gap after x (xs ++ b ∷ ys) ≡ is_gap after x xs
unfolding is_gap
is_gap-before after x xs b ys h = rw (gap_ends-before xs b ys h) refl

collapse_gap :
    (after : Bool) (x : ℕ) (xs : List ℕ)
    → is_gap after x xs ≡ true
    → collapse after (x ∷ xs) ≡ collapse true xs
unfolding collapse
collapse_gap after x xs h = rw h refl

collapse_kept :
    (after : Bool) (x : ℕ) (xs : List ℕ)
    → is_gap after x xs ≡ false
    → collapse after (x ∷ xs) ≡ x ∷ collapse (is_digit x) xs
unfolding collapse
collapse_kept after x xs h = rw h refl

collapse_nil : (after : Bool) → collapse after [] ≡ []
unfolding collapse
collapse_nil after = refl

wall_kept :
    (after : Bool) (b : ℕ) (ys : List ℕ)
    → is_wall b ≡ true
    → collapse after (b ∷ ys) ≡ b ∷ collapse false ys
unfolding is_gap
wall_kept after b ys h =
    let a : is_gap after b ys ≡ false = ground arith in
    let d : is_digit b ≡ false = ground arith in rw (collapse_kept after b ys a) (rw d refl)

-- A wall parts the text.
pub collapse-before :
    (after : Bool) (xs : List ℕ) (b : ℕ) (ys : List ℕ)
    → is_wall b ≡ true
    → collapse after (xs ++ b ∷ ys) ≡ collapse after xs ++ b ∷ collapse false ys
collapse-before after [] b ys h = rw (collapse_nil after) (wall_kept after b ys h)
collapse-before after (x ∷ xs) b ys h =
    let same = is_gap-before after x xs b ys h in
    elim (Bool-cases (is_gap after x xs)) [
      | inl e ↦
          rw (collapse_gap after x (xs ++ b ∷ ys) (same ∙ e), collapse_gap after x xs e)
            (collapse-before true xs b ys h)
      | inr e ↦
          rw (collapse_kept after x (xs ++ b ∷ ys) (same ∙ e), collapse_kept after x xs e)
            (ap (λ r. x ∷ r) (collapse-before (is_digit x) xs b ys h))
    ]

pub collapse-walled :
    (after : Bool) (xs ys : List ℕ)
    → is_walled ys ≡ true
    → collapse after (xs ++ ys) ≡ collapse after xs ++ collapse false ys
unfolding collapse
collapse-walled after xs [] h = rw (append_nil xs, append_nil (collapse after xs)) refl
collapse-walled after xs (y ∷ ys) h =
    rw (collapse-before after xs y ys h) (rw (wall_kept false y ys h) refl)

-- The digits of a text of digits and separators.
abbrev pub digits_in : List ℕ → List ℕ
digits_in xs = find_many is_digit xs

no_digits :
    (xs : List ℕ) → All (λ c. is_plain c ≡ true) xs → gap_ends xs ≡ false → digits_in xs ≡ []
unfolding gap_ends find_many
no_digits [] h e = refl
no_digits (x ∷ xs) h e = ground (arith, h.0, no_digits xs h.1)

leading-before :
    (xs : List ℕ) (b : ℕ) (ys : List ℕ) → is_wall b ≡ true → leading (xs ++ b ∷ ys) ≡ leading xs
unfolding leading
leading-before [] b ys h = ground arith
leading-before (x ∷ xs) b ys h = ground (arith, leading-before xs b ys h)

-- What becomes of a character of a run of digits and separators.
digit_kept :
    (after : Bool) (x : ℕ) (xs : List ℕ)
    → is_digit x ≡ true
    → collapse after (x ∷ xs) ≡ x ∷ collapse true xs
unfolding is_gap
digit_kept after x xs d = elim (Bool-cases (is_separator x)) [
  | inl s ↦ absurd (ground (arith, separator_apart x s))
  | inr s ↦
      let a : is_gap after x xs ≡ false = rw s refl in rw (collapse_kept after x xs a) (rw d refl)
]

separator_kept :
    (after : Bool) (x : ℕ) (xs : List ℕ)
    → is_digit x ≡ false
    → (after && gap_ends xs) ≡ false
    → collapse after (x ∷ xs) ≡ x ∷ collapse false xs
unfolding is_gap
separator_kept after x xs d g =
    let a : is_gap after x xs ≡ false = ground arith in rw (collapse_kept after x xs a) (rw d refl)

separator_dropped :
    (x : ℕ) (xs : List ℕ)
    → is_plain x ≡ true
    → is_digit x ≡ false
    → gap_ends xs ≡ true
    → collapse true (x ∷ xs) ≡ collapse true xs
unfolding is_gap
separator_dropped x xs h d g = collapse_gap true x xs (ground arith)

-- The digits that a run of digits and separators gives.
leading-collapse :
    (xs ys : List ℕ)
    → All (λ c. is_plain c ≡ true) xs
    → is_walled ys ≡ true
    → leading (collapse true xs ++ ys) ≡ digits_in xs
unfolding leading collapse find_many
leading-collapse [] [] h e = refl
leading-collapse [] (y ∷ ys) h e = ground arith
leading-collapse (x ∷ xs) ys h e = elim (Bool-cases (is_digit x)) [
  | inl d ↦ rw (digit_kept true x xs d, d) (ap (λ r. x ∷ r) (leading-collapse xs ys h.1 e))
  | inr d ↦ elim (Bool-cases (gap_ends xs)) [
    | inl g ↦ rw (separator_dropped x xs h.0 d g, d) (leading-collapse xs ys h.1 e)
    | inr g ↦ rw (separator_kept true x xs d g, d) (sym (no_digits xs h.1 g))
  ]
]

module _ (test : List ℕ → Bool) (none_passes : test [] ≡ false) where
  some_run-wall :
      (before : Bool) (ys : List ℕ)
      → is_walled ys ≡ true
      → some_run test before ys ≡ some_run test false ys
  unfolding some_run leading
  some_run-wall before [] h = refl
  some_run-wall before (y ∷ ys) h = ground (arith, none_passes)

  pub some_run-before :
      (before : Bool) (xs : List ℕ) (b : ℕ) (ys : List ℕ)
      → is_wall b ≡ true
      → some_run test before (xs ++ b ∷ ys) ≡ (some_run test before xs || some_run test false ys)
  unfolding some_run leading
  some_run-before before [] b ys h = ground (arith, none_passes)
  some_run-before before (x ∷ xs) b ys h =
      ground (arith, leading-before (x ∷ xs) b ys h, some_run-before (is_digit x) xs b ys h)

  -- What a run of digits and separators passes, after a digit and at a place of its own.
  pub some_run-collapse :
      (xs ys : List ℕ)
      → All (λ c. is_plain c ≡ true) xs
      → is_walled ys ≡ true
      → (some_run test true (collapse true xs ++ ys) ≡ some_run test false ys)
        × (some_run test false (collapse false xs ++ ys)
            ≡ (test (digits_in xs) || some_run test false ys))
  unfolding some_run leading find_many
  some_run-collapse [] ys h e =
      rw (collapse_nil true, collapse_nil false) (some_run-wall true ys e, rw none_passes refl)
  some_run-collapse (x ∷ xs) ys h e =
      let (inside, outside) = some_run-collapse xs ys h.1 e in
      elim (Bool-cases (is_digit x)) [
        | inl d ↦ (
          rw (digit_kept true x xs d, d) inside,
          rw (digit_kept false x xs d, d) (rw (leading-collapse xs ys h.1 e, inside) refl),
        )
        | inr d ↦ (
          elim (Bool-cases (gap_ends xs)) [
            | inl g ↦ rw (separator_dropped x xs h.0 d g) inside
            | inr g ↦
                rw (separator_kept true x xs d g, d)
                  (rw (no_digits xs h.1 g, none_passes) at outside)
          ],
          rw (separator_kept false x xs d refl, d) (ground (arith, none_passes, outside)),
        )
      ]
