-- ===== src/TextGuard/Refusals.antt =====
-- What `assertClean` of backend/src/utils/textGuard.js lets pass.
use havale_khodro.TextGuard.{normalise, looks_like_phone}
use havale_khodro.TextGuard.Rules.{
  Field, Writer, Verdict, refused, clean, assert_clean, check_fields, marked_once, with_marks,
  inspect, hard_findings, some_place, handle_at, link_at, Finding,
}
use havale_khodro.Prelude.{
  All, ℕ, ◌≡◌, refl, Bool, true, false, List, [], ◌∷◌, arith, ◌⊎◌, inl, inr, ◌++◌, All-middle,
}
use havale_khodro.TextGuard.Marks.{is_bound, is_writing, is_closing}
use havale_khodro.TextGuard.Detection.{is_phone, digits_of, looks_like_phone-normalise}

-- A text without a telephone number, a handle or a link.
pub record IsClean (text : List ℕ) : Type 0 where
  pub no_phone : looks_like_phone (normalise text) ≡ false
  pub no_handle : some_place handle_at 0 (normalise text) ≡ false
  pub no_link : some_place link_at 0 (normalise text) ≡ false

abbrev is_passed : Verdict → Bool
is_passed (refused label kinds) = false
is_passed (clean marks) = true

passed-with_marks :
    (marks : List Finding) (v : Verdict) → is_passed (with_marks marks v) ≡ is_passed v
passed-with_marks marks (refused label kinds) = refl
passed-with_marks marks (clean more) = refl

passed-marked_once : (v : Verdict) → is_passed (marked_once v) ≡ is_passed v
passed-marked_once (refused label kinds) = refl
passed-marked_once (clean marks) = refl

empty-IsClean : IsClean []
unfolding normalise looks_like_phone some_place
empty-IsClean = record { no_phone = refl; no_handle = refl; no_link = refl }

no_findings-IsClean :
    (w : Writer) (strict : Bool) (text : List ℕ)
    → hard_findings w strict (normalise text) ≡ []
    → IsClean text
unfolding hard_findings
no_findings-IsClean w strict text h = record {
  no_phone = ground arith;
  no_handle = ground arith;
  no_link = ground arith;
}

list_cases {ℓ} : {A : Type ℓ} (xs : List A) → (xs ≡ []) ⊎ ((x : A) × (ys : List A) × (xs ≡ x ∷ ys))
list_cases [] = inl refl
list_cases (x ∷ xs) = inr (x, xs, refl)

-- The first field of a form that passes.
first-IsClean :
    (w : Writer) (f : Field) (fs : List Field)
    → is_passed (check_fields w (f ∷ fs)) ≡ true
    → IsClean f.text × (is_passed (check_fields w fs) ≡ true)
unfolding check_fields inspect
first-IsClean w f fs h = elim (list_cases f.text) [
  | inl e ↦ (rw e empty-IsClean, rw e at h)
  | inr (c, cs, e) ↦ elim (list_cases (hard_findings w f.strict (normalise f.text))) [
    | inl g ↦ (
      no_findings-IsClean w f.strict f.text g,
      ground (arith, e, g, h, passed-with_marks (inspect w f.strict f.text).1 (check_fields w fs)),
    )
    | inr (k, ks, g) ↦ absurd (ground (arith, e, g, h))
  ]
]

check_fields-IsClean :
    (w : Writer) (fields : List Field)
    → is_passed (check_fields w fields) ≡ true
    → All (λ f. IsClean f.text) fields
check_fields-IsClean w [] h = tt
check_fields-IsClean w (f ∷ fs) h =
    let (first, others) = first-IsClean w f fs h in (first, check_fields-IsClean w fs others)

-- When a form is let pass, none of its fields, whichever the account, has a telephone number, a handle or
-- a link in its text as the guard reads it.
pub assert_clean-IsClean :
    (w : Writer) (fields : List Field) (marks : List Finding)
    → assert_clean w fields ≡ clean marks
    → All (λ f. IsClean f.text) fields
unfolding assert_clean
assert_clean-IsClean w fields marks h =
    let whole : is_passed (assert_clean w fields) ≡ true = rw h refl in
    check_fields-IsClean w fields (rw (← passed-marked_once (check_fields w fields)) whole)

-- When a form is let pass, a number in a field of it that is written in Latin, Persian or Arabic digits,
-- with the separators and the invisible marks that the guard knows anywhere in it, and stands between a
-- character such as a colon and another or the end of the text, has not the digits of a telephone
-- number: it has fewer than ten, or it begins with no zero and no 98 before nine more, and ends with
-- four zeros.
pub assert_clean-number :
    (w : Writer) (earlier : List Field) (f : Field) (later : List Field) (marks : List Finding)
    → assert_clean w (earlier ++ f ∷ later) ≡ clean marks
    → (before : List ℕ) (b : ℕ) (number rest : List ℕ) → is_bound b ≡ true
    → All (λ c. is_writing c ≡ true) number
    → is_closing rest ≡ true
    → f.text ≡ before ++ b ∷ (number ++ rest)
    → is_phone (digits_of number) ≡ false
assert_clean-number w earlier f later marks h before b number rest bound writing closing e =
    let found = (looks_like_phone-normalise before b number rest bound writing closing).1 in
    let all = assert_clean-IsClean w (earlier ++ f ∷ later) marks h in
    let none = (All-middle (λ f. IsClean f.text) earlier f later all).no_phone in
    ground (arith, found, rw e at none)
