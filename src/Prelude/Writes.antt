-- ===== src/Prelude/Writes.antt =====
-- How writes and filters act on a search and on a count, where they are for other rows or for the rows
-- searched for.
use Prim.Native.Nat.{◌+◌, ◌≤◌}
use mathlib.Core.Path.{◌≡◌, refl}
use mathlib.Core.Logic.{inl, inr}
use mathlib.Core.Bool.{Bool, true, false}
use mathlib.Core.Option.{none, some}
use mathlib.Core.List.{List, [], ◌∷◌, ◌++◌}
use native.Mathlib.Omega.{arith}
use havale_khodro.Prelude.Tests.{if◌then◌else◌, Bool-cases}
use havale_khodro.Prelude.Rows.{
  find_first, find_many, count_where, update_where, find_first-count_where, length,
}

pub count_where-find_many {ℓ} :
    {A : Type ℓ} (p q : A → Bool) (xs : List A) → count_where p (find_many q xs) ≤ count_where p xs
unfolding count_where find_many
count_where-find_many p q [] = omega arith
count_where-find_many p q (x ∷ xs) = ground (arith, count_where-find_many p q xs)

pub find_first-find_many {ℓ} :
    {A : Type ℓ} (p q : A → Bool) (xs : List A)
    → count_where p xs ≤ 1
    → find_first p (find_many q xs)
      ≡ elim (find_first p xs) [ none ↦ none | some x ↦ if q x then some x else none ]
unfolding count_where find_many find_first
find_first-find_many p q [] h = refl
find_first-find_many p q (x ∷ xs) h = ground (
  arith,
  find_first-find_many p q xs,
  find_first-count_where p xs,
  find_first-count_where p (find_many q xs),
  count_where-find_many p q xs,
)

module _ {ℓ} {A : Type ℓ} (p : A → Bool) (f : A → A) where
  -- A write elsewhere.
  pub find_count_elsewhere :
      (q : A → Bool) (xs : List A)
      → ((x : A) → p x ≡ true → (q x ≡ false) × (q (f x) ≡ false))
      → (find_first q (update_where p f xs) ≡ find_first q xs)
        × (count_where q (update_where p f xs) ≡ count_where q xs)
  unfolding find_first count_where update_where
  find_count_elsewhere q [] h = (refl, refl)
  find_count_elsewhere q (x ∷ xs) h = elim (Bool-cases (p x)) [
    | inl e ↦ ground (arith, h x e, find_count_elsewhere q xs h)
    | inr e ↦ ground (arith, find_count_elsewhere q xs h)
  ]

  -- A write in place.
  pub find_count_in_place :
      (xs : List A)
      → ((x : A) → p x ≡ true → p (f x) ≡ true)
      → (find_first p (update_where p f xs)
          ≡ elim (find_first p xs) [ none ↦ none | some x ↦ some (f x) ])
        × (count_where p (update_where p f xs) ≡ count_where p xs)
  unfolding find_first count_where update_where
  find_count_in_place [] h = (refl, refl)
  find_count_in_place (x ∷ xs) h = elim (Bool-cases (p x)) [
    | inl e ↦ ground (arith, h x e, find_count_in_place xs h)
    | inr e ↦ ground (arith, find_count_in_place xs h)
  ]

pub find_none_count {ℓ} :
    {A : Type ℓ} (p : A → Bool) (xs : List A) → find_first p xs ≡ none → count_where p xs ≡ 0
unfolding find_first count_where
find_none_count p [] h = refl
find_none_count p (x ∷ xs) h = ground (arith, find_none_count p xs)

pub find_many-append {ℓ} :
    {A : Type ℓ} (p : A → Bool) (xs : List A) (x : A)
    → p x ≡ false
    → find_many p (xs ++ x ∷ []) ≡ find_many p xs
unfolding find_many
find_many-append p [] x h = ground arith
find_many-append p (y ∷ ys) x h = ground (arith, find_many-append p ys x h)

pub find_many_found {ℓ} :
    {A : Type ℓ} (p q : A → Bool) (xs : List A) (x : A)
    → find_first p xs ≡ some x
    → q x ≡ true
    → find_first p (find_many q xs) ≡ some x
unfolding find_first find_many
find_many_found p q [] x e h = e
find_many_found p q (y ∷ ys) x e h = elim (Bool-cases (p y)) [
  | inl hit ↦ ground arith
  | inr miss ↦ ground (arith, find_many_found p q ys x)
]

pub find_many-append-hit {ℓ} :
    {A : Type ℓ} (p : A → Bool) (xs : List A) (x : A)
    → p x ≡ true
    → find_many p (xs ++ x ∷ []) ≡ find_many p xs ++ x ∷ []
unfolding find_many
find_many-append-hit p [] x h = ground arith
find_many-append-hit p (y ∷ ys) x h = ground (arith, find_many-append-hit p ys x h)

-- A filter that keeps every row of the search, and one that keeps none.
pub find_count_kept {ℓ} :
    {A : Type ℓ} (q r : A → Bool) (xs : List A)
    → ((x : A) → q x ≡ true → r x ≡ true)
    → (find_first q (find_many r xs) ≡ find_first q xs)
      × (count_where q (find_many r xs) ≡ count_where q xs)
unfolding find_first count_where find_many
find_count_kept q r [] h = (refl, refl)
find_count_kept q r (x ∷ xs) h = elim (Bool-cases (q x)) [
  | inl e ↦ ground (arith, h x e, find_count_kept q r xs h)
  | inr e ↦ ground (arith, find_count_kept q r xs h)
]

pub find_count_dropped {ℓ} :
    {A : Type ℓ} (q r : A → Bool) (xs : List A)
    → ((x : A) → q x ≡ true → r x ≡ false)
    → (find_first q (find_many r xs) ≡ none) × (count_where q (find_many r xs) ≡ 0)
unfolding find_first count_where find_many
find_count_dropped q r [] h = (refl, refl)
find_count_dropped q r (x ∷ xs) h = elim (Bool-cases (q x)) [
  | inl e ↦ ground (arith, h x e, find_count_dropped q r xs h)
  | inr e ↦ ground (arith, find_count_dropped q r xs h)
]

pub length-append {ℓ} : {A : Type ℓ} (xs : List A) (x : A) → length (xs ++ x ∷ []) ≡ length xs + 1
length-append [] x = refl
length-append (y ∷ xs) x = omega (arith, length-append xs x)

pub length-update_where {ℓ} :
    {A : Type ℓ} (p : A → Bool) (f : A → A) (xs : List A) → length (update_where p f xs) ≡ length xs
unfolding update_where
length-update_where p f [] = refl
length-update_where p f (x ∷ xs) = omega (arith, length-update_where p f xs)

pub length-find_many {ℓ} :
    {A : Type ℓ} (p : A → Bool) (xs : List A) → length (find_many p xs) ≡ count_where p xs
unfolding find_many count_where
length-find_many p [] = refl
length-find_many p (x ∷ xs) = ground (arith, length-find_many p xs)

pub count_where-length {ℓ} :
    {A : Type ℓ} (p : A → Bool) (xs : List A) → count_where p xs ≤ length xs
unfolding count_where
count_where-length p [] = omega arith
count_where-length p (x ∷ xs) = ground (arith, count_where-length p xs)

pub count_where-snoc {ℓ} :
    {A : Type ℓ} (p : A → Bool) (xs : List A) (x : A)
    → count_where p (xs ++ x ∷ []) ≡ count_where p xs + (if p x then 1 else 0)
unfolding count_where
count_where-snoc p [] x = omega arith
count_where-snoc p (y ∷ ys) x = omega (arith, count_where-snoc p ys x)
