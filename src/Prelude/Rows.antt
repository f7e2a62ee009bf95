-- ===== src/Prelude/Rows.antt =====
-- Tables as lists of rows: what the queries `findFirst`, `count` and `updateMany` do, and how
-- they act on one another. A filter is a Boolean test on the row.
use Prim.Native.Nat.{ℕ, suc, ◌+◌, ◌≤◌}
use mathlib.Core.Path.{◌≡◌, refl}
use mathlib.Core.Logic.{inl, inr}
use mathlib.Core.Bool.{Bool, true}
use mathlib.Core.Option.{Option, none, some}
use mathlib.Core.List.{List, [], ◌∷◌, ◌++◌}
use native.Mathlib.Omega.{arith}
use havale_khodro.Prelude.Tests.{if◌then◌else◌, Bool-cases}

module _ {ℓ} {A : Type ℓ} where
  abbrev pub length : List A → ℕ
  length [] = 0
  length (x ∷ xs) = suc (length xs)

  unfoldable pub find_first : (A → Bool) → List A → Option A
  find_first p [] = none
  find_first p (x ∷ xs) = if p x then some x else find_first p xs

  unfoldable pub find_many : (A → Bool) → List A → List A
  find_many p [] = []
  find_many p (x ∷ xs) = let rest = find_many p xs in if p x then x ∷ rest else rest

  unfoldable pub count_where : (A → Bool) → List A → ℕ
  count_where p [] = 0
  count_where p (x ∷ xs) = (if p x then 1 else 0) + count_where p xs

  unfoldable pub update_where : (A → Bool) → (A → A) → List A → List A
  update_where p f [] = []
  update_where p f (x ∷ xs) = (if p x then f x else x) ∷ update_where p f xs

  -- Every row passes the test or satisfies the predicate.
  abbrev pub All {κ} : (A → Type κ) → List A → Type κ
  All P [] = Unit
  All P (x ∷ xs) = P x × All P xs

  -- A row that is found passes the test.
  pub find_first_holds :
      (p : A → Bool) (xs : List A) {x : A} → find_first p xs ≡ some x → p x ≡ true
  unfolding find_first
  find_first_holds p [] h = ground arith
  find_first_holds p (y ∷ xs) h = elim (Bool-cases (p y)) [
    | inl e ↦ ground arith
    | inr e ↦ find_first_holds p xs (ground arith)
  ]

  pub count_where-append :
      (p : A → Bool) (xs ys : List A)
      → count_where p (xs ++ ys) ≡ count_where p xs + count_where p ys
  unfolding count_where
  count_where-append p [] ys = omega arith
  count_where-append p (x ∷ xs) ys = omega (arith, count_where-append p xs ys)

  -- An update that leaves the test alone leaves the count alone.
  pub count_where-update_where :
      (q p : A → Bool) (f : A → A) (xs : List A)
      → ((x : A) → q (f x) ≡ q x)
      → count_where q (update_where p f xs) ≡ count_where q xs
  unfolding count_where update_where
  count_where-update_where q p f [] h = refl
  count_where-update_where q p f (x ∷ xs) h =
      ground (arith, h x, count_where-update_where q p f xs h)

  -- An update of rows that the search does not tell apart changes the row that is found.
  pub find_first-update_where :
      (q p : A → Bool) (f : A → A) (xs : List A)
      → ((x : A) → q (f x) ≡ q x)
      → find_first q (update_where p f xs)
        ≡ elim (find_first q xs) [ none ↦ none | some x ↦ some (if p x then f x else x) ]
  unfolding find_first update_where
  find_first-update_where q p f [] h = refl
  find_first-update_where q p f (x ∷ xs) h = ground (arith, h x, find_first-update_where q p f xs h)

  pub find_first-append :
      (p : A → Bool) (xs ys : List A)
      → find_first p (xs ++ ys)
        ≡ elim (find_first p xs) [ none ↦ find_first p ys | some x ↦ some x ]
  unfolding find_first
  find_first-append p [] ys = refl
  find_first-append p (x ∷ xs) ys = ground (arith, find_first-append p xs ys)

  pub find_first-count_where :
      (p : A → Bool) (xs : List A) → count_where p xs ≡ 0 → find_first p xs ≡ none
  unfolding find_first count_where
  find_first-count_where p [] h = refl
  find_first-count_where p (x ∷ xs) h = ground (arith, find_first-count_where p xs)

  pub update_where-none :
      (p : A → Bool) (f : A → A) (xs : List A) → count_where p xs ≡ 0 → update_where p f xs ≡ xs
  unfolding count_where update_where
  update_where-none p f [] h = refl
  update_where-none p f (x ∷ xs) h = ground (arith, update_where-none p f xs)

  -- Where one row at most passes the test, an update changes a count by that row.
  pub count_where-update_one :
      (q p : A → Bool) (f : A → A) (xs : List A) (x : A)
      → find_first p xs ≡ some x
      → count_where p xs ≤ 1
      → count_where q (update_where p f xs) + (if q x then 1 else 0)
        ≡ count_where q xs + (if q (f x) then 1 else 0)
  unfolding count_where update_where find_first
  count_where-update_one q p f [] x e h = ground arith
  count_where-update_one q p f (y ∷ ys) x e h = elim (Bool-cases (p y)) [
    | inl hit ↦ ground (arith, update_where-none p f ys)
    | inr miss ↦ ground (arith, count_where-update_one q p f ys x)
  ]

  -- Counts under tests that agree everywhere are equal.
  pub count_where_ext :
      (p q : A → Bool) (xs : List A) → ((x : A) → p x ≡ q x) → count_where p xs ≡ count_where q xs
  unfolding count_where
  count_where_ext p q [] h = refl
  count_where_ext p q (x ∷ xs) h = ground (arith, h x, count_where_ext p q xs h)

  -- The row that the update was for.
  pub find_first-updated :
      (p : A → Bool) (f : A → A) (xs : List A) {x : A}
      → ((x : A) → p (f x) ≡ p x)
      → find_first p xs ≡ some x
      → find_first p (update_where p f xs) ≡ some (f x)
  find_first-updated p f xs h e =
      ground (arith, find_first-update_where p p f xs h, find_first_holds p xs e)
