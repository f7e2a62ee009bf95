-- ===== src/Prelude/Sums.antt =====
-- Sums over the rows of a table, and what an update does to them.
use Prim.Native.Nat.{ℕ, ◌+◌, ◌≤◌}
use mathlib.Core.Path.{◌≡◌, refl}
use mathlib.Core.Logic.{inl, inr}
use mathlib.Core.Bool.{Bool}
use mathlib.Core.Option.{some}
use mathlib.Core.List.{List, [], ◌∷◌, ◌++◌}
use native.Mathlib.Omega.{arith}
use havale_khodro.Prelude.Tests.{Bool-cases}
use havale_khodro.Prelude.Rows.{find_first, count_where, update_where, update_where-none}

module _ {ℓ} {A : Type ℓ} where
  unfoldable pub sum_of : (A → ℕ) → List A → ℕ
  sum_of g [] = 0
  sum_of g (x ∷ xs) = g x + sum_of g xs

  pub sum_of-append : (g : A → ℕ) (xs ys : List A) → sum_of g (xs ++ ys) ≡ sum_of g xs + sum_of g ys
  unfolding sum_of
  sum_of-append g [] ys = omega arith
  sum_of-append g (x ∷ xs) ys = omega (arith, sum_of-append g xs ys)

  pub sum_of-update_where :
      (g : A → ℕ) (p : A → Bool) (f : A → A) (xs : List A)
      → ((x : A) → g (f x) ≡ g x)
      → sum_of g (update_where p f xs) ≡ sum_of g xs
  unfolding sum_of update_where
  sum_of-update_where g p f [] h = refl
  sum_of-update_where g p f (x ∷ xs) h = ground (arith, h x, sum_of-update_where g p f xs h)

  -- Where one row at most passes the test, an update changes a sum by that row.
  pub sum_of-update_one :
      (g : A → ℕ) (p : A → Bool) (f : A → A) (xs : List A) (x : A)
      → find_first p xs ≡ some x
      → count_where p xs ≤ 1
      → sum_of g (update_where p f xs) + g x ≡ sum_of g xs + g (f x)
  unfolding count_where update_where find_first sum_of
  sum_of-update_one g p f [] x e h = ground arith
  sum_of-update_one g p f (y ∷ ys) x e h = elim (Bool-cases (p y)) [
    | inl hit ↦ ground (arith, update_where-none p f ys)
    | inr miss ↦ ground (arith, sum_of-update_one g p f ys x)
  ]
