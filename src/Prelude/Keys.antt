-- ===== src/Prelude/Keys.antt =====
-- Tables whose rows have identifiers of their own, and a counter that gives new ones.
use Prim.Native.Nat.{ℕ, ◌+◌, ◌≤◌, ◌<◌}
use mathlib.Core.Path.{◌≡◌, refl, ap, sym, ◌∙◌}
use mathlib.Core.Logic.{inl, inr}
use mathlib.Core.Bool.{Bool, true, false}
use mathlib.Core.Option.{some, none}
use mathlib.Core.List.{List, [], ◌∷◌, ◌++◌}
use native.Mathlib.Omega.{arith}
use havale_khodro.Prelude.Tests.{◌==◌, Bool-cases, if◌then◌else◌}
use havale_khodro.Prelude.Rows.{
  count_where, update_where, All, count_where-append, count_where-update_where, find_first,
  find_first-count_where,
}

module _ {ℓ} {A : Type ℓ} (key : A → ℕ) where
  -- No two rows share an identifier, and the next one is not taken.
  pub record IsKeyed (next : ℕ) (xs : List A) : Type ℓ where
    pub single : (id : ℕ) → count_where (λ x. key x == id) xs ≤ 1
    pub fresh : All (λ x. key x < next) xs

  none_fresh :
      (k : ℕ) (xs : List A) → All (λ x. key x < k) xs → count_where (λ x. key x == k) xs ≡ 0
  unfolding count_where
  none_fresh k [] h = refl
  none_fresh k (x ∷ xs) h = ground (arith, none_fresh k xs h.1)

  fresh_append :
      (k : ℕ) (xs : List A) (x : A)
      → All (λ x. key x < k) xs
      → key x ≡ k
      → All (λ x. key x < k + 1) (xs ++ x ∷ [])
  fresh_append k [] x h e = (ground arith, tt)
  fresh_append k (y ∷ xs) x h e = (ground arith, fresh_append k xs x h.1 e)

  fresh_update :
      (k : ℕ) (p : A → Bool) (f : A → A) (xs : List A)
      → ((x : A) → key (f x) ≡ key x)
      → All (λ x. key x < k) xs
      → All (λ x. key x < k) (update_where p f xs)
  unfolding update_where
  fresh_update k p f [] q h = tt
  fresh_update k p f (x ∷ xs) q h = (ground (arith, q x), fresh_update k p f xs q h.1)

  -- A new row that takes the next identifier.
  pub IsKeyed-append :
      (k : ℕ) (xs : List A) (x : A) → key x ≡ k → IsKeyed k xs → IsKeyed (k + 1) (xs ++ x ∷ [])
  unfolding count_where
  IsKeyed-append k xs x e t = record {
    single = λ id. elim (Bool-cases (key x == id)) [
      | inl p ↦
          let i : id ≡ k = ground arith in
          let z : count_where (λ x. key x == id) xs ≡ 0 = rw i (none_fresh k xs t.fresh) in
          ground (arith, count_where-append (λ x. key x == id) xs (x ∷ []))
      | inr p ↦ ground (arith, t.single id, count_where-append (λ x. key x == id) xs (x ∷ []))
    ];
    fresh = fresh_append k xs x t.fresh e;
  }

  pub IsKeyed-update_where :
      (k : ℕ) (p : A → Bool) (f : A → A) (xs : List A)
      → ((x : A) → key (f x) ≡ key x)
      → IsKeyed k xs
      → IsKeyed k (update_where p f xs)
  IsKeyed-update_where k p f xs q t = record {
    single = λ id.
        rw (count_where-update_where (λ x. key x == id) p f xs (λ x. ap (λ n. n == id) (q x)))
          (t.single id);
    fresh = fresh_update k p f xs q t.fresh;
  }

-- The rows but for the first that passes.
unfoldable pub without_first {ℓ} : {A : Type ℓ} → (A → Bool) → List A → List A
without_first p [] = []
without_first p (x ∷ xs) = let rest = without_first p xs in if p x then xs else x ∷ rest

module _ {ℓ} {A : Type ℓ} where
  find_first-without_first_ne :
      (q p : A → Bool) (xs : List A)
      → ((x : A) → q x ≡ true → p x ≡ false)
      → find_first q (without_first p xs) ≡ find_first q xs
  unfolding find_first without_first
  find_first-without_first_ne q p [] h = refl
  find_first-without_first_ne q p (x ∷ xs) h =
      ground (arith, h x, find_first-without_first_ne q p xs h)

  find_first-without_first :
      (p : A → Bool) (xs : List A) → count_where p xs ≤ 1 → find_first p (without_first p xs) ≡ none
  unfolding find_first without_first count_where
  find_first-without_first p [] h = refl
  find_first-without_first p (x ∷ xs) h = elim (Bool-cases (p x)) [
    | inl e ↦ ground (arith, find_first-count_where p xs)
    | inr e ↦ ground (arith, find_first-without_first p xs (ground arith))
  ]

  pub count_where-without_first :
      (q p : A → Bool) (xs : List A) → count_where q (without_first p xs) ≤ count_where q xs
  unfolding without_first count_where
  count_where-without_first q p [] = omega arith
  count_where-without_first q p (x ∷ xs) = ground (arith, count_where-without_first q p xs)

  -- Another row than the one of a key that only one row has.
  pub other_row :
      (key : A → ℕ) (k id : ℕ) (r : A) (xs : List A)
      → count_where (λ x. key x == id) xs ≤ 1
      → find_first (λ x. key x == k) (without_first (λ x. key x == id) xs) ≡ some r
      → ((k == id) ≡ false) × (find_first (λ x. key x == k) xs ≡ some r)
  other_row key k id r xs h e = elim (Bool-cases (k == id)) [
    | inl b ↦
        let same_id : k ≡ id = ground (arith, b) in
        let gone = find_first-without_first (λ x. key x == id) xs h in
        let there =
          ap (λ m. find_first (λ x. key x == m) (without_first (λ x. key x == id) xs)) (sym same_id)
          ∙ e in
        ground (arith, gone, there)
    | inr b ↦ (
      b,
      sym (
            find_first-without_first_ne (λ x. key x == k) (λ x. key x == id) xs
              (λ x q. ground (arith, b)))
          ∙ e,
    )
  ]
