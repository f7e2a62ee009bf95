-- ===== src/Prelude/Everywhere.antt =====
-- Predicates on all rows of a table.
use mathlib.Core.Path.{◌≡◌, refl, sym, ap}
use mathlib.Core.Logic.{inl, inr}
use mathlib.Core.Bool.{Bool, true}
use mathlib.Core.Option.{some}
use mathlib.Core.List.{List, [], ◌∷◌, ◌++◌}
use native.Mathlib.Omega.{arith}
use havale_khodro.Prelude.Tests.{if◌then◌else◌, Bool-cases}
use havale_khodro.Prelude.Rows.{find_first, find_many, update_where, All}

pub All-found {ℓ κ} :
    {A : Type ℓ} (P : A → Type κ) (p : A → Bool) (xs : List A) (x : A)
    → All P xs
    → find_first p xs ≡ some x
    → P x
unfolding find_first
All-found P p [] x h e = absurd (ground arith)
All-found P p (y ∷ ys) x h e = elim (Bool-cases (p y)) [
  | inl q ↦ let i : y ≡ x = ground arith in rw (sym i) h.0
  | inr q ↦ All-found P p ys x h.1 (ground arith)
]

pub All-update_where {ℓ κ} :
    {A : Type ℓ} (P : A → Type κ) (p : A → Bool) (f : A → A) (xs : List A)
    → ((x : A) → P x → P (f x))
    → All P xs
    → All P (update_where p f xs)
unfolding update_where
All-update_where P p f [] k h = tt
All-update_where P p f (x ∷ xs) k h = elim (Bool-cases (p x)) [
  | inl q ↦ rw q (k x h.0, All-update_where P p f xs k h.1)
  | inr q ↦ rw q (h.0, All-update_where P p f xs k h.1)
]

pub All-weaken {ℓ κ} :
    {A : Type ℓ} (P Q : A → Type κ) (xs : List A) → ((x : A) → P x → Q x) → All P xs → All Q xs
All-weaken P Q [] k h = tt
All-weaken P Q (x ∷ xs) k h = (k x h.0, All-weaken P Q xs k h.1)

pub All-append {ℓ κ} :
    {A : Type ℓ} (P : A → Type κ) (xs : List A) (x : A) → All P xs → P x → All P (xs ++ x ∷ [])
All-append P [] x h e = (e, tt)
All-append P (y ∷ ys) x h e = (h.0, All-append P ys x h.1 e)

pub update_where-append {ℓ} :
    {A : Type ℓ} (p : A → Bool) (f : A → A) (xs : List A) (x : A)
    → update_where p f (xs ++ x ∷ []) ≡ update_where p f xs ++ (if p x then f x else x) ∷ []
unfolding update_where
update_where-append p f [] x = refl
update_where-append p f (y ∷ ys) x = ground (arith, update_where-append p f ys x)

pub All-find_many {ℓ} :
    {A : Type ℓ} (p q : A → Bool) (xs : List A)
    → ((x : A) → p x ≡ true → q x ≡ true)
    → All (λ x. q x ≡ true) (find_many p xs)
unfolding find_many
All-find_many p q [] h = tt
All-find_many p q (x ∷ xs) h = elim (Bool-cases (p x)) [
  | inl e ↦ rw e (h x e, All-find_many p q xs h)
  | inr e ↦ rw e (All-find_many p q xs h)
]

pub All-middle {ℓ κ} :
    {A : Type ℓ} (P : A → Type κ) (xs : List A) (y : A) (ys : List A) → All P (xs ++ y ∷ ys) → P y
All-middle P [] y ys h = h.0
All-middle P (x ∷ xs) y ys h = All-middle P xs y ys h.1

pub append_assoc {ℓ} : {A : Type ℓ} (xs ys zs : List A) → (xs ++ ys) ++ zs ≡ xs ++ (ys ++ zs)
append_assoc [] ys zs = refl
append_assoc (x ∷ xs) ys zs = ap (λ r. x ∷ r) (append_assoc xs ys zs)

pub append_nil {ℓ} : {A : Type ℓ} (xs : List A) → xs ++ [] ≡ xs
append_nil [] = refl
append_nil (x ∷ xs) = ap (λ r. x ∷ r) (append_nil xs)

pub All-kept {ℓ κ} :
    {A : Type ℓ} (P : A → Type κ) (q : A → Bool) (xs : List A) → All P xs → All P (find_many q xs)
unfolding find_many
All-kept P q [] h = tt
All-kept P q (x ∷ xs) h = elim (Bool-cases (q x)) [
  | inl a ↦ rw a (h.0, All-kept P q xs h.1)
  | inr a ↦ rw a (All-kept P q xs h.1)
]
