-- ===== src/Havale/Order.antt =====
-- The order of the list of backend/src/modules/havale/havale.service.js, and its rows past a cursor.
use havale_khodro.Havale.Pages.{newer, insert_newest, newest_first}
use havale_khodro.Havale.Scrolling.{past, cursor_of}
use havale_khodro.Schema.Entities.{Listing}
use havale_khodro.Prelude.{
  ◌==◌, if◌then◌else◌, Bool-cases, All-weaken, find_many, All, ◌≡◌, inl, inr, Bool, true, false,
  List, [], ◌∷◌, arith, All-middle, refl, ap, ◌&&◌, some, ◌++◌, All-kept,
}

-- Each row is newer than those after it.
abbrev pub IsOrdered : List Listing → Type 0
IsOrdered [] = Unit
IsOrdered (x ∷ xs) = All (λ y. newer x y ≡ true) xs × IsOrdered xs

-- No two rows share an identifier.
abbrev pub AreApart : List Listing → Type 0
AreApart [] = Unit
AreApart (x ∷ xs) = All (λ y. (y.id == x.id) ≡ false) xs × AreApart xs

All-insert_newest {κ} :
    (P : Listing → Type κ) (l : Listing) (xs : List Listing)
    → P l
    → All P xs
    → All P (insert_newest l xs)
unfolding insert_newest
All-insert_newest P l [] p h = (p, tt)
All-insert_newest P l (x ∷ xs) p h = elim (Bool-cases (newer l x)) [
  | inl e ↦ rw e (p, h)
  | inr e ↦ rw e (h.0, All-insert_newest P l xs p h.1)
]

All-newest_first {κ} :
    (P : Listing → Type κ) (xs : List Listing) → All P xs → All P (newest_first xs)
unfolding newest_first
All-newest_first P [] h = tt
All-newest_first P (x ∷ xs) h =
    All-insert_newest P x (newest_first xs) h.0 (All-newest_first P xs h.1)

newer_trans : (a b c : Listing) → newer a b ≡ true → newer b c ≡ true → newer a c ≡ true
newer_trans a b c h k = ground arith

newer_total : (a b : Listing) → (b.id == a.id) ≡ false → newer a b ≡ false → newer b a ≡ true
newer_total a b h k = ground arith

insert_newest-IsOrdered :
    (l : Listing) (xs : List Listing)
    → All (λ y. (y.id == l.id) ≡ false) xs
    → IsOrdered xs
    → IsOrdered (insert_newest l xs)
unfolding insert_newest
insert_newest-IsOrdered l [] d h = (tt, tt)
insert_newest-IsOrdered l (x ∷ xs) d h = elim (Bool-cases (newer l x)) [
  | inl e ↦ rw e ((e, All-weaken _ _ xs (λ y q. newer_trans l x y e q) h.0), h)
  | inr e ↦
      rw e
        (All-insert_newest _ l xs (newer_total l x d.0 e) h.0, insert_newest-IsOrdered l xs d.1 h.1)
]

pub newest_first-IsOrdered : (xs : List Listing) → AreApart xs → IsOrdered (newest_first xs)
unfolding newest_first
newest_first-IsOrdered [] h = tt
newest_first-IsOrdered (x ∷ xs) h =
    insert_newest-IsOrdered x (newest_first xs) (All-newest_first _ xs h.0)
      (newest_first-IsOrdered xs h.1)

insert_newest-front :
    (l : Listing) (xs : List Listing) → All (λ y. newer l y ≡ true) xs → insert_newest l xs ≡ l ∷ xs
unfolding insert_newest
insert_newest-front l [] h = refl
insert_newest-front l (x ∷ xs) h = rw h.0 refl

-- Filtering keeps the order.
find_many-insert_newest :
    (q : Listing → Bool) (l : Listing) (xs : List Listing)
    → IsOrdered xs
    → find_many q (insert_newest l xs)
      ≡ (if q l then insert_newest l (find_many q xs) else find_many q xs)
unfolding insert_newest find_many
find_many-insert_newest q l [] h = refl
find_many-insert_newest q l (x ∷ xs) h = elim (Bool-cases (newer l x)) [
  | inl e ↦
      let older = All-weaken _ _ xs (λ y r. newer_trans l x y e r) h.0 in
      let front = insert_newest-front l (find_many q xs) (All-kept _ q xs older) in
      rw e (elim (Bool-cases (q x)) [ inl a ↦ rw (a, e) refl | inr a ↦ rw (a, front) refl ])
  | inr e ↦
      rw (e, find_many-insert_newest q l xs h.1)
        (elim (Bool-cases (q x)) [
          | inl a ↦ rw (a, e) (elim (Bool-cases (q l)) [ inl b ↦ rw b refl | inr b ↦ rw b refl ])
          | inr a ↦ rw a refl
        ])
]

pub newest_first-find_many :
    (q : Listing → Bool) (xs : List Listing)
    → AreApart xs
    → newest_first (find_many q xs) ≡ find_many q (newest_first xs)
unfolding newest_first find_many
newest_first-find_many q [] h = refl
newest_first-find_many q (x ∷ xs) h =
    let rest = newest_first-find_many q xs h.1 in
    let whole = find_many-insert_newest q x (newest_first xs) (newest_first-IsOrdered xs h.1) in
    rw whole (elim (Bool-cases (q x)) [ inl a ↦ rw a (rw rest refl) | inr a ↦ rw a rest ])

pub find_many-both :
    (p q : Listing → Bool) (xs : List Listing)
    → find_many (λ l. p l && q l) xs ≡ find_many q (find_many p xs)
unfolding find_many
find_many-both p q [] = refl
find_many-both p q (x ∷ xs) = ground (arith, find_many-both p q xs)

pub find_many-AreApart :
    (q : Listing → Bool) (xs : List Listing) → AreApart xs → AreApart (find_many q xs)
unfolding find_many
find_many-AreApart q [] h = tt
find_many-AreApart q (x ∷ xs) h = elim (Bool-cases (q x)) [
  | inl a ↦ rw a (All-kept _ q xs h.0, find_many-AreApart q xs h.1)
  | inr a ↦ rw a (find_many-AreApart q xs h.1)
]

find_many-whole :
    (q : Listing → Bool) (xs : List Listing) → All (λ l. q l ≡ true) xs → find_many q xs ≡ xs
unfolding find_many
find_many-whole q [] h = refl
find_many-whole q (x ∷ xs) h = rw h.0 (ap (λ r. x ∷ r) (find_many-whole q xs h.1))

newer_asym : (a b : Listing) → newer a b ≡ true → newer b a ≡ false
newer_asym a b h = ground arith

newer_irrefl : (a : Listing) → newer a a ≡ false
newer_irrefl a = ground arith

-- What is past a row of the list are the rows after it.
pub find_many-past :
    (xs : List Listing) (c : Listing) (ys : List Listing)
    → IsOrdered (xs ++ c ∷ ys)
    → find_many (past (some (cursor_of c))) (xs ++ c ∷ ys) ≡ ys
unfolding find_many
find_many-past [] c ys h = rw (newer_irrefl c) (find_many-whole (λ l. newer c l) ys h.0)
find_many-past (x ∷ xs) c ys h =
    let first = newer_asym x c (All-middle (λ y. newer x y ≡ true) xs c ys h.0) in
    rw first (find_many-past xs c ys h.1)
