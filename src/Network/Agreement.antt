-- ===== src/Network/Agreement.antt =====
-- The list filter and the check by id of backend/src/modules/listing/network.js agree.
use havale_khodro.Schema.Entities.{User, Db, Listing}
use havale_khodro.Network.{
  satisfies, visibility_clause, contains, may_view, some, network_root_of, in_network,
}
use havale_khodro.Prelude.{
  Bool, All, ℕ, Option, List, map, find_many, ◌≡◌, ◌==◌, find_first, Bool-cases, none, true,
  Option-cases, inl, false, arith, inr, refl, ap, some, [], ◌∷◌, find_first_holds,
}
use havale_khodro.Activity.{find_user}

module _ (p : User → Bool) (k : ℕ) where
  abbrev ids : List User → List ℕ
  ids xs = map (λ u. u.id) (find_many p xs)

  -- Where no row with the id passes the test, the id is not among those that pass.
  contains-none :
      (xs : List User)
      → All (λ u. (u.id == k) ≡ true → p u ≡ false) xs
      → contains k (ids xs) ≡ false
  unfolding contains find_many
  contains-none [] h = refl
  contains-none (x ∷ xs) h = ground (arith, h.0, contains-none xs h.1)

  contains-some :
      (xs : List User) (o : User)
      → All (λ u. (u.id == k) ≡ true → p u ≡ true) xs
      → find_first (λ u. u.id == k) xs ≡ some o
      → contains k (ids xs) ≡ true
  unfolding contains find_many find_first
  contains-some [] o h f = cc
  contains-some (x ∷ xs) o h f = ground (arith, h.0, contains-some xs o h.1)

-- No two accounts share an identifier.
abbrev pub HasUniqueIds : Db → Type 0
HasUniqueIds s = All (λ u. find_user u.id s ≡ some u) s.users

module _ (s : Db) (k : ℕ) (o : User) (found : find_user k s ≡ some o) (p : User → Bool) where
  same_test :
      (xs : List User)
      → All (λ u. find_user u.id s ≡ some u) xs
      → All (λ u. (u.id == k) ≡ true → p u ≡ p o) xs
  same_test [] h = tt
  same_test (x ∷ xs) h = (
    λ e.
        let q : x.id ≡ k = ground arith in
        let r : x ≡ o = ground (arith, h.0, ap (λ i. find_user i s) q) in ap p r,
    same_test xs h.1,
  )

  -- An account is among those that pass a test exactly if it passes the test.
  contains-ids : HasUniqueIds s → contains k (ids p k s.users) ≡ p o
  unfolding find_user
  contains-ids u = elim (Bool-cases (p o)) [
    | inl e ↦ rw e (contains-some p k s.users o (rw e at (same_test s.users u)) found)
    | inr e ↦ rw e (contains-none p k s.users (rw e at (same_test s.users u)))
  ]

-- The account at the root of a network is under no other account.
abbrev pub IsTop : Db → Option ℕ → Type 0
IsTop s none = Unit
IsTop s (some root) = (r : User) → find_user root s ≡ some r → r.parent_id ≡ none

-- Where no two accounts share an identifier and the root of the viewer's network is under no other
-- account, a row satisfies the clause of the list queries exactly if the viewer may see it by its
-- identifier.
pub satisfies-visibility_clause :
    (user : Option User) (s : Db) (l : Listing) (o : User)
    → HasUniqueIds s
    → IsTop s (network_root_of user)
    → find_user l.owner_id s ≡ some o
    → satisfies (visibility_clause user s) l ≡ may_view user l o
unfolding satisfies visibility_clause may_view find_user
satisfies-visibility_clause user s l o u top found = elim (Option-cases (network_root_of user)) [
  | inl e ↦ ground arith
  | inr (root, e) ↦ ground (
    arith,
    contains-ids s l.owner_id o found (in_network root) u,
    find_first_holds (λ x. x.id == l.owner_id) s.users {x = o},
    (rw e at top) o,
  )
]
