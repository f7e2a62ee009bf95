-- ===== src/Havale/Store.antt =====
-- backend/src/modules/havale/havale.repository.js: the queries and writes on the listings of the
-- market. A row comes with its owner, which the foreign key provides.
use havale_khodro.Reveal.{with_owner}
use havale_khodro.Prelude.{
  ◌≡◌, arith, ◌==◌, Option-cases, present, find_first, update_where, find_first_holds, ℕ, inl, inr,
  Bool, not, ◌&&◌, Option, some,
}
use havale_khodro.Schema.Entities.{Listing, Db, User}
use havale_khodro.Activity.{find_user}
use havale_khodro.Schema.Enums.{same_market, Market}

-- A listing of this market that is not deleted.
abbrev pub is_havale : ℕ → Listing → Bool
is_havale id l = l.id == id && same_market l.market Market.havale && not (present l.deleted_at)

unfoldable pub find_by_id : ℕ → Db → Option (Listing × User)
unfolding find_first find_user
find_by_id id s = with_owner s (find_first (is_havale id) s.listings)

-- The update is by the identifier alone.
unfoldable pub update_listing : ℕ → (Listing → Listing) → Db → Db
unfolding update_where
update_listing id f s = record s { listings = update_where (λ l. l.id == id) f s.listings }

-- What a row that was found is.
pub find_by_id_found :
    (id : ℕ) (s : Db) (row : Listing × User)
    → find_by_id id s ≡ some row
    → (find_first (is_havale id) s.listings ≡ some row.0)
      × (row.0.id ≡ id)
      × (find_user row.0.owner_id s ≡ some row.1)
unfolding find_by_id find_user
find_by_id_found id s row h = elim (Option-cases (find_first (is_havale id) s.listings)) [
  | inl n ↦ ground arith
  | inr (l, e) ↦ elim (Option-cases (find_user l.owner_id s)) [
    | inl n ↦ ground arith
    | inr (o, f) ↦
        let q : (l, o) ≡ row = ground arith in
        rw (← q) (e, ground (arith, find_first_holds (is_havale id) s.listings {x = l}), f)
  ]
]
