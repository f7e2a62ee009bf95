-- ===== src/Reveal/Ledger.antt =====
-- The ledger of reveals of backend/src/modules/listing/reveal.service.js: the owner's visible
-- counter is the number of rows, and a viewer has one row at most for a listing.
use havale_khodro.Prelude.{
  ℕ, List, update_where, find_first, count_where, Bool, ◌==◌, All, ◌≤◌, ◌++◌, ◌≡◌, ◌∷◌, none, [],
  arith, refl, count_where-append, Bool-cases, inl, inr, Option, String, ◌⊎◌,
}
use havale_khodro.Schema.Entities.{Db, Reveal, Listing, Env, User, Activity}
use havale_khodro.Reveal.{
  is_reveal_of, bump_reveal_count, record_reveal, handle, serve, find_reveal, Request, reveal_row,
  RevealResult,
}
use havale_khodro.Exec.{after, Outcome, thrown, done}
use havale_khodro.Reveal.Charging.{Free, recorded, Charged, charged_db, reveal-thrown, reveal_cases}
use havale_khodro.Activity.{record_activity-eq}
use havale_khodro.Schema.Enums.{contact_revealed}

abbrev pub of_listing : ℕ → Reveal → Bool
of_listing id r = r.listing_id == id

abbrev Counted : List Reveal → List Listing → Type 0
Counted reveals listings =
    All (λ l. l.reveal_count ≡ count_where (of_listing l.id) reveals) listings

pub record IsBalanced (s : Db) : Type 0 where
  pub counted : Counted s.reveals s.listings
  pub single :
      (listing_id viewer_id : ℕ) → count_where (is_reveal_of listing_id viewer_id) s.reveals ≤ 1

-- One row more, and one more on the counter of its listing.
Counted-append :
    (reveals : List Reveal) (row : Reveal) (listings : List Listing)
    → Counted reveals listings
    → Counted
        (reveals ++ row ∷ [])
        (update_where (λ l. l.id == row.listing_id) bump_reveal_count listings)
unfolding update_where
Counted-append reveals row [] c = tt
Counted-append reveals row (l ∷ rest) c = (
  unfold count_where in
      ground (arith, c.0, count_where-append (of_listing l.id) reveals (row ∷ [])),
  Counted-append reveals row rest c.1,
)

count_where-none :
    (p : Reveal → Bool) (xs : List Reveal) → find_first p xs ≡ none → count_where p xs ≡ 0
unfolding find_first count_where
count_where-none p [] h = refl
count_where-none p (x ∷ xs) h = ground (arith, count_where-none p xs)

single-append :
    (reveals : List Reveal) (row : Reveal)
    → ((i v : ℕ) → count_where (is_reveal_of i v) reveals ≤ 1)
    → find_first (is_reveal_of row.listing_id row.viewer_id) reveals ≡ none
    → (i v : ℕ) → count_where (is_reveal_of i v) (reveals ++ row ∷ []) ≤ 1
unfolding count_where
single-append reveals row h n i v = elim (Bool-cases (is_reveal_of i v row)) [
  | inl e ↦
      let same_listing : row.listing_id ≡ i = ground arith in
      let same_viewer : row.viewer_id ≡ v = ground arith in
      rw (← same_listing, ← same_viewer)
        (ground (
          arith,
          count_where-append (is_reveal_of row.listing_id row.viewer_id) reveals (row ∷ []),
          count_where-none (is_reveal_of row.listing_id row.viewer_id) reveals n,
        ))
  | inr e ↦ ground (arith, h i v, count_where-append (is_reveal_of i v) reveals (row ∷ []))
]

record_reveal-IsBalanced :
    (env : Env) (id viewer_id : ℕ) (ip phone code : Option String) (s : Db) (rows : List Activity)
    → find_reveal id viewer_id s ≡ none
    → IsBalanced s
    → IsBalanced (recorded env id viewer_id ip phone code s rows)
unfolding record_reveal find_reveal
record_reveal-IsBalanced env id viewer_id ip phone code s rows n b = record {
  counted =
      Counted-append s.reveals (reveal_row env s.next_id id viewer_id ip phone code) s.listings
        b.counted;
  single = single-append s.reveals (reveal_row env s.next_id id viewer_id ip phone code) b.single n;
}

-- A request keeps the ledger balanced: each listing's counter equals its number of reveals, and no
-- viewer has two reveals of one listing.
handle-IsBalanced : (q : Request) (s : Db) → IsBalanced s → IsBalanced (after (handle q s))
unfolding handle
handle-IsBalanced q s b = by_outcome (handle q s) refl
  where
    charged :
        (t : Db) (o : User)
        → Free q.env q.user q.access q.id q.ip q.target q.market s t
          ⊎ Charged q.env q.user q.access q.id q.ip q.target q.market o s t
        → IsBalanced t
    charged t o (inl (row, f, same)) = rw same b
    charged t o (inr (n, d, m, w)) =
        let (rows, p) =
          record_activity-eq q.env q.user.id contact_revealed q.target q.id
            (charged_db q.env q.user q.access q.id q.ip q.target q.market o s) in
        let e : t ≡ recorded q.env q.id q.user.id q.ip o.coordinator_phone o.agency_code s rows =
          cc in
        rw e (
          record_reveal-IsBalanced q.env q.id q.user.id q.ip o.coordinator_phone o.agency_code s
            rows n b)

    by_outcome : (o : Outcome RevealResult) → handle q s ≡ o → IsBalanced (after o)
    by_outcome (thrown e t) h =
        rw (reveal-thrown q.env q.user q.access q.id q.ip q.target q.market s t e h) b
    by_outcome (done r t) h =
        let (l, x, a, c) = reveal_cases q.env q.user q.access q.id q.ip q.target q.market s t r h in
        charged t x c

-- Whatever reveal requests are served, the ledger stays balanced: each listing's counter equals
-- its number of reveals, and no viewer has two reveals of one listing.
pub serve-IsBalanced :
    (s : Db) (requests : List Request) → IsBalanced s → IsBalanced (serve s requests)
unfolding serve
serve-IsBalanced s [] b = b
serve-IsBalanced s (q ∷ rest) b =
    serve-IsBalanced (after (handle q s)) rest (handle-IsBalanced q s b)
