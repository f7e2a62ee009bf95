-- ===== src/Havale/Listed.antt =====
-- What a page of the list shows, and to whom (backend/src/modules/havale/havale.service.js).
use havale_khodro.Prelude.{
  ◌≡◌, arith, ◌==◌, Bool-cases, present, find_first, find_many, All, ℕ, zero, suc, ap, inl, inr,
  Bool, true, ◌&&◌, ◌||◌, List, [], ◌∷◌, ◌++◌, map, if◌then◌else◌, false, some, refl, Option, none,
  ◌-◌, ◌*◌, min, append_assoc, sym, ◌∙◌,
}
use havale_khodro.Schema.Entities.{Listing, Reveal, User, Env, Db}
use havale_khodro.Network.{contains, network_root_of, may_view}
use havale_khodro.Havale.Pages.{
  insert_newest, newest_first, take, skip, others_ids, newer, find_revealed_ids, item, items,
  list_page, list_rows, page_size,
}
use havale_khodro.Reveal.{is_reveal_of, find_reveal}
use havale_khodro.Access.{Access}
use havale_khodro.Havale.Browsing.{Filters, list_where, public_where, max_page}
use havale_khodro.Havale.Cards.{Card, IsGiven, to_havale_card, to_own_havale}
use havale_khodro.Network.Agreement.{HasUniqueIds, IsTop, satisfies-visibility_clause}
use havale_khodro.Activity.{find_user}
use havale_khodro.Schema.Enums.{listing_active, account_active}

module _ {ℓ} {A : Type ℓ} where
  All-joined {κ} : (P : A → Type κ) (xs ys : List A) → All P xs → All P ys → All P (xs ++ ys)
  All-joined P [] ys h k = k
  All-joined P (x ∷ xs) ys h k = (h.0, All-joined P xs ys h.1 k)

  All-map {κ ι} :
      (P : A → Type κ) (Q : A → Type ι) (xs : List A) → ((x : A) → P x → Q x) → All P xs → All Q xs
  All-map P Q [] f h = tt
  All-map P Q (x ∷ xs) f h = (f x h.0, All-map P Q xs f h.1)

module _ (P : Listing → Type 0) where
  All-insert_newest :
      (l : Listing) (xs : List Listing) → P l → All P xs → All P (insert_newest l xs)
  unfolding insert_newest
  All-insert_newest l [] p h = (p, tt)
  All-insert_newest l (x ∷ xs) p h = elim (Bool-cases (newer l x)) [
    | inl e ↦ rw e (p, h)
    | inr e ↦ rw e (h.0, All-insert_newest l xs p h.1)
  ]

  All-newest_first : (xs : List Listing) → All P xs → All P (newest_first xs)
  unfolding newest_first
  All-newest_first [] h = tt
  All-newest_first (x ∷ xs) h = All-insert_newest x (newest_first xs) h.0 (All-newest_first xs h.1)

  All-take : (n : ℕ) (xs : List Listing) → All P xs → All P (take n xs)
  unfolding take
  All-take zero xs h = tt
  All-take (suc n) [] h = tt
  All-take (suc n) (x ∷ xs) h = (h.0, All-take n xs h.1)

  All-skip : (n : ℕ) (xs : List Listing) → All P xs → All P (skip n xs)
  unfolding skip
  All-skip zero xs h = h
  All-skip (suc n) [] h = tt
  All-skip (suc n) (x ∷ xs) h = All-skip n xs h.1

-- A listing counts as opened exactly if its reveal is recorded.
contains-find_revealed_ids :
    (k v : ℕ) (ids : List ℕ) (rs : List Reveal)
    → contains k (
        map (λ r. r.listing_id) (find_many (λ r. r.viewer_id == v && contains r.listing_id ids) rs))
      ≡ (contains k ids && present (find_first (is_reveal_of k v) rs))
unfolding contains find_many find_first
contains-find_revealed_ids k v ids [] = ground arith
contains-find_revealed_ids k v ids (r ∷ rs) =
    ground (arith, contains-find_revealed_ids k v ids rs, ap (λ n. contains n ids))

-- Every row that is not the viewer's is asked about.
others_ids-known :
    (v : ℕ) (xs : List Listing)
    → All (λ l. (l.owner_id == v || contains l.id (others_ids v xs)) ≡ true) xs
unfolding contains find_many
others_ids-known v [] = tt
others_ids-known v (x ∷ xs) = (
  ground arith,
  All-map (λ l. (l.owner_id == v || contains l.id (others_ids v xs)) ≡ true)
      (λ l. (l.owner_id == v || contains l.id (others_ids v (x ∷ xs))) ≡ true) xs
      (λ l h. ground arith) (others_ids-known v xs),
)

-- A row of the table.
abbrev pub IsStored : Db → Listing → Type 0
IsStored s l = (before : List Listing) × (after : List Listing) × (s.listings ≡ before ++ l ∷ after)

All-IsStored : (before xs : List Listing) (s : Db) → s.listings ≡ before ++ xs → All (IsStored s) xs
All-IsStored before [] s h = tt
All-IsStored before (x ∷ xs) s h = (
  (before, xs, h),
  All-IsStored (before ++ x ∷ []) xs s (h ∙ sym (append_assoc before (x ∷ []) xs)),
)

All-filtered :
    (P : Listing → Type 0) (p : Listing → Bool) (xs : List Listing)
    → All P xs
    → All (λ x. P x × (p x ≡ true)) (find_many p xs)
unfolding find_many
All-filtered P p [] h = tt
All-filtered P p (x ∷ xs) h = elim (Bool-cases (p x)) [
  | inl e ↦ rw e ((h.0, e), All-filtered P p xs h.1)
  | inr e ↦ rw e (All-filtered P p xs h.1)
]

-- A card of the list, and the row of the table that it shows.
pub record IsShown (user : User) (access : Access) (s : Db) (c : Card) : Type 0 where
  pub row : Listing
  pub owner : User
  pub stored : IsStored s row
  pub owner_found : find_user row.owner_id s ≡ some owner
  pub same : c.id ≡ row.id
  pub kept : present row.deleted_at ≡ false
  pub active : (listing_active row.status && account_active owner.status) ≡ true
  pub visible : may_view (some user) row owner ≡ true
  pub gives :
      IsGiven
        (row.owner_id == user.id || (access.active && present (find_reveal row.id user.id s)))
        row
        owner
        c

module _ (env : Env) (user : User) (access : Access) (f : Filters) (s : Db) (ids : HasUniqueIds s)
    (top : IsTop s (network_root_of (some user))) (rows : List Listing) where
  abbrev opened_ids : List ℕ
  opened_ids = if access.active then find_revealed_ids (others_ids user.id rows) user.id s else []

  item-IsShown :
      (l : Listing)
      → IsStored s l × (list_where env user f s l ≡ true)
      → (l.owner_id == user.id || contains l.id (others_ids user.id rows)) ≡ true
      → (m : Option User) → find_user l.owner_id s ≡ m
      → All (IsShown user access s) (item user access.active opened_ids l m)
  unfolding item list_where public_where find_revealed_ids to_havale_card to_own_havale find_reveal
  item-IsShown l h k none e = tt
  item-IsShown l h k (some o) e =
      let seen = contains-find_revealed_ids l.id user.id (others_ids user.id rows) s.reveals in
      (
        record {
          row = l;
          stored = h.0;
          owner = o;
          owner_found = e;
          same = ground arith;
          kept = ground arith;
          active = ground arith;
          visible = ground (arith, satisfies-visibility_clause (some user) s l o ids top e);
          gives = record {
            text = ground (arith, seen);
            agency = ground (arith, seen);
            contact = ground (arith, seen);
            revealed = ground (arith, seen);
          };
        },
        tt,
      )

  items-IsShown :
      (ls : List Listing)
      → All (λ l. IsStored s l × (list_where env user f s l ≡ true)) ls
      → All (λ l. (l.owner_id == user.id || contains l.id (others_ids user.id rows)) ≡ true) ls
      → All (IsShown user access s) (items user access.active opened_ids s ls)
  unfolding items
  items-IsShown [] h k = tt
  items-IsShown (l ∷ ls) h k =
      All-joined (IsShown user access s)
        (item user access.active opened_ids l (find_user l.owner_id s))
        (items user access.active opened_ids s ls)
        (item-IsShown l h.0 k.0 (find_user l.owner_id s) refl) (items-IsShown ls h.1 k.1)

-- Where no two accounts share an identifier and the root of the viewer's network is under no other
-- account, every card of every page shows a row of the table that is neither deleted nor inactive,
-- whose owner is active and which the viewer may see. Its text, its agency and its contact are all on
-- the card if the listing is the viewer's own, or the viewer has an active subscription and a
-- recorded reveal of it, and none of the three otherwise.
pub list_page-IsShown :
    (env : Env) (user : User) (access : Access) (f : Filters) (wanted : ℕ) (s : Db)
    → HasUniqueIds s
    → IsTop s (network_root_of (some user))
    → All (IsShown user access s) (list_page env user access f wanted s).items
unfolding list_page list_rows
list_page-IsShown env user access f wanted s ids top =
    let size = page_size f.limit in
    let offset = (min wanted max_page - 1) * size in
    let rows = take size (skip offset (list_rows env user f s)) in
    let P : Listing → Type 0 = λ l. IsStored s l × (list_where env user f s l ≡ true) in
    items-IsShown env user access f s ids top rows rows
      (All-take P size (skip offset (list_rows env user f s)) (
        All-skip P offset (list_rows env user f s) (
          All-newest_first P (find_many (list_where env user f s) s.listings) (
            All-filtered (IsStored s) (list_where env user f s) s.listings
              (All-IsStored [] s.listings s refl)))))
      (others_ids-known user.id rows)
