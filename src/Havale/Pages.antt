-- ===== src/Havale/Pages.antt =====
-- `list` by numbered pages, of backend/src/modules/havale/havale.service.js.
use havale_khodro.Prelude.{
  ltb, ◌==◌, if◌then◌else◌, get_or, find_many, ℕ, zero, suc, ◌-◌, ◌*◌, Bool, not, ◌&&◌, ◌||◌,
  Option, none, some, List, [], ◌∷◌, ◌++◌, map, min, max, count_where,
}
use havale_khodro.Schema.Entities.{Listing, User, Env, Db}
use havale_khodro.Havale.Browsing.{
  list_where, Filters, max_page, given_bound, default_page_size, max_page_size,
}
use havale_khodro.Network.{contains}
use havale_khodro.Activity.{find_user}
use havale_khodro.Havale.Cards.{Card, to_own_havale, to_havale_card}
use havale_khodro.Access.{Access}
use havale_khodro.Subscription.Entitlement.{ceil_div}

-- `orderBy: [{ createdAt: 'desc' }, { id: 'desc' }]`
abbrev pub newer : Listing → Listing → Bool
newer a b = ltb b.created_at a.created_at || (b.created_at == a.created_at && ltb b.id a.id)

unfoldable pub insert_newest : Listing → List Listing → List Listing
insert_newest l [] = l ∷ []
insert_newest l (x ∷ xs) =
    let rest = insert_newest l xs in if newer l x then l ∷ x ∷ xs else x ∷ rest

unfoldable pub newest_first : List Listing → List Listing
unfolding insert_newest
newest_first [] = []
newest_first (x ∷ xs) = insert_newest x (newest_first xs)

unfoldable pub take : {A : Type 0} → ℕ → List A → List A
take zero xs = []
take (suc n) [] = []
take (suc n) (x ∷ xs) = x ∷ take n xs

unfoldable pub skip : {A : Type 0} → ℕ → List A → List A
skip zero xs = xs
skip (suc n) [] = []
skip (suc n) (x ∷ xs) = skip n xs

-- `limit || DEFAULT`, capped.
unfoldable pub page_size : Option ℕ → ℕ
page_size limit = min (get_or (given_bound limit) default_page_size) max_page_size

-- `havaleRepository.count`
unfoldable pub count_listings : Env → User → Filters → Db → ℕ
unfolding list_where count_where
count_listings env user f s = count_where (list_where env user f s) s.listings

unfoldable pub list_rows : Env → User → Filters → Db → List Listing
unfolding list_where newest_first find_many
list_rows env user f s = newest_first (find_many (list_where env user f s) s.listings)

-- Which of these listings this viewer has opened.
unfoldable pub find_revealed_ids : List ℕ → ℕ → Db → List ℕ
unfolding contains find_many
find_revealed_ids ids viewer_id s =
    map (λ r. r.listing_id)
      (find_many (λ r. r.viewer_id == viewer_id && contains r.listing_id ids) s.reveals)

abbrev pub others_ids : ℕ → List Listing → List ℕ
unfolding find_many
others_ids viewer_id rows = map (λ l. l.id) (find_many (λ l. not (l.owner_id == viewer_id)) rows)

-- A row of the list, whose owner the foreign key provides.
unfoldable pub item : User → Bool → List ℕ → Listing → Option User → List Card
unfolding contains to_own_havale to_havale_card
item user active revealed l none = []
item user active revealed l (some o) =
    (if l.owner_id == user.id
      then to_own_havale l o
      else to_havale_card l o active (contains l.id revealed))
    ∷ []

unfoldable pub items : User → Bool → List ℕ → Db → List Listing → List Card
unfolding item find_user
items user active revealed s [] = []
items user active revealed s (l ∷ ls) =
    item user active revealed l (find_user l.owner_id s) ++ items user active revealed s ls

pub record Page : Type 0 where
  pub items : List Card
  pub total : ℕ
  pub page : ℕ
  pub pages : ℕ

-- The rows of a numbered page.
unfoldable pub page_rows : ℕ → ℕ → List Listing → List Listing
unfolding take skip
page_rows size wanted rows = take size (skip ((min wanted max_page - 1) * size) rows)

-- The numbered pages, which start at 1.
unfoldable pub list_page : Env → User → Access → Filters → ℕ → Db → Page
unfolding count_listings page_rows list_rows page_size items find_revealed_ids take skip
list_page env user access f wanted s =
    let size = page_size f.limit in
    let page = min wanted max_page in
    let all_rows = list_rows env user f s in
    let rows = page_rows size wanted all_rows in
    let total = count_listings env user f s in
    let revealed =
      if access.active then find_revealed_ids (others_ids user.id rows) user.id s else [] in
    record {
      items = items user access.active revealed s rows;
      total = total;
      page = page;
      pages = max 1 (ceil_div total size);
    }
