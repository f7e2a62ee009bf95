-- ===== src/Havale/Walking.antt =====
-- The numbered pages one after another (backend/src/modules/havale/havale.service.js).
use havale_khodro.Prelude.{
  ◌≡◌, arith, length, ℕ, zero, suc, ◌+◌, ◌*◌, ◌≤◌, refl, ap, ◌∙◌, List, [], ◌∷◌, ◌++◌, ◌-◌, min,
  find_many, Bool, if◌then◌else◌, present, length-find_many, append_assoc, sym, Option, none, some,
  map,
}
use havale_khodro.Havale.Pages.{
  page_rows, take, skip, list_rows, page_size, insert_newest, newest_first, count_listings,
  list_page, item, items, find_revealed_ids, others_ids,
}
use havale_khodro.Schema.Entities.{Env, Listing, User, Db}
use havale_khodro.Havale.Browsing.{max_page, Filters, list_where}
use native.Mathlib.Numerals.{unary_clauses}
use havale_khodro.Access.{Access}
use havale_khodro.Activity.{find_user}
use havale_khodro.Havale.Cards.{Card, to_own_havale, to_havale_card}

-- The pages from the first to the n-th.
unfoldable pub first_pages : ℕ → ℕ → List Listing → List Listing
unfolding page_rows
first_pages size zero rows = []
first_pages size (suc n) rows = first_pages size n rows ++ page_rows size (suc n) rows

take-add : (a b : ℕ) (xs : List Listing) → take (a + b) xs ≡ take a xs ++ take b (skip a xs)
unfolding take skip
take-add zero b xs = ap (λ m. take m xs) (omega arith)
take-add (suc a) zero [] = simp unary_clauses refl
take-add (suc a) (suc b) [] = simp unary_clauses refl
take-add (suc a) b (x ∷ xs) =
    let q : suc a + b ≡ suc (a + b) = omega arith in
    ap (λ m. take m (x ∷ xs)) q ∙ ap (λ ys. x ∷ ys) (take-add a b xs)

take-length : (n : ℕ) (xs : List Listing) → length xs ≤ n → take n xs ≡ xs
unfolding take
take-length zero [] h = refl
take-length zero (x ∷ xs) h = ground arith
take-length (suc n) [] h = refl
take-length (suc n) (x ∷ xs) h = ap (λ ys. x ∷ ys) (take-length n xs (omega arith))

first_pages-take :
    (size n : ℕ) (rows : List Listing)
    → n ≤ max_page
    → first_pages size n rows ≡ take (n * size) rows
unfolding first_pages take page_rows
first_pages-take size zero rows h = let q : 0 * size ≡ 0 = omega arith in rw q refl
first_pages-take size (suc n) rows h =
    let q : suc n * size ≡ n * size + size = omega arith in
    let m : min (suc n) max_page - 1 ≡ n = omega arith in
    rw (q, take-add (n * size) size rows, m)
      (ap (λ ys. ys ++ take size (skip (n * size) rows))
        (first_pages-take size n rows (omega arith)))

length-insert_newest :
    (l : Listing) (xs : List Listing) → length (insert_newest l xs) ≡ length xs + 1
unfolding insert_newest
length-insert_newest l [] = omega arith
length-insert_newest l (x ∷ xs) = ground (arith, length-insert_newest l xs)

length-newest_first : (xs : List Listing) → length (newest_first xs) ≡ length xs
unfolding newest_first
length-newest_first [] = refl
length-newest_first (x ∷ xs) =
    omega (arith, length-insert_newest x (newest_first xs), length-newest_first xs)

-- The number that the query counts is the number of rows that it lists.
count_listings-list_rows :
    (env : Env) (user : User) (f : Filters) (s : Db)
    → length (list_rows env user f s) ≡ count_listings env user f s
unfolding list_rows count_listings
count_listings-list_rows env user f s =
    length-newest_first (find_many (list_where env user f s) s.listings)
    ∙ length-find_many (list_where env user f s) s.listings

-- The identifiers of the rows that have an owner, which the foreign key gives every row.
unfoldable pub owned_ids : Db → List Listing → List ℕ
unfolding find_user
owned_ids s [] = []
owned_ids s (l ∷ ls) =
    (if present (find_user l.owner_id s) then l.id ∷ [] else []) ++ owned_ids s ls

abbrev pub card_ids : List Card → List ℕ
card_ids cards = map (λ c. c.id) cards

card_ids-append : (xs ys : List Card) → card_ids (xs ++ ys) ≡ card_ids xs ++ card_ids ys
card_ids-append [] ys = refl
card_ids-append (x ∷ xs) ys = ap (λ r. x.id ∷ r) (card_ids-append xs ys)

owned_ids-append :
    (s : Db) (xs ys : List Listing) → owned_ids s (xs ++ ys) ≡ owned_ids s xs ++ owned_ids s ys
unfolding owned_ids
owned_ids-append s [] ys = refl
owned_ids-append s (x ∷ xs) ys =
    ap (λ r. (if present (find_user x.owner_id s) then x.id ∷ [] else []) ++ r)
      (owned_ids-append s xs ys)
    ∙ sym (append_assoc (if present (find_user x.owner_id s) then x.id ∷ [] else []) _ _)

-- A card bears the identifier of its row, whatever it gives away.
item_ids :
    (user : User) (active : Bool) (revealed : List ℕ) (l : Listing) (o : Option User)
    → card_ids (item user active revealed l o) ≡ (if present o then l.id ∷ [] else [])
unfolding item to_own_havale to_havale_card
item_ids user active revealed l none = refl
item_ids user active revealed l (some o) = ground arith

items_ids :
    (user : User) (active : Bool) (revealed : List ℕ) (s : Db) (ls : List Listing)
    → card_ids (items user active revealed s ls) ≡ owned_ids s ls
unfolding items owned_ids
items_ids user active revealed s [] = refl
items_ids user active revealed s (l ∷ ls) =
    card_ids-append (item user active revealed l (find_user l.owner_id s)) _
    ∙ ap (λ r. r ++ card_ids (items user active revealed s ls))
        (item_ids user active revealed l (find_user l.owner_id s))
    ∙ ap (λ r. (if present (find_user l.owner_id s) then l.id ∷ [] else []) ++ r)
        (items_ids user active revealed s ls)

page_ids :
    (env : Env) (user : User) (access : Access) (f : Filters) (n : ℕ) (s : Db)
    → card_ids (list_page env user access f n s).items
      ≡ owned_ids s (page_rows (page_size f.limit) n (list_rows env user f s))
unfolding list_page
page_ids env user access f n s =
    let rows = page_rows (page_size f.limit) n (list_rows env user f s) in
    items_ids user access.active
      (if access.active then find_revealed_ids (others_ids user.id rows) user.id s else []) s rows

-- The identifiers on the pages from the first to the n-th, as they are served.
unfoldable pub turned_ids : Env → User → Access → Filters → ℕ → Db → List ℕ
unfolding list_page
turned_ids env user access f zero s = []
turned_ids env user access f (suc n) s =
    turned_ids env user access f n s ++ card_ids (list_page env user access f (suc n) s).items

turned_ids-first_pages :
    (env : Env) (user : User) (access : Access) (f : Filters) (n : ℕ) (s : Db)
    → turned_ids env user access f n s
      ≡ owned_ids s (first_pages (page_size f.limit) n (list_rows env user f s))
unfolding turned_ids first_pages owned_ids
turned_ids-first_pages env user access f zero s = refl
turned_ids-first_pages env user access f (suc n) s =
    ap (λ r. r ++ card_ids (list_page env user access f (suc n) s).items)
      (turned_ids-first_pages env user access f n s)
    ∙ ap (λ r. owned_ids s (first_pages (page_size f.limit) n (list_rows env user f s)) ++ r)
        (page_ids env user access f (suc n) s)
    ∙ sym (owned_ids-append s (first_pages (page_size f.limit) n (list_rows env user f s)) _)

first_pages-list_rows :
    (env : Env) (user : User) (access : Access) (f : Filters) (n : ℕ) (s : Db)
    → n ≤ max_page
    → (list_page env user access f 1 s).total ≤ n * page_size f.limit
    → first_pages (page_size f.limit) n (list_rows env user f s) ≡ list_rows env user f s
unfolding list_page
first_pages-list_rows env user access f n s h k =
    first_pages-take (page_size f.limit) n (list_rows env user f s) h
    ∙ take-length (n * page_size f.limit) (list_rows env user f s)
        (rw (count_listings-list_rows env user f s) k)

-- Whoever turns the pages of the list one after another is shown a card for every row that the list has
-- and whose owner is there, once and in order, if the pages are no more than the deepest page that
-- is served and have room for the total that each page states, and the table and the clock stay as
-- they are.
pub turned_ids-list_rows :
    (env : Env) (user : User) (access : Access) (f : Filters) (n : ℕ) (s : Db)
    → n ≤ max_page
    → (list_page env user access f 1 s).total ≤ n * page_size f.limit
    → turned_ids env user access f n s ≡ owned_ids s (list_rows env user f s)
turned_ids-list_rows env user access f n s h k =
    turned_ids-first_pages env user access f n s
    ∙ ap (owned_ids s) (first_pages-list_rows env user access f n s h k)
