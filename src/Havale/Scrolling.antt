-- ===== src/Havale/Scrolling.antt =====
-- `list` by a cursor, of backend/src/modules/havale/havale.service.js. A cursor is the time and the
-- identifier of the last row of the page before; its text is an encoding of the two.
use havale_khodro.Prelude.{
  ltb, ◌==◌, if◌then◌else◌, find_many, ℕ, ◌+◌, Bool, true, ◌&&◌, ◌||◌, Option, none, some, List, [],
  ◌∷◌, length,
}
use havale_khodro.Schema.Entities.{Listing, User, Env, Db}
use havale_khodro.Havale.Browsing.{list_where, Filters}
use havale_khodro.Havale.Cards.{Card}
use havale_khodro.Havale.Pages.{newest_first, take, page_size, items, find_revealed_ids, others_ids}
use havale_khodro.Access.{Access}

pub record Cursor : Type 0 where
  pub created_at : ℕ
  pub id : ℕ

-- The rows that come after the cursor in the order of the list.
abbrev pub past : Option Cursor → Listing → Bool
past none l = true
past (some c) l = ltb l.created_at c.created_at || (l.created_at == c.created_at && ltb l.id c.id)

abbrev pub cursor_of : Listing → Cursor
cursor_of l = record { created_at = l.created_at; id = l.id }

-- `havaleRepository.list` with a cursor.
unfoldable pub rows_past : Env → User → Filters → Option Cursor → ℕ → Db → List Listing
unfolding list_where newest_first find_many take
rows_past env user f cursor count s =
    take count
      (newest_first (find_many (λ l. list_where env user f s l && past cursor l) s.listings))

unfoldable pub last_of : Listing → List Listing → Listing
last_of l [] = l
last_of l (x ∷ xs) = last_of x xs

abbrev pub last_cursor : List Listing → Option Cursor
last_cursor [] = none
last_cursor (x ∷ xs) = some (cursor_of (last_of x xs))

pub record Stretch : Type 0 where
  pub rows : List Listing
  pub items : List Card
  pub next_cursor : Option Cursor

-- One row more than the page is read, to know whether there is a next one.
unfoldable pub list_past : Env → User → Access → Filters → Option Cursor → Db → Stretch
unfolding rows_past page_size items find_revealed_ids take last_of
list_past env user access f cursor s =
    let size = page_size f.limit in
    let rows = rows_past env user f cursor (size + 1) s in
    let has_next = ltb size (length rows) in
    let page = if has_next then take size rows else rows in
    let revealed =
      if access.active then find_revealed_ids (others_ids user.id page) user.id s else [] in
    record {
      rows = page;
      items = items user access.active revealed s page;
      next_cursor = if has_next then last_cursor page else none;
    }
