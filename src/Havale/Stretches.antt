-- ===== src/Havale/Stretches.antt =====
-- The list by its cursors, one stretch after another (backend/src/modules/havale/havale.service.js).
use havale_khodro.Havale.Browsing.{Filters}
use havale_khodro.Havale.Scrolling.{Cursor, list_past}
use havale_khodro.Schema.Entities.{Listing, User, Env, Db}
use havale_khodro.Access.{Access}
use havale_khodro.Prelude.{ℕ, zero, suc, Option, none, some, List, [], ◌++◌}

abbrev pub on_from : Option Cursor → (Option Cursor → List Listing) → List Listing
on_from none more = []
on_from (some next) more = more (some next)

-- The rows that a client reads who follows the cursors, for at most so many stretches.
unfoldable pub follow : Env → User → Access → Filters → ℕ → Option Cursor → Db → List Listing
unfolding list_past
follow env user access f zero cursor s = []
follow env user access f (suc n) cursor s =
    let stretch = list_past env user access f cursor s in
    stretch.rows ++ on_from stretch.next_cursor (λ next. follow env user access f n next s)
