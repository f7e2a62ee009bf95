-- ===== src/Examples/Havale.antt =====
-- The market of sale orders at the example database.
use havale_khodro.Prelude.{◌≡◌, refl, true, false, none, some, [], ◌∷◌, find_first, All, map, arith}
use havale_khodro.Schema.Entities.{Db, Listing, User}
use havale_khodro.Havale.Lifecycle.{renew, mark_fulfilled, closing_date, remove}
use havale_khodro.Subscription.Entitlement.{resolve_access}
use havale_khodro.Havale.Cards.{Card, to_havale_card}
use havale_khodro.Examples.Fixtures.{market, advertisement, noon, independent, child}
use havale_khodro.Access.{Access}
use havale_khodro.Havale.Store.{find_by_id}
use havale_khodro.Schema.Enums.{ListingStatus, Kind}
use havale_khodro.Exec.{done, thrown, not_found, havale_row}
use havale_khodro.Havale.Confidence.{IsConfident, get_by_id-IsConfident}
use havale_khodro.Havale.Opening.{get_by_id}
use havale_khodro.Subscription.Store.{find_live}
use havale_khodro.Havale.Ownership.{renew-mark_fulfilled, renew-owns, owns}
use havale_khodro.Havale.Browsing.{Filters}
use havale_khodro.Havale.Pages.{Page, list_page, page_size, list_rows}
use havale_khodro.Activity.{find_user}
use havale_khodro.Havale.Listed.{IsShown, list_page-IsShown}
use havale_khodro.Network.{network_root_of}
use havale_khodro.Havale.Walking.{turned_ids, owned_ids, turned_ids-list_rows}
use havale_khodro.Havale.Stretches.{follow}

-- The listing of the independent agency, taken down by the staff.
abbrev taken_down : Db
taken_down = record market {
  listings = record (advertisement 40 3) { status = ListingStatus.suspended } ∷ [];
}

abbrev the_listing : Listing
the_listing = record (advertisement 40 3) { status = ListingStatus.suspended }

renew-mark_fulfilled_example :
    (t u : Db) × (m : Listing) × (mark_fulfilled noon independent 40 taken_down ≡ done 40 t)
    × (renew noon independent 40 none (some 5) t ≡ done 40 u)
    × (find_by_id 40 u ≡ some (m, independent))
    × (m.status ≡ ListingStatus.active)
    × (m.closes_at ≡ closing_date Kind.offer (some 5) 31579200000)
unfolding find_by_id
renew-mark_fulfilled_example =
    renew-mark_fulfilled noon noon independent 40 none (some 5) taken_down the_listing independent
      refl refl

renew-owns_example :
    (renew noon child 40 none none market ≡ thrown (not_found havale_row) market)
    × (mark_fulfilled noon child 40 market ≡ thrown (not_found havale_row) market)
    × (remove noon child 40 market ≡ thrown (not_found havale_row) market)
unfolding owns
renew-owns_example = renew-owns noon child 40 none none market refl

abbrev subscriber : Access
unfolding resolve_access
subscriber = resolve_access noon child market

abbrev shown : Card
shown = to_havale_card (advertisement 40 3) independent true false

get_by_id-IsConfident_example :
    (l : Listing) × (o : User) × (find_by_id 40 market ≡ some (l, o))
    × IsConfident child subscriber market l o shown
    × (market ≡ market)
unfolding get_by_id subscriber find_live
get_by_id-IsConfident_example = get_by_id-IsConfident child subscriber 40 market market shown refl

-- The first page, without filters.
abbrev everything : Filters
everything = record {
  kind = none;
  car_model_ids = none;
  min_amount = none;
  max_amount = none;
  max_delivery_days = none;
  others = λ l. true;
  mine = false;
  limit = none;
}

abbrev first_page : Page
first_page = list_page noon child subscriber everything 1 market

list_page-IsShown_example : All (IsShown child subscriber market) first_page.items
unfolding find_user find_first network_root_of
list_page-IsShown_example =
    list_page-IsShown noon child subscriber everything 1 market
      (refl, (refl, (refl, (refl, (refl, tt))))) (λ r h. ground arith)

-- Both listings are on it.
first_page_ids : map (λ c. c.id) first_page.items ≡ 41 ∷ 40 ∷ []
unfolding list_page subscriber find_live
first_page_ids = refl

turned_ids-list_rows_example :
    turned_ids noon child subscriber everything 1 market
    ≡ owned_ids market (list_rows noon child everything market)
unfolding list_rows page_size list_page
turned_ids-list_rows_example =
    turned_ids-list_rows noon child subscriber everything 1 market (omega arith) (omega arith)

-- One row to a page, and the cursors from page to page.
abbrev one_by_one : Filters
one_by_one = record everything { limit = some 1 }

followed_ids :
    map (λ l. l.id) (follow noon child subscriber one_by_one 2 none market) ≡ 41 ∷ 40 ∷ []
unfolding follow subscriber find_live
followed_ids = refl
