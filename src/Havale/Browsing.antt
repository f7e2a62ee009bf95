-- ===== src/Havale/Browsing.antt =====
-- `publicWhere` and the whole condition of `list` of
-- backend/src/modules/havale/havale.service.js. The tests on columns that the model leaves out
-- (`solh`, `model`, `brandIds`,
-- `carType`, `supplierCompany`, `carColors`) are one test of the filters, `others`.
use havale_khodro.Prelude.{
  ltb, leb, ◌==◌, if◌then◌else◌, present, ℕ, Bool, true, false, not, ◌&&◌, Option, none, some, List,
}
use havale_khodro.Schema.Enums.{
  Kind, account_active, listing_active, same_market, Market, same_kind,
}
use havale_khodro.Network.{contains, satisfies, visibility_clause, network_filter}
use havale_khodro.Schema.Entities.{User, Listing, Env, Db}
use havale_khodro.Activity.{find_user}

pub record Filters : Type 0 where
  pub kind : Option Kind
  pub car_model_ids : Option (List ℕ)
  pub min_amount : Option ℕ
  pub max_amount : Option ℕ
  pub max_delivery_days : Option ℕ
  pub others : Listing → Bool
  pub mine : Bool
  pub limit : Option ℕ

abbrev pub max_page_size : ℕ
max_page_size = 50

abbrev pub max_page : ℕ
max_page = 50

abbrev pub default_page_size : ℕ
default_page_size = 20

-- JavaScript's truth of a number: 0 filters nothing.
abbrev pub given_bound : Option ℕ → Option ℕ
given_bound none = none
given_bound (some n) = if n == 0 then none else some n

-- A comparison with a missing value is false.
abbrev holds_for : Option ℕ → (ℕ → Bool) → Bool
holds_for none p = false
holds_for (some n) p = p n

abbrev filtered : Option ℕ → (ℕ → Bool) → Bool
filtered none p = true
filtered (some bound) p = p bound

abbrev kind_passes : Option Kind → Kind → Bool
kind_passes none k = true
kind_passes (some a) k = same_kind a k

abbrev model_passes : Option (List ℕ) → Option ℕ → Bool
unfolding contains
model_passes none m = true
model_passes (some ids) m = holds_for m (λ i. contains i ids)

abbrev pub owner_active : Option User → Bool
owner_active none = false
owner_active (some o) = account_active o.status

-- `publicWhere`
unfoldable pub public_where : Env → Filters → Db → Listing → Bool
unfolding find_user contains
public_where env f s l =
    not (present l.deleted_at)
    && listing_active l.status
    && holds_for l.closes_at (λ t. ltb env.now t)
    && owner_active (find_user l.owner_id s)
    && kind_passes f.kind l.kind
    && model_passes f.car_model_ids l.car_model_id
    && filtered (given_bound f.min_amount) (λ b. holds_for l.amount_toman (λ a. leb b a))
    && filtered (given_bound f.max_amount) (λ b. holds_for l.amount_toman (λ a. leb a b))
    && filtered (given_bound f.max_delivery_days) (λ b. holds_for l.delivery_days (λ d. leb d b))
    && f.others l

-- The viewer's own network, when the filter asks for it and there is one.
abbrev own_network : Bool → Option (List ℕ) → Listing → Bool
unfolding contains
own_network mine none l = true
own_network false (some members) l = true
own_network true (some members) l = contains l.owner_id members

-- The whole condition of the list query.
unfoldable pub list_where : Env → User → Filters → Db → Listing → Bool
unfolding public_where satisfies visibility_clause network_filter
list_where env user f s l =
    same_market l.market Market.havale
    && public_where env f s l
    && satisfies (visibility_clause (some user) s) l
    && own_network f.mine (network_filter (some user) s) l
