-- ===== src/Subscription/Seats.antt =====
-- Capacity for sub-agencies: the seat orders of
-- backend/src/modules/subscription/subscription.service.js and subscription.repository.js. An
-- uploaded file reaches the service as `toStoredFile` made it.
use havale_khodro.Prelude.{
  ltb, leb, ◌==◌, if◌then◌else◌, get_or, present, find_first, find_many, count_where, update_where,
  ℕ, ◌+◌, ◌-◌, ◌*◌, String, Bool, true, false, not, ◌&&◌, ◌||◌, Option, none, some, List, [], ◌∷◌,
  ◌++◌,
}
use havale_khodro.Exec.{
  ◌>>=◌, ◌>>◌, Exec, require, reads, writes, forbidden, found, not_found, not_reseller, receipt_row,
  order_row, bad_request, receipt_required, order_already_reviewed, pure,
}
use havale_khodro.Schema.Entities.{Db, Env, SeatOrder, User, Subscription, StoredFile}
use havale_khodro.Schema.Enums.{
  OrderStatus, account_active, pending, order_pending, Permission, seat_order_approved,
  seat_order_rejected, Target,
}
use havale_khodro.Subscription.Entitlement.{resolve_access}
use havale_khodro.Roles.{user_can}
use havale_khodro.Activity.{record_activity}

-- `settingsService.get('seat.priceToman')`
abbrev pub seat_price : Db → ℕ
seat_price s = get_or s.seat_price_row 1000000

abbrev pub new_order : Env → ℕ → ℕ → ℕ → ℕ → ℕ → Option String → StoredFile → SeatOrder
new_order env id buyer_id seats unit_price total n receipt = record {
  id = id;
  buyer_id = buyer_id;
  seats = seats;
  unit_price_toman = unit_price;
  total_toman = total;
  status = OrderStatus.pending;
  buyer_note = n;
  admin_note = none;
  receipt = some receipt;
  reviewed_by = none;
  reviewed_at = none;
  acknowledged_at = none;
  created_at = env.now;
}

abbrev pub has_order_id : ℕ → SeatOrder → Bool
has_order_id id o = o.id == id

abbrev pub is_child : ℕ → User → Bool
is_child parent_id u = elim u.parent_id [ none ↦ false | some p ↦ p == parent_id ]

unfoldable pub create_seat_order : Env → ℕ → ℕ → ℕ → ℕ → Option String → StoredFile → Db → Db
create_seat_order env buyer_id seats unit_price total n receipt s = record s {
  seat_orders =
      s.seat_orders ++ new_order env s.next_id buyer_id seats unit_price total n receipt ∷ [];
  next_id = s.next_id + 1;
}

unfoldable pub find_seat_order : ℕ → Db → Option SeatOrder
find_seat_order id s = find_first (has_order_id id) s.seat_orders

abbrev pub order_settled : OrderStatus → Bool
order_settled pending = false
order_settled _ = true

unfoldable pub list_unacknowledged_seat_orders : ℕ → Db → List SeatOrder
list_unacknowledged_seat_orders buyer_id s =
    find_many
      (λ o. o.buyer_id == buyer_id && order_settled o.status && not (present o.acknowledged_at))
      s.seat_orders

abbrev pub reviewed_order : Env → OrderStatus → ℕ → Option String → SeatOrder → SeatOrder
reviewed_order env status reviewer_id n o = record o {
  status = status;
  reviewed_by = some reviewer_id;
  reviewed_at = some env.now;
  admin_note = n;
}

abbrev pub credited : ℕ → User → User
credited seats u = record u { seat_credits = u.seat_credits + seats }

-- The order and the capacity are one transaction.
unfoldable pub approve_seat_order : Env → ℕ → ℕ → ℕ → ℕ → Option String → Db → Db
approve_seat_order env order_id reviewer_id seats buyer_id n s = record s {
  seat_orders =
      update_where (has_order_id order_id) (reviewed_order env OrderStatus.paid reviewer_id n)
        s.seat_orders;
  users = update_where (λ u. u.id == buyer_id) (credited seats) s.users;
}

unfoldable pub reject_seat_order : Env → ℕ → ℕ → Option String → Db → Db
reject_seat_order env order_id reviewer_id n s = record s {
  seat_orders =
      update_where (has_order_id order_id) (reviewed_order env OrderStatus.rejected reviewer_id n)
        s.seat_orders;
}

-- An account that holds a seat: it is active, or it was suspended within the period.
abbrev pub holds_seat : ℕ → ℕ → User → Bool
holds_seat parent_id period_start u =
    is_child parent_id u
    && (account_active u.status
        || elim u.suspended_at [ none ↦ false | some t ↦ leb period_start t ])

unfoldable pub count_seats_used : ℕ → Option ℕ → Db → ℕ
count_seats_used parent_id period_start s =
    count_where (holds_seat parent_id (get_or period_start 0)) s.users

unfoldable pub count_active_children : ℕ → Db → ℕ
count_active_children parent_id s =
    count_where (λ u. is_child parent_id u && account_active u.status) s.users

pub record SeatSummary : Type 0 where
  pub is_reseller : Bool
  pub credits : ℕ
  pub used : ℕ
  pub available : ℕ
  pub active_sub_agents : ℕ
  pub unit_price_toman : ℕ

-- `Math.max(0, credits - used)` is the subtraction that stops at 0.
unfoldable pub seat_summary : Env → User → Db → SeatSummary
seat_summary env user s =
    let access = resolve_access env user s in
    let used = count_seats_used user.id access.period_start s in
    record {
      is_reseller = user.is_reseller;
      credits = user.seat_credits;
      used = used;
      available = user.seat_credits - used;
      active_sub_agents = count_active_children user.id s;
      unit_price_toman = seat_price s;
    }

pub record InvoiceLine : Type 0 where
  pub quantity : ℕ
  pub unit_toman : ℕ
  pub total_toman : ℕ

pub record Invoice : Type 0 where
  pub period_ends_at : Option ℕ
  pub plan_line : InvoiceLine
  pub seat_line : InvoiceLine
  pub total_toman : ℕ

abbrev pub price_of : Option Subscription → ℕ
price_of none = 0
price_of (some x) = x.price_toman

unfoldable pub invoice_for : Env → User → Db → Invoice
invoice_for env user s =
    let access = resolve_access env user s in
    let active = count_active_children user.id s in
    let plan_price = price_of access.subscription in
    let seats_total = active * seat_price s in
    record {
      period_ends_at = access.expires_at;
      plan_line = record { quantity = 1; unit_toman = plan_price; total_toman = plan_price };
      seat_line = record {
        quantity = active;
        unit_toman = seat_price s;
        total_toman = seats_total;
      };
      total_toman = plan_price + seats_total;
    }

-- The result is the order's id, by which the caller can read the row.
unfoldable pub request_seats : Env → User → ℕ → Option String → Option StoredFile → Exec ℕ
request_seats env user seats n receipt_file = do
  require user.is_reseller (forbidden not_reseller)
  receipt ← found receipt_file (bad_request receipt_required)
  unit_price ← reads seat_price
  id ← reads (λ s. s.next_id)
  writes (create_seat_order env user.id seats unit_price (seats * unit_price) n receipt)
  pure id

-- A stranger is told that there is no such order.
unfoldable pub seat_order_receipt : User → ℕ → Exec StoredFile
seat_order_receipt user order_id = do
  it ← reads (find_seat_order order_id)
  order ← found it (not_found receipt_row)
  receipt ← found order.receipt (not_found receipt_row)
  require (user_can (some user) Permission.seats || order.buyer_id == user.id)
      (not_found receipt_row)
  pure receipt

unfoldable pub decide_order : Bool → Env → User → SeatOrder → Option String → Exec (Unit {0})
decide_order true env actor o n = writes (approve_seat_order env o.id actor.id o.seats o.buyer_id n)
decide_order false env actor o n = writes (reject_seat_order env o.id actor.id n)

-- The status is looked at outside the transaction of the decision, and no lock is taken: this is a
-- decision that no other one overlaps. One that overlaps is `decide_order` on an order that was read
-- before.
unfoldable pub review_seat_order : Env → User → ℕ → Bool → Option String → Exec ℕ
unfolding decide_order find_seat_order record_activity
review_seat_order env actor order_id approve n = do
  it ← reads (find_seat_order order_id)
  order ← found it (not_found order_row)
  require (order_pending order.status) (bad_request order_already_reviewed)
  decide_order approve env actor order n
  record_activity env actor.id (if approve then seat_order_approved else seat_order_rejected)
      Target.seat_order order_id
  pure order_id

abbrev pub own_order : ℕ → ℕ → SeatOrder → Bool
own_order id buyer_id o = has_order_id id o && o.buyer_id == buyer_id

-- Nobody dismisses another's notification.
unfoldable pub acknowledge_seat_order : Env → User → ℕ → Exec (Unit {0})
unfolding count_where update_where
acknowledge_seat_order env user order_id = do
  count ← reads (λ s. count_where (own_order order_id user.id) s.seat_orders)
  require (ltb 0 count) (not_found order_row)
  writes (λ s. record s {
    seat_orders =
        update_where (own_order order_id user.id) (λ o. record o { acknowledged_at = some env.now })
          s.seat_orders;
  })
