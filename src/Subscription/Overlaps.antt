-- ===== src/Subscription/Overlaps.antt =====
-- Reviews of seat orders that overlap: `reviewSeatOrder` of
-- backend/src/modules/subscription/subscription.service.js reads the order and looks at its status
-- first, and decides later, with what it read. Other requests may be served in between.
use havale_khodro.Prelude.{
  if◌then◌else◌, find_first, ℕ, String, Bool, Option, none, some, List, [], ◌∷◌, ltb, ◌==◌,
  Bool-cases, count_where, update_where, find_first_holds, find_first-update_where,
  find_first-append, find_first-count_where, ◌*◌, ◌≤◌, ◌≡◌, refl, inl, inr, true, false, arith,
  Option-cases, sym, ap, ◌∙◌, without_first,
}
use havale_khodro.Schema.Entities.{SeatOrder, Db, Env, User, StoredFile}
use havale_khodro.Subscription.Seats.{
  request_seats, acknowledge_seat_order, find_seat_order, has_order_id, decide_order,
  create_seat_order, approve_seat_order, own_order, reject_seat_order, reviewed_order, new_order,
  seat_price, review_seat_order,
}
use havale_khodro.Schema.Enums.{
  Target, order_pending, seat_order_approved, seat_order_rejected, Action, OrderStatus,
}
use havale_khodro.Exec.{
  after, Exec, ◌>>◌, pure, forbidden, not_found, not_reseller, order_row, writes, bad_request,
  receipt_required, ◌>>=◌,
}
use havale_khodro.Activity.{record_activity, record_activity-eq}
use havale_khodro.Exec.Laws.{Keeps, require-after, found-after, then-after, Keeps-then}
pub mod Waiting
pub mod Credited

-- The database, and the orders that reviews have read and not decided yet, as they were read.
pub record Office : Type 0 where
  pub db : Db
  pub in_review : List SeatOrder

-- What a review does before its transaction: the order, if it is there and pending.
unfoldable pub pending_order : ℕ → Db → Option SeatOrder
unfolding find_seat_order
pending_order id s = elim (find_seat_order id s) [
  | none ↦ none
  | some o ↦ if order_pending o.status then some o else none
]

-- What it does from the transaction on, with the order as it was read.
unfoldable pub finish_review : Env → User → SeatOrder → Bool → Option String → Exec ℕ
unfolding decide_order record_activity
finish_review env actor order approve n = do
  decide_order approve env actor order n
  record_activity env actor.id (if approve then seat_order_approved else seat_order_rejected)
      Target.seat_order order.id
  pure order.id

pub data Step : Type 0 where
  order_it : Env → User → ℕ → Option String → Option StoredFile → Step
  acknowledge_it : Env → User → ℕ → Step
  take_up : ℕ → Step
  decide_it : Env → User → ℕ → Bool → Option String → Step

unfoldable pub taken : Option SeatOrder → Office → Office
taken none x = x
taken (some o) x = record x { in_review = o ∷ x.in_review }

unfoldable pub concluded :
    Env → User → ℕ → Bool → Option String → Option SeatOrder → Office → Office
unfolding finish_review without_first
concluded env actor id approve n none x = x
concluded env actor id approve n (some o) x = record {
  db = after (finish_review env actor o approve n x.db);
  in_review = without_first (has_order_id id) x.in_review;
}

unfoldable pub step : Step → Office → Office
unfolding pending_order taken concluded find_first request_seats acknowledge_seat_order
step (order_it env user seats n file) x = record x {
  db = after (request_seats env user seats n file x.db);
}
step (acknowledge_it env user id) x = record x {
  db = after (acknowledge_seat_order env user id x.db);
}
step (take_up id) x = taken (pending_order id x.db) x
step (decide_it env actor id approve n) x =
    concluded env actor id approve n (find_first (has_order_id id) x.in_review) x

unfoldable pub run : Office → List Step → Office
unfolding step
run x [] = x
run x (q ∷ rest) = run (step q x) rest

-- No review takes up an order that another one has taken up and not decided.
unfoldable pub IsAlone : Step → Office → Type 0
IsAlone (take_up id) x = count_where (has_order_id id) x.in_review ≡ 0
IsAlone (order_it env user seats n file) x = Unit {0}
IsAlone (acknowledge_it env user id) x = Unit {0}
IsAlone (decide_it env actor id approve n) x = Unit {0}

unfoldable pub IsApart : Office → List Step → Type 0
unfolding step
IsApart x [] = Unit {0}
IsApart x (q ∷ rest) = IsAlone q x × IsApart (step q x) rest
