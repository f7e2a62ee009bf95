-- ===== src/Subscription/Overlaps/Waiting.antt =====
-- What a review has read of a seat order holds while it is not decided
-- (backend/src/modules/subscription/subscription.service.js).
use havale_khodro.Prelude.{
  if◌then◌else◌, find_first, ℕ, String, Bool, Option, some, [], ◌∷◌, ltb, ◌==◌, Bool-cases,
  count_where, update_where, find_first_holds, find_first-update_where, find_first-append, ◌*◌, ◌≡◌,
  refl, inl, inr, true, false, arith, Option-cases, sym, ap, ◌∙◌,
}
use havale_khodro.Schema.Entities.{SeatOrder, Db, Env, User, StoredFile}
use havale_khodro.Subscription.Seats.{
  request_seats, acknowledge_seat_order, find_seat_order, has_order_id, decide_order,
  create_seat_order, approve_seat_order, own_order, reject_seat_order, reviewed_order, new_order,
  seat_price,
}
use havale_khodro.Schema.Enums.{Target, order_pending, Action, OrderStatus}
use havale_khodro.Exec.{
  after, forbidden, not_found, not_reseller, order_row, writes, bad_request, receipt_required,
}
use havale_khodro.Activity.{record_activity, record_activity-eq}
use havale_khodro.Exec.Laws.{Keeps, require-after, found-after}
use havale_khodro.Subscription.Overlaps.{pending_order}

-- The order is still pending, and what was read of it still holds.
pub record IsWaiting (o : SeatOrder) (s : Db) : Type 0 where
  pub row : SeatOrder
  pub row_found : find_first (has_order_id o.id) s.seat_orders ≡ some row
  pub undecided : order_pending row.status ≡ true
  pub same_seats : row.seats ≡ o.seats
  pub same_buyer : row.buyer_id ≡ o.buyer_id

pub record_activity-IsWaiting :
    (o : SeatOrder) (env : Env) (user_id : ℕ) (action : Action) (target : Target) (id : ℕ)
    → Keeps (IsWaiting o) (record_activity env user_id action target id)
record_activity-IsWaiting o env user_id action target id s t =
    let (rows, e) = record_activity-eq env user_id action target id s in
    rw e (record {
      row = t.row;
      row_found = t.row_found;
      undecided = t.undecided;
      same_seats = t.same_seats;
      same_buyer = t.same_buyer;
    })

pub request_seats-IsWaiting :
    (o : SeatOrder) (env : Env) (user : User) (seats : ℕ) (n : Option String)
    (file : Option StoredFile)
    → Keeps (IsWaiting o) (request_seats env user seats n file)
unfolding request_seats create_seat_order
request_seats-IsWaiting o env user seats n file s t =
    require-after (IsWaiting o) user.is_reseller (forbidden not_reseller) _ s t (λ p.
      found-after (IsWaiting o) file (bad_request receipt_required) _ s t (λ receipt e.
        let new =
          new_order env s.next_id user.id seats (seat_price s) (seats * seat_price s) n receipt in
        record {
          row = t.row;
          row_found =
              ground (
                arith,
                find_first-append (has_order_id o.id) s.seat_orders (new ∷ []),
                t.row_found,
              );
          undecided = t.undecided;
          same_seats = t.same_seats;
          same_buyer = t.same_buyer;
        }))

pub acknowledge_seat_order-IsWaiting :
    (o : SeatOrder) (env : Env) (user : User) (id : ℕ)
    → Keeps (IsWaiting o) (acknowledge_seat_order env user id)
unfolding acknowledge_seat_order
acknowledge_seat_order-IsWaiting o env user id s t =
    let seen : SeatOrder → SeatOrder = λ r. record r { acknowledged_at = some env.now } in
    let mine = own_order id user.id in
    require-after (IsWaiting o) (ltb 0 (count_where mine s.seat_orders)) (not_found order_row)
      (writes (λ d. record d { seat_orders = update_where mine seen d.seat_orders })) s t
      (λ p. record {
        row = if mine t.row then seen t.row else t.row;
        row_found = ground (
          arith,
          find_first-update_where (has_order_id o.id) mine seen s.seat_orders (λ r. refl),
          t.row_found,
        );
        undecided = ground (arith, t.undecided);
        same_seats = ground (arith, t.same_seats);
        same_buyer = ground (arith, t.same_buyer);
      })

-- A decision on another order.
pub decide_order-IsWaiting :
    (o other : SeatOrder) (approve : Bool) (env : Env) (actor : User) (n : Option String) (s : Db)
    → (o.id == other.id) ≡ false
    → IsWaiting o s
    → IsWaiting o (after (decide_order approve env actor other n s))
unfolding decide_order approve_seat_order reject_seat_order
decide_order-IsWaiting o other true env actor n s ne t = record {
  row = t.row;
  row_found = ground (
    arith,
    ne,
    find_first-update_where (has_order_id o.id) (has_order_id other.id)
        (reviewed_order env OrderStatus.paid actor.id n) s.seat_orders (λ r. refl),
    find_first_holds (has_order_id o.id) s.seat_orders t.row_found,
    t.row_found,
  );
  undecided = t.undecided;
  same_seats = t.same_seats;
  same_buyer = t.same_buyer;
}
decide_order-IsWaiting o other false env actor n s ne t = record {
  row = t.row;
  row_found = ground (
    arith,
    ne,
    find_first-update_where (has_order_id o.id) (has_order_id other.id)
        (reviewed_order env OrderStatus.rejected actor.id n) s.seat_orders (λ r. refl),
    find_first_holds (has_order_id o.id) s.seat_orders t.row_found,
    t.row_found,
  );
  undecided = t.undecided;
  same_seats = t.same_seats;
  same_buyer = t.same_buyer;
}

pub pending_order-IsWaiting :
    (id : ℕ) (o : SeatOrder) (s : Db)
    → pending_order id s ≡ some o
    → IsWaiting o s × (has_order_id id o ≡ true)
unfolding pending_order find_seat_order
pending_order-IsWaiting id o s h = elim (Option-cases (find_seat_order id s)) [
  | inl e ↦ ground arith
  | inr (r, e) ↦ elim (Bool-cases (order_pending r.status)) [
    | inl p ↦
        let same : r ≡ o = ground arith in
        let here = find_first_holds (has_order_id id) s.seat_orders e in
        let its_id : r.id ≡ id = ground (arith, here) in
        let stands : IsWaiting r s = record {
          row = r;
          row_found = ap (λ k. find_first (has_order_id k) s.seat_orders) its_id ∙ e;
          undecided = p;
          same_seats = refl;
          same_buyer = refl;
        } in
        rw (sym same) (stands, here)
    | inr p ↦ ground arith
  ]
]
