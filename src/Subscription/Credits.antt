-- ===== src/Subscription/Credits.antt =====
-- Every seat that an account has was granted or paid for
-- (backend/src/modules/subscription/subscription.service.js).
use havale_khodro.Prelude.{
  ◌≡◌, arith, ◌==◌, if◌then◌else◌, sum_of, sum_of-update_where, sum_of-update_one, IsKeyed,
  IsKeyed-append, IsKeyed-update_where, find_first, ℕ, ◌+◌, ◌*◌, String, refl, sym, ap, ◌∙◌, Bool,
  true, false, ◌&&◌, Option, some, [], ◌∷◌, ltb, sum_of-append, count_where, update_where,
}
use havale_khodro.Schema.Entities.{SeatOrder, Db, Env, User, StoredFile}
use havale_khodro.Subscription.Seats.{
  request_seats, acknowledge_seat_order, create_seat_order, has_order_id, decide_order,
  approve_seat_order, reject_seat_order, new_order, credited, seat_price, reviewed_order, own_order,
}
use havale_khodro.Schema.Enums.{order_paid, Action, Target, order_pending, OrderStatus}
use havale_khodro.Exec.{
  after, forbidden, not_found, not_reseller, order_row, bad_request, receipt_required, writes,
}
use havale_khodro.Exec.Laws.{Keeps, require-after, found-after}
use havale_khodro.Activity.{record_activity, record_activity-eq, user_before}

-- The seats that an order has brought to an account.
abbrev pub paid_seats : ℕ → SeatOrder → ℕ
paid_seats v o = if order_paid o.status && o.buyer_id == v then o.seats else 0

-- `granted` says what the accounts had before the first order.
pub record IsCredited (granted : ℕ → ℕ) (s : Db) : Type 0 where
  pub keyed : IsKeyed (λ o. o.id) s.next_id s.seat_orders
  pub credits :
      (v : ℕ) (u : User)
      → find_first (λ x. x.id == v) s.users ≡ some u
      → u.seat_credits ≡ granted v + sum_of (paid_seats v) s.seat_orders

pub record_activity-IsCredited :
    (granted : ℕ → ℕ) (env : Env) (user_id : ℕ) (action : Action) (target : Target) (id : ℕ)
    → Keeps (IsCredited granted) (record_activity env user_id action target id)
record_activity-IsCredited granted env user_id action target id s t =
    let (rows, e) = record_activity-eq env user_id action target id s in
    rw e (record { keyed = t.keyed; credits = t.credits })

pub request_seats-IsCredited :
    (granted : ℕ → ℕ) (env : Env) (user : User) (seats : ℕ) (n : Option String)
    (file : Option StoredFile)
    → Keeps (IsCredited granted) (request_seats env user seats n file)
unfolding request_seats create_seat_order sum_of
request_seats-IsCredited granted env user seats n file s t =
    require-after (IsCredited granted) user.is_reseller (forbidden not_reseller) _ s t (λ p.
      found-after (IsCredited granted) file (bad_request receipt_required) _ s t (λ receipt e.
        let row =
          new_order env s.next_id user.id seats (seat_price s) (seats * seat_price s) n receipt in
        record {
          keyed = IsKeyed-append (λ o. o.id) s.next_id s.seat_orders row refl t.keyed;
          credits = λ v u h.
              ground
                (arith, t.credits v u h, sum_of-append (paid_seats v) s.seat_orders (row ∷ []));
        }))

pub acknowledge_seat_order-IsCredited :
    (granted : ℕ → ℕ) (env : Env) (user : User) (id : ℕ)
    → Keeps (IsCredited granted) (acknowledge_seat_order env user id)
unfolding acknowledge_seat_order
acknowledge_seat_order-IsCredited granted env user id s t =
    let seen : SeatOrder → SeatOrder = λ o. record o { acknowledged_at = some env.now } in
    let mine = own_order id user.id in
    require-after (IsCredited granted) (ltb 0 (count_where mine s.seat_orders))
      (not_found order_row)
      (writes (λ d. record d { seat_orders = update_where mine seen d.seat_orders })) s t
      (λ p. record {
        keyed =
            IsKeyed-update_where (λ o. o.id) s.next_id mine seen s.seat_orders (λ o. refl) t.keyed;
        credits = λ v u h.
            t.credits v u h
            ∙ ap (λ m. granted v + m)
                (sym (sum_of-update_where (paid_seats v) mine seen s.seat_orders (λ o. refl)));
      })

-- The decision on an order whose row is still pending; the order may have been read earlier.
module _ (granted : ℕ → ℕ) (env : Env) (actor : User) (n : Option String) (s : Db)
    (t : IsCredited granted s) (o row : SeatOrder)
    (found_it : find_first (has_order_id o.id) s.seat_orders ≡ some row)
    (pending : order_pending row.status ≡ true) (same_seats : row.seats ≡ o.seats)
    (same_buyer : row.buyer_id ≡ o.buyer_id) where
  pub decide_order-IsCredited :
      (approve : Bool) → IsCredited granted (after (decide_order approve env actor o n s))
  unfolding decide_order approve_seat_order reject_seat_order
  decide_order-IsCredited true = record {
    keyed = IsKeyed-update_where (λ o. o.id) s.next_id _ _ s.seat_orders (λ o. refl) t.keyed;
    credits = λ v u h.
        let (w, m, i, q) = user_before o.buyer_id v (credited o.seats) s.users u (λ x. refl) h in
        ground (
          arith,
          t.credits v w m,
          sum_of-update_one (paid_seats v) (has_order_id o.id)
              (reviewed_order env OrderStatus.paid actor.id n) s.seat_orders row found_it
              (t.keyed.single o.id),
        );
  }
  decide_order-IsCredited false = record {
    keyed = IsKeyed-update_where (λ o. o.id) s.next_id _ _ s.seat_orders (λ o. refl) t.keyed;
    credits = λ v u h. ground (
      arith,
      t.credits v u h,
      sum_of-update_one (paid_seats v) (has_order_id o.id)
          (reviewed_order env OrderStatus.rejected actor.id n) s.seat_orders row found_it
          (t.keyed.single o.id),
    );
  }
