-- ===== src/Subscription/Overlaps/Credited.antt =====
-- The capacity of an account while reviews of orders overlap
-- (backend/src/modules/subscription/subscription.service.js).
use havale_khodro.Prelude.{
  if◌then◌else◌, find_first, ℕ, String, Bool, Option, none, some, List, [], ◌∷◌, Bool-cases,
  count_where, find_first_holds, ◌≤◌, ◌≡◌, refl, inl, inr, arith, Option-cases, sym, ap, ◌∙◌,
  without_first, count_where-without_first, other_row,
}
use havale_khodro.Schema.Entities.{SeatOrder, Db, Env, User}
use havale_khodro.Subscription.Seats.{
  find_seat_order, has_order_id, decide_order, review_seat_order,
}
use havale_khodro.Schema.Enums.{Target, order_pending, seat_order_approved, seat_order_rejected}
use havale_khodro.Exec.{after, ◌>>◌, pure}
use havale_khodro.Activity.{record_activity}
use havale_khodro.Exec.Laws.{then-after, Keeps-then}
use havale_khodro.Subscription.Credits.{
  IsCredited, decide_order-IsCredited, request_seats-IsCredited, record_activity-IsCredited,
  acknowledge_seat_order-IsCredited,
}
use havale_khodro.Subscription.Overlaps.{
  step, run, Office, finish_review, pending_order, taken, IsApart, concluded, Step, IsAlone,
  take_up, decide_it, order_it, acknowledge_it,
}
use havale_khodro.Subscription.Overlaps.Waiting.{
  IsWaiting, pending_order-IsWaiting, decide_order-IsWaiting, record_activity-IsWaiting,
  request_seats-IsWaiting, acknowledge_seat_order-IsWaiting,
}

-- Another review may not have read the same order.
pub record IsReady (x : Office) : Type 0 where
  pub alone : (id : ℕ) → count_where (has_order_id id) x.in_review ≤ 1
  pub waiting :
      (id : ℕ) (o : SeatOrder)
      → find_first (has_order_id id) x.in_review ≡ some o
      → IsWaiting o x.db

-- A step in which no review begins or ends.
kept-IsReady :
    (x : Office) (s : Db)
    → ((o : SeatOrder) → IsWaiting o x.db → IsWaiting o s)
    → IsReady x
    → IsReady (record x { db = s })
kept-IsReady x s h r = record { alone = r.alone; waiting = λ id o e. h o (r.waiting id o e) }

taken-IsReady :
    (id : ℕ) (o : SeatOrder) (x : Office)
    → count_where (has_order_id id) x.in_review ≡ 0
    → pending_order id x.db ≡ some o
    → IsReady x
    → IsReady (record x { in_review = o ∷ x.in_review })
unfolding find_first count_where
taken-IsReady id o x z h r =
    let (stands, here) = pending_order-IsWaiting id o x.db h in
    record {
      alone = λ k. elim (Bool-cases (has_order_id k o)) [
        | inl b ↦
            let same_id : id ≡ k = ground (arith, here, b) in
            let none_left = ap (λ m. count_where (has_order_id m) x.in_review) (sym same_id) ∙ z in
            ground (arith, b, none_left)
        | inr b ↦ ground (arith, b, r.alone k)
      ];
      waiting = λ k p e. elim (Bool-cases (has_order_id k o)) [
        | inl b ↦ let same : o ≡ p = ground arith in rw (sym same) stands
        | inr b ↦ r.waiting k p (ground arith)
      ];
    }

decided-IsReady :
    (env : Env) (actor : User) (id : ℕ) (o : SeatOrder) (approve : Bool) (n : Option String)
    (x : Office)
    → find_first (has_order_id id) x.in_review ≡ some o
    → IsReady x
    → IsReady (record {
      db = after (finish_review env actor o approve n x.db);
      in_review = without_first (has_order_id id) x.in_review;
    })
unfolding finish_review
decided-IsReady env actor id o approve n x h r =
    let its_id : o.id ≡ id = ground (arith, find_first_holds (has_order_id id) x.in_review h) in
    let action = if approve then seat_order_approved else seat_order_rejected in
    record {
      alone = λ k.
          let less = count_where-without_first (has_order_id k) (has_order_id id) x.in_review in
          let one = r.alone k in omega (arith, less, one);
      waiting = λ k p e.
          let (ne, before) = other_row (λ r. r.id) k id p x.in_review (r.alone id) e in
          let its_k : p.id ≡ k =
            ground (arith, find_first_holds (has_order_id k) x.in_review before) in
          then-after (IsWaiting p) (decide_order approve env actor o n)
            (record_activity env actor.id action Target.seat_order o.id >> pure o.id) x.db
            (decide_order-IsWaiting p o approve env actor n x.db (ground (arith, ne, its_k, its_id))
              (r.waiting k p before))
            (Keeps-then (IsWaiting p) (record_activity env actor.id action Target.seat_order o.id)
              (pure o.id) (record_activity-IsWaiting p env actor.id action Target.seat_order o.id)
              (λ _ h. h));
    }

-- The decision itself.
decided-IsCredited :
    (granted : ℕ → ℕ) (env : Env) (actor : User) (id : ℕ) (o : SeatOrder) (approve : Bool)
    (n : Option String) (x : Office)
    → find_first (has_order_id id) x.in_review ≡ some o
    → IsReady x
    → IsCredited granted x.db
    → IsCredited granted (after (finish_review env actor o approve n x.db))
unfolding finish_review
decided-IsCredited granted env actor id o approve n x h r t =
    let w = r.waiting id o h in
    let action = if approve then seat_order_approved else seat_order_rejected in
    then-after (IsCredited granted) (decide_order approve env actor o n)
      (record_activity env actor.id action Target.seat_order o.id >> pure o.id) x.db
      (decide_order-IsCredited granted env actor n x.db t o w.row w.row_found w.undecided
        w.same_seats w.same_buyer approve)
      (Keeps-then (IsCredited granted) (record_activity env actor.id action Target.seat_order o.id)
        (pure o.id) (record_activity-IsCredited granted env actor.id action Target.seat_order o.id)
        (λ _ h. h))

step-IsCredited :
    (granted : ℕ → ℕ) (q : Step) (x : Office)
    → IsAlone q x
    → IsReady x
    → IsCredited granted x.db
    → IsReady (step q x) × IsCredited granted (step q x).db
unfolding step taken concluded IsAlone
step-IsCredited granted (order_it env user seats n file) x a r t = (
  kept-IsReady x _ (λ o. request_seats-IsWaiting o env user seats n file x.db) r,
  request_seats-IsCredited granted env user seats n file x.db t,
)
step-IsCredited granted (acknowledge_it env user id) x a r t = (
  kept-IsReady x _ (λ o. acknowledge_seat_order-IsWaiting o env user id x.db) r,
  acknowledge_seat_order-IsCredited granted env user id x.db t,
)
step-IsCredited granted (take_up id) x a r t = by_order (pending_order id x.db) refl
  where
    by_order :
        (it : Option SeatOrder)
        → pending_order id x.db ≡ it
        → IsReady (taken it x) × IsCredited granted (taken it x).db
    by_order none e = (r, t)
    by_order (some o) e = (taken-IsReady id o x a e r, t)
step-IsCredited granted (decide_it env actor id approve n) x a r t =
    by_order (find_first (has_order_id id) x.in_review) refl
  where
    by_order :
        (it : Option SeatOrder)
        → find_first (has_order_id id) x.in_review ≡ it
        → IsReady (concluded env actor id approve n it x)
          × IsCredited granted (concluded env actor id approve n it x).db
    by_order none e = (r, t)
    by_order (some o) e = (
      decided-IsReady env actor id o approve n x e r,
      decided-IsCredited granted env actor id o approve n x e r t,
    )

-- Seats are ordered, acknowledged and reviewed, and other requests are served between the moment at
-- which a review reads an order and the moment at which it decides it. As long as no two reviews of
-- one order overlap, the capacity of every account stays what it was granted at first plus the seats
-- of its orders that were paid.
pub run-IsCredited :
    (granted : ℕ → ℕ) (x : Office) (steps : List Step)
    → IsApart x steps
    → IsReady x
    → IsCredited granted x.db
    → IsCredited granted (run x steps).db
unfolding run IsApart
run-IsCredited granted x [] a r t = t
run-IsCredited granted x (q ∷ rest) a r t =
    let (ready, credited) = step-IsCredited granted q x a.0 r t in
    run-IsCredited granted (step q x) rest a.1 ready credited

-- A review that nothing overlaps takes the order up and decides it at once.
pub review_seat_order-run :
    (env : Env) (actor : User) (id : ℕ) (approve : Bool) (n : Option String) (s : Db)
    → (run
        (record { db = s; in_review = [] })
        (take_up id ∷ decide_it env actor id approve n ∷ [])).db
      ≡ after (review_seat_order env actor id approve n s)
unfolding run step taken concluded pending_order finish_review review_seat_order find_first
review_seat_order-run env actor id approve n s = elim (Option-cases (find_seat_order id s)) [
  | inl e ↦ ground arith
  | inr (o, e) ↦
      let here = find_first_holds (has_order_id id) s.seat_orders e in
      let its_id : o.id ≡ id = ground (arith, here) in
      elim (Bool-cases (order_pending o.status)) [
        | inl p ↦
            let action = if approve then seat_order_approved else seat_order_rejected in
            let both =
              ap
                (λ k. after (
                  (decide_order approve env actor o n
                      >> (record_activity env actor.id action Target.seat_order k >> pure k))
                    s))
                its_id in
            ground (arith, here) ∙ both ∙ ground arith
        | inr p ↦ ground arith
      ]
]
