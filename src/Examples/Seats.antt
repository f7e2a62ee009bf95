-- ===== src/Examples/Seats.antt =====
-- Seat orders at the example database.
use havale_khodro.Prelude.{
  ◌≡◌, arith, sum_of, find_first, count_where, ℕ, ◌≤◌, refl, true, none, some, List, [], ◌∷◌,
  update_where, false,
}
use havale_khodro.Subscription.Credits.{IsCredited}
use havale_khodro.Subscription.Overlaps.{
  Step, Office, run, step, take_up, order_it, decide_it, acknowledge_it, IsApart, IsAlone,
}
use havale_khodro.Subscription.Overlaps.Credited.{run-IsCredited, IsReady}
use havale_khodro.Schema.Entities.{StoredFile, SeatOrder, Db}
use havale_khodro.Activity.{find_user}
use havale_khodro.Subscription.Seats.{
  count_seats_used, credited, create_seat_order, approve_seat_order, decide_order,
  reject_seat_order,
}
use havale_khodro.Examples.Fixtures.{noon, market, parent, chief, officer}
use havale_khodro.Report.Store.{suspend_account}
use havale_khodro.Subscription.Capacity.{count_seats_used-suspend_account}
use havale_khodro.Exec.{after}
use havale_khodro.Schema.Enums.{OrderStatus}

abbrev slip : StoredFile
slip = record { name = "slip"; mime = "image/png"; size = 1000; stored_as = "a.png" }

-- The reseller orders two seats and then three; both orders are under review at once, and the first is
-- approved and the second rejected.
abbrev steps : List Step
steps =
    order_it noon parent 2 none (some slip)
    ∷ take_up 100
    ∷ order_it noon parent 3 none (some slip)
    ∷ take_up 101
    ∷ decide_it noon chief 100 true none
    ∷ take_up 100
    ∷ acknowledge_it noon parent 101
    ∷ decide_it noon officer 101 false none
    ∷ []

abbrev empty_office : Office
empty_office = record { db = market; in_review = [] }

-- Every account of the example has three seats at first.
abbrev three_each : ℕ → ℕ
three_each v = 3

market-IsCredited : IsCredited three_each market
unfolding find_first count_where sum_of
market-IsCredited = record {
  keyed = record { single = λ id. ground arith; fresh = tt };
  credits = λ v u e. ground arith;
}

steps-IsApart : IsApart empty_office steps
unfolding IsApart IsAlone step create_seat_order
steps-IsApart = (tt, (refl, (tt, (refl, (tt, (refl, (tt, (tt, tt))))))))

empty_office-IsReady : IsReady empty_office
unfolding find_first count_where
empty_office-IsReady = record { alone = λ id. ground arith; waiting = λ id o e. ground arith }

run-IsCredited_example : IsCredited three_each (run empty_office steps).db
run-IsCredited_example =
    run-IsCredited three_each empty_office steps steps-IsApart empty_office-IsReady
      market-IsCredited

-- Three seats and two, and not four, nor three more.
steps_credits : find_user 1 (run empty_office steps).db ≡ some (credited 2 parent)
unfolding find_user run step create_seat_order approve_seat_order reject_seat_order
steps_credits = refl

abbrev two_seats : SeatOrder
two_seats = record {
  id = 100;
  buyer_id = 1;
  seats = 2;
  unit_price_toman = 1;
  total_toman = 2;
  status = OrderStatus.pending;
  buyer_note = none;
  admin_note = none;
  receipt = some slip;
  reviewed_by = none;
  reviewed_at = none;
  acknowledged_at = none;
  created_at = 1;
}

abbrev two_ordered : Db
two_ordered = record market { seat_orders = two_seats ∷ [] }

-- Two officers read one pending order, and both approve it: it is credited twice.
overlapping_approvals :
    find_user 1 (
      after (
        decide_order true noon chief two_seats none
          (after (decide_order true noon officer two_seats none two_ordered))))
    ≡ some (credited 2 (credited 2 parent))
unfolding find_user decide_order approve_seat_order update_where
overlapping_approvals = refl

-- The sub-agency holds its seat, suspended or not.
count_seats_used-suspend_account_example :
    count_seats_used 1 (some 31500000000) market
    ≤ count_seats_used 1 (some 31500000000) (suspend_account noon 2 market)
count_seats_used-suspend_account_example =
    count_seats_used-suspend_account noon 1 2 (some 31500000000) market (omega arith)
