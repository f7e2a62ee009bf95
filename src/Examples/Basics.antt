-- ===== src/Examples/Basics.antt =====
-- Examples of times and of networks.
use havale_khodro.Prelude.{◌+◌, ◌*◌, ◌%◌, ◌≤◌, ◌<◌, ◌≡◌, refl, some, arith}
use havale_khodro.Time.{start_of_tehran_day, day_ms}
use havale_khodro.Subscription.Entitlement.{latest_period_start, reveal_period_days}
use havale_khodro.Activity.{find_user}
use havale_khodro.Examples.Fixtures.{tehran, parent, market, advertisement, child}
use havale_khodro.Network.{network_root_of, satisfies, visibility_clause, may_view}
use havale_khodro.Time.Windows.{start_of_tehran_day_bounds}
use havale_khodro.Subscription.Periods.{latest_period_start_bounds}
use havale_khodro.Network.Agreement.{satisfies-visibility_clause}

start_of_tehran_day_bounds_example :
    (start_of_tehran_day tehran 31579200000 ≤ 31579200000)
    × (31579200000 < start_of_tehran_day tehran 31579200000 + day_ms)
    × ((start_of_tehran_day tehran 31579200000 + tehran (start_of_tehran_day tehran 31579200000))
          % day_ms
        ≡ 0)
start_of_tehran_day_bounds_example =
    start_of_tehran_day_bounds tehran 31579200000 (omega arith) (omega arith) refl

latest_period_start_bounds_example :
    (latest_period_start 31500000000 36684000000 ≤ 36684000000)
    × (36684000000 < latest_period_start 31500000000 36684000000 + reveal_period_days * day_ms)
    × (latest_period_start 31500000000 36684000000 % (reveal_period_days * day_ms)
        ≡ 31500000000 % (reveal_period_days * day_ms))
latest_period_start_bounds_example =
    latest_period_start_bounds 31500000000 36684000000 (omega arith)

satisfies-visibility_clause_example :
    satisfies (visibility_clause (some parent) market) (advertisement 41 2)
    ≡ may_view (some parent) (advertisement 41 2) child
unfolding find_user network_root_of
satisfies-visibility_clause_example =
    satisfies-visibility_clause (some parent) market (advertisement 41 2) child
      (refl, (refl, (refl, (refl, (refl, tt))))) (λ r e. ground arith) refl
