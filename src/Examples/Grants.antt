-- ===== src/Examples/Grants.antt =====
-- A main agency buys another period.
use havale_khodro.Prelude.{count_where, ◌≡◌, refl, none, some, arith, find_first, true}
use havale_khodro.Exec.{Outcome, after}
use havale_khodro.Subscription.Grants.{Granted, grant, plan_summary}
use havale_khodro.Examples.Fixtures.{noon, chief, gold, market, child, period}
use havale_khodro.Schema.Entities.{Subscription, Env}
use havale_khodro.Subscription.Store.{find_live, is_active_row}
use havale_khodro.Schema.Enums.{Origin}
use havale_khodro.Subscription.Renewal.{grant_lem}
use havale_khodro.Activity.{record_activity}
use havale_khodro.Subscription.Entitlement.{resolve_access}
use havale_khodro.Subscription.Inheritance.{resolve_access-grant}
use havale_khodro.Roles.{is_admin}

abbrev renewed : Outcome Granted
renewed = grant noon chief 1 20 none market

abbrev receipt : Granted
receipt = record {
  id = 100;
  starts_at = 31579200000;
  expires_at = 39355200000;
  plan = plan_summary (some gold);
}

grant_lem_example :
    ((x : Subscription) × (find_live noon 1 (after renewed) ≡ some x)
      × (x.id ≡ receipt.id)
      × (x.starts_at ≡ noon.now)
      × (x.expires_at ≡ receipt.expires_at)
      × (x.origin ≡ Origin.admin))
    × (count_where (is_active_row 1) (after renewed).subscriptions ≡ 1)
    × (find_live noon 2 (after renewed) ≡ find_live noon 2 market)
unfolding grant find_first record_activity
grant_lem_example =
    grant_lem noon chief 1 20 none market (after renewed) receipt 2 refl (omega arith) (omega arith)

-- The sub-agency ten days after the renewal of its parent.
abbrev ten_days_on : Env
ten_days_on = record noon { now = 32443200000 }

resolve_access-grant_example :
    ((resolve_access ten_days_on child (after renewed)).active ≡ true)
    × ((resolve_access ten_days_on child (after renewed)).expires_at ≡ some receipt.expires_at)
unfolding grant find_first record_activity find_live is_admin
resolve_access-grant_example =
    resolve_access-grant noon ten_days_on chief 1 20 none market (after renewed) receipt child
      (period 31 2 Origin.parent_seat) refl (omega arith) refl (omega arith) refl refl refl refl
