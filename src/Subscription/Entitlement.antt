-- ===== src/Subscription/Entitlement.antt =====
-- `resolveAccess` and `latestPeriodStart` of
-- backend/src/modules/subscription/subscription.service.js.
use havale_khodro.Prelude.{
  leb, if◌then◌else◌, get_or, ℕ, ◌+◌, ◌-◌, ◌*◌, ◌/◌, true, false, not, Option, none, some,
}
use havale_khodro.Time.{add_days, day_ms}
use havale_khodro.Schema.Entities.{User, Env, Plan, Subscription, Db}
use havale_khodro.Access.{Access, expired_access, upto, unlimited}
use havale_khodro.Roles.{is_admin}
use havale_khodro.Subscription.Store.{find_live, plan_of}
use havale_khodro.Schema.Enums.{is_seat, account_active}

abbrev pub default_daily_limit : ℕ
default_daily_limit = 30

abbrev pub default_monthly_limit : ℕ
default_monthly_limit = 300

abbrev pub reveal_period_days : ℕ
reveal_period_days = 30

-- `Math.ceil(a / b)`
abbrev pub ceil_div : ℕ → ℕ → ℕ
ceil_div a b = (a + b - 1) / b

-- Before the start the two quotients are negative, and rounded away from zero.
unfoldable pub latest_period_start : ℕ → ℕ → ℕ
latest_period_start start now =
    if leb start now
    then add_days start ((now - start) / day_ms / reveal_period_days * reveal_period_days)
    else start
      - ceil_div (ceil_div (start - now) day_ms) reveal_period_days * reveal_period_days * day_ms

-- `user.limitOverride ?? plan.limit ?? default`, where the plan may be missing.
daily_limit_for : User → Option Plan → ℕ
daily_limit_for u plan = get_or u.daily_override (elim plan [
  | none ↦ default_daily_limit
  | some p ↦ get_or p.daily_reveal_limit default_daily_limit
])

monthly_limit_for : User → Option Plan → ℕ
monthly_limit_for u plan = get_or u.monthly_override (elim plan [
  | none ↦ default_monthly_limit
  | some p ↦ get_or p.monthly_reveal_limit default_monthly_limit
])

-- What a live row gives, when the row `governing` decides its dates.
unfoldable pub access_from : Env → User → Subscription → Subscription → Db → Access
unfolding latest_period_start daily_limit_for monthly_limit_for
access_from env u own governing s = record {
  active = true;
  suspended = false;
  subscription = some own;
  expires_at = some governing.expires_at;
  daily_limit = upto (daily_limit_for u (plan_of own s));
  monthly_limit = upto (monthly_limit_for u (plan_of own s));
  period_start = some (latest_period_start governing.starts_at env.now);
}

-- A seat is governed by the parent's live row.
seat_access : Env → User → Subscription → Option Subscription → Db → Access
unfolding access_from
seat_access env u own none s = expired_access
seat_access env u own (some parent) s = access_from env u own parent s

parent_live : Env → User → Db → Option Subscription
parent_live env u s = elim u.parent_id [ none ↦ none | some p ↦ find_live env p s ]

own_access : Env → User → Option Subscription → Db → Access
unfolding seat_access parent_live access_from
own_access env u none s = expired_access
own_access env u (some own) s =
    if is_seat own.origin
    then seat_access env u own (parent_live env u s) s
    else access_from env u own own s

abbrev pub admin_access : Access
admin_access = record expired_access {
  active = true;
  daily_limit = unlimited;
  monthly_limit = unlimited;
}

unfoldable pub resolve_access : Env → User → Db → Access
unfolding own_access is_admin
resolve_access env u s =
    if is_admin u.role
    then admin_access
    else if not (account_active u.status)
    then record expired_access { suspended = true }
    else own_access env u (find_live env u.id s) s
