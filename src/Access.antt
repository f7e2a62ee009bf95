-- ===== src/Access.antt =====
-- What an account is entitled to: the object that `resolveAccess` of
-- backend/src/modules/subscription/subscription.service.js returns, and that
-- backend/src/middlewares/access.js puts on the request.
use havale_khodro.Prelude.{ℕ, Bool, false, Option, none, leb}
use havale_khodro.Schema.Entities.{Subscription}
use havale_khodro.Exec.{Exec, require, forbidden, subscription_expired}

-- A limit; administrators have `Infinity`.
pub data Limit : Type 0 where
  upto : ℕ → Limit
  unlimited : Limit

-- `used >= limit`
abbrev pub limit_reached : ℕ → Limit → Bool
limit_reached used (upto n) = leb n used
limit_reached used unlimited = false

pub record Access : Type 0 where
  pub active : Bool
  pub suspended : Bool
  pub subscription : Option Subscription
  pub expires_at : Option ℕ
  pub daily_limit : Limit
  pub monthly_limit : Limit
  pub period_start : Option ℕ

abbrev pub expired_access : Access
expired_access = record {
  active = false;
  suspended = false;
  subscription = none;
  expires_at = none;
  daily_limit = upto 0;
  monthly_limit = upto 0;
  period_start = none;
}

unfoldable pub require_active_subscription : Access → Exec (Unit {0})
require_active_subscription access = require access.active (forbidden subscription_expired)
