-- ===== src/Subscription/Grants.antt =====
-- Granting, moving and ending subscriptions: `grant`, `setExpiry`, `cancelFor` and
-- `issueSeatSubscription` of backend/src/modules/subscription/subscription.service.js.

use Prim.Native.String.{◌++◌ as str_append}
use havale_khodro.Schema.Enums.{
  user, parent_seat, admin, subscription_extended, subscription_granted, subscription_cancelled,
}
use havale_khodro.Prelude.{ltb, leb, get_or, given, ℕ, ◌+◌, ◌*◌, String, Option, none, some}
use havale_khodro.Exec.{
  ◌>>=◌, ◌>>◌, Exec, reads, writes, found, not_found, bad_request, plan_row, plan_needed,
  date_invalid, no_live_subscription, pure, require, date_in_past, date_too_far,
}
use havale_khodro.Schema.Entities.{Plan, Env, User, Subscription}
use havale_khodro.Subscription.Store.{
  find_plan, create, set_expiry_row, find_live, NewSubscription, replace_live, cancel_row,
}
use havale_khodro.Time.{add_days}
use havale_khodro.Activity.{record_activity}

pub record PlanSummary : Type 0 where
  pub id : ℕ
  pub name : String
  pub duration_days : ℕ
  pub price_toman : ℕ
  pub daily_reveal_limit : Option ℕ
  pub monthly_reveal_limit : Option ℕ

abbrev pub plan_summary : Option Plan → Option PlanSummary
plan_summary none = none
plan_summary (some p) = some (record {
  id = p.id;
  name = p.name;
  duration_days = p.duration_days;
  price_toman = p.price_toman;
  daily_reveal_limit = p.daily_reveal_limit;
  monthly_reveal_limit = p.monthly_reveal_limit;
})

pub record Granted : Type 0 where
  pub id : ℕ
  pub starts_at : ℕ
  pub expires_at : ℕ
  pub plan : Option PlanSummary

-- A period that runs from now.
abbrev pub period_of : Env → ℕ → Plan → Option String → NewSubscription
period_of env actor_id p note = record {
  plan_id = p.id;
  starts_at = env.now;
  expires_at = add_days env.now p.duration_days;
  price_toman = p.price_toman;
  origin = admin;
  created_by = actor_id;
  note = note;
}

unfoldable pub grant : Env → User → ℕ → ℕ → Option String → Exec Granted
unfolding find_plan replace_live
grant env actor user_id plan_id note = do
  plan ← reads (find_plan plan_id)
  p ← found plan (not_found plan_row)
  id ← reads (λ s. s.next_id)
  writes (replace_live env user_id (period_of env actor.id p note))
  record_activity env actor.id subscription_granted user user_id
  pure (record {
    id = id;
    starts_at = env.now;
    expires_at = add_days env.now p.duration_days;
    plan = plan_summary (some p);
  })

abbrev pub seat_period : Env → ℕ → ℕ → ℕ → NewSubscription
seat_period env plan_id price_toman created_by = record {
  plan_id = plan_id;
  starts_at = env.now;
  expires_at = add_days env.now 3650;
  price_toman = price_toman;
  origin = parent_seat;
  created_by = created_by;
  note = none;
}

-- The date of a seat is a placeholder: the parent's row governs it.
unfoldable pub issue_seat_subscription : Env → ℕ → ℕ → ℕ → ℕ → Exec (Unit {0})
unfolding create
issue_seat_subscription env user_id plan_id price_toman created_by =
    writes (create env user_id (seat_period env plan_id price_toman created_by))

abbrev pub five_years_ms : ℕ
five_years_ms = 5 * 365 * 86400000

-- The note that an expiry moved by hand leaves behind.
abbrev moved_note : Env → Option String → ℕ → String
moved_note env note from = elim (given note) [
  | none ↦ str_append env.texts.moved_by_hand (env.iso_date from)
  | some n ↦
      str_append n (str_append " — " (str_append env.texts.moved_by_hand (env.iso_date from)))
]

move_expiry : Env → User → ℕ → ℕ → Option String → Subscription → Exec ℕ
unfolding set_expiry_row
move_expiry env actor user_id expires_at note live = do
  writes (set_expiry_row live.id expires_at (given (some (moved_note env note live.expires_at))))
  record_activity env actor.id subscription_extended user user_id
  pure live.id

-- A period up to a date: it was not sold at the list price, so it has none.
abbrev pub period_until : Env → ℕ → Plan → ℕ → Option String → NewSubscription
period_until env actor_id p expires_at note = record {
  plan_id = p.id;
  starts_at = env.now;
  expires_at = expires_at;
  price_toman = 0;
  origin = admin;
  created_by = actor_id;
  note = some (get_or (given note) env.texts.opened_by_hand);
}

open_until : Env → User → ℕ → ℕ → Option ℕ → Option String → Exec ℕ
unfolding find_plan replace_live
open_until env actor user_id expires_at plan_id note = do
  wanted ← found plan_id (bad_request plan_needed)
  plan ← reads (find_plan wanted)
  p ← found plan (not_found plan_row)
  id ← reads (λ s. s.next_id)
  writes (replace_live env user_id (period_until env actor.id p expires_at note))
  record_activity env actor.id subscription_extended user user_id
  pure id

-- The date is `none` where the text given is no date. The result is the subscription's id.
unfoldable pub set_expiry : Env → User → ℕ → Option ℕ → Option ℕ → Option String → Exec ℕ
unfolding find_live move_expiry open_until
set_expiry env actor user_id date plan_id note = do
  expires_at ← found date (bad_request date_invalid)
  require (ltb env.now expires_at) (bad_request date_in_past)
  require (leb expires_at (env.now + five_years_ms)) (bad_request date_too_far)
  live ← reads (find_live env user_id)
  elim live [
    | some x ↦ move_expiry env actor user_id expires_at note x
    | none ↦ open_until env actor user_id expires_at plan_id note
  ]

unfoldable pub cancel_for : Env → User → ℕ → Option String → Exec ℕ
unfolding find_live cancel_row
cancel_for env actor user_id note = do
  live ← reads (find_live env user_id)
  x ← found live (bad_request no_live_subscription)
  writes (cancel_row x.id (given note))
  record_activity env actor.id subscription_cancelled user user_id
  pure x.id
