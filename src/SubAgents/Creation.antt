-- ===== src/SubAgents/Creation.antt =====
-- `create` of backend/src/modules/subagent/subagent.service.js: a parent opens a sub-agency within the
-- capacity that it has bought.
use text.Mathlib.Text.{◌==◌ as str_eq}
use havale_khodro.Prelude.{
  ℕ, ltb, if◌then◌else◌, get_or, present, given, find_first, update_where, ◌+◌, String, true, false,
  not, Option, none, some, List, [], ◌∷◌, ◌++◌,
}
use havale_khodro.Exec.{
  ◌>>=◌, ◌>>◌, Exec, reads, transaction, require, writes, forbidden, no_capacity, not_reseller,
  found, one_level_only, internal, bad_request, plan_row, parent_needs_code, pure,
  subscription_expired, conflict, username_taken, phone_taken,
}
use havale_khodro.Schema.Entities.{User, Db, Env, Subscription}
use havale_khodro.Brands.{Sets, set_brands, allowed_sets, validate_grants}
use havale_khodro.Subscription.Seats.{seat_summary}
use havale_khodro.Subscription.Entitlement.{resolve_access}
use havale_khodro.SubAgents.Status.{require_child, end_sessions}
use havale_khodro.Report.Store.{update_user}
use havale_khodro.SignIn.{find_by_username, Keyring}
use havale_khodro.Schema.Enums.{
  Role, UserStatus, subagent_brands_set, Target, subagent_password_reset, subagent_created,
}
use havale_khodro.Subscription.Grants.{issue_seat_subscription}
use havale_khodro.Activity.{record_activity}

pub record Payload : Type 0 where
  pub username : ℕ
  pub password : ℕ
  pub phone : String
  pub agency_name : Option String
  pub city : Option String
  pub coordinator_name : Option String
  pub coordinator_phone : Option String
  pub brand_ids : Option (List ℕ)
  pub model_ids : Option (List ℕ)

unfoldable pub find_by_phone : String → Db → Option User
unfolding find_first
find_by_phone phone s = find_first (λ u. str_eq u.phone phone) s.users

-- The columns that the service writes, and the defaults of the schema.
abbrev pub child_account : ℕ → ℕ → ℕ → String → Payload → User
child_account id parent_id password_hash code p = record {
  id = id;
  role = Role.agent;
  status = UserStatus.active;
  permissions = none;
  phone = p.phone;
  agency_code = some code;
  agency_name = p.agency_name;
  city = p.city;
  coordinator_name = p.coordinator_name;
  coordinator_phone = p.coordinator_phone;
  daily_override = none;
  monthly_override = none;
  is_reseller = false;
  seat_credits = 0;
  parent_id = some parent_id;
  suspended_at = none;
  fake_strikes = 0;
  false_report_strikes = 0;
  username = p.username;
  password_hash = password_hash;
  must_change_password = true;
  last_login_at = none;
  guide_seen_at = none;
}

unfoldable pub insert_user : (ℕ → User) → Db → Db
insert_user row s = record s { users = s.users ++ row s.next_id ∷ []; next_id = s.next_id + 1 }

-- `payload.brandIds ?? mine.brandIds`, and models only with the brands they came with.
abbrev pub wanted_grants : Payload → Sets → Sets
wanted_grants p mine = record {
  brand_ids = get_or p.brand_ids mine.brand_ids;
  model_ids = get_or p.model_ids (if present p.brand_ids then [] else mine.model_ids);
}

-- What runs under the lock of the parent: the seats are counted again, and the account, its grants and
-- its seat are one transaction.
unfoldable pub create_child :
    Env → User → Option Subscription → ℕ → String → Payload → Sets → Exec ℕ
unfolding seat_summary insert_user set_brands issue_seat_subscription
create_child env user paid password_hash code p mine = transaction (do
  seats ← reads (seat_summary env user)
  require (not (ltb seats.available 1)) (forbidden no_capacity)
  id ← reads (λ s. s.next_id)
  writes (insert_user (λ i. child_account i user.id password_hash code p))
  granted ← set_brands id (wanted_grants p mine) (some mine)
  plan ← found paid (internal plan_row)
  issue_seat_subscription env id plan.plan_id seats.unit_price_toman user.id
  pure id)

-- The result is the child's id, by which the caller can read the row. The code that `nextAgencyCode`
-- makes of the parent's is given.
unfoldable pub create : Env → String → Keyring → User → Payload → Exec ℕ
unfolding resolve_access seat_summary find_by_username find_by_phone allowed_sets validate_grants
    create_child record_activity
create env code keys user p = do
  require user.is_reseller (forbidden not_reseller)
  require (not (present user.parent_id)) (forbidden one_level_only)
  own_code ← found (given user.agency_code) (bad_request parent_needs_code)
  access ← reads (resolve_access env user)
  require access.active (forbidden subscription_expired)
  seats ← reads (seat_summary env user)
  require (not (ltb seats.available 1)) (forbidden no_capacity)
  namesake ← reads (find_by_username p.username)
  require (not (present namesake)) (conflict username_taken)
  neighbour ← reads (find_by_phone p.phone)
  require (not (present neighbour)) (conflict phone_taken)
  mine ← reads (allowed_sets user.id)
  valid ← validate_grants (wanted_grants p mine) (some mine)
  id ← create_child env user access.subscription (keys.hash p.password) code p mine
  record_activity env user.id subagent_created Target.user id
  pure id

-- `getBrands`, `setBrands` and `resetPassword`.
unfoldable pub get_brands : User → ℕ → Exec Sets
unfolding require_child allowed_sets
get_brands user id = do child ← require_child user id; reads (allowed_sets child.id)

unfoldable pub replace_brands : Env → User → ℕ → Sets → Exec Sets
unfolding require_child allowed_sets set_brands record_activity
replace_brands env user id wanted = do
  child ← require_child user id
  mine ← reads (allowed_sets user.id)
  granted ← set_brands child.id wanted (some mine)
  record_activity env user.id subagent_brands_set Target.user child.id
  reads (allowed_sets child.id)

abbrev pub with_given_password : ℕ → User → User
with_given_password password_hash u = record u {
  password_hash = password_hash;
  must_change_password = true;
}

unfoldable pub set_password : ℕ → ℕ → Db → Db
unfolding update_user update_where
set_password id password_hash s = update_user id (with_given_password password_hash) s

unfoldable pub reset_password : Env → Keyring → User → ℕ → ℕ → Exec (Unit {0})
unfolding require_child set_password end_sessions record_activity
reset_password env keys user id password = do
  child ← require_child user id
  writes (set_password child.id (keys.hash password))
  writes (end_sessions env child.id)
  record_activity env user.id subagent_password_reset Target.user child.id
