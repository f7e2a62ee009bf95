-- ===== src/Examples/Fixtures.antt =====
-- A small database that the examples share: a main agency with one sub-agency, an independent
-- agency, a support officer and a super administrator.
use havale_khodro.Schema.Enums.{
  Role, Origin, UserStatus, Market, SubscriptionStatus, Visibility, Kind, ListingStatus,
}
use havale_khodro.Prelude.{ℕ, String, Bool, true, false, Option, none, some, [], ◌∷◌, ◌+◌}
use havale_khodro.Schema.Entities.{Texts, Env, User, Plan, Listing, Db, Subscription}

abbrev pub texts : Texts
texts = record {
  moved_by_hand = "moved by hand from ";
  opened_by_hand = "opened by hand";
  under_review = "under review";
  report_upheld = "report upheld";
}

abbrev pub tehran : ℕ → ℕ
tehran t = 12600000

abbrev pub iso : ℕ → String
iso t = "2026-09-06"

-- The first of January 1971, at noon.
abbrev pub noon : Env
noon = record { now = 31579200000; offset_ms = tehran; iso_date = iso; texts = texts }

abbrev pub account : ℕ → Role → Option ℕ → Bool → User
account id role parent reseller = record {
  id = id;
  role = role;
  status = UserStatus.active;
  permissions = none;
  phone = "02100000000";
  agency_code = some "G-1001";
  agency_name = some "Alborz";
  city = some "Karaj";
  coordinator_name = some "Sara";
  coordinator_phone = some "09120000000";
  daily_override = none;
  monthly_override = none;
  is_reseller = reseller;
  seat_credits = 3;
  parent_id = parent;
  suspended_at = none;
  fake_strikes = 0;
  false_report_strikes = 0;
  username = 100 + id;
  password_hash = 1000 + id;
  must_change_password = false;
  last_login_at = none;
  guide_seen_at = none;
}

abbrev pub parent : User
parent = account 1 Role.agent none true

abbrev pub child : User
child = account 2 Role.agent (some 1) false

abbrev pub independent : User
independent = account 3 Role.agent none false

abbrev pub officer : User
officer = account 4 Role.support none false

abbrev pub chief : User
chief = account 5 Role.super_admin none false

abbrev pub gold : Plan
gold = record {
  id = 20;
  name = "gold";
  duration_days = 90;
  price_toman = 25000000;
  daily_reveal_limit = some 1;
  monthly_reveal_limit = none;
  is_active = true;
}

abbrev pub period : ℕ → ℕ → Origin → Subscription
period id user_id origin = record {
  id = id;
  user_id = user_id;
  plan_id = 20;
  starts_at = 31500000000;
  expires_at = 33000000000;
  status = SubscriptionStatus.active;
  price_toman = 25000000;
  origin = origin;
  created_by = none;
  note = none;
  created_at = 31500000000;
}

abbrev pub advertisement : ℕ → ℕ → Listing
advertisement id owner_id = record {
  id = id;
  market = Market.havale;
  visibility = Visibility.public;
  kind = Kind.offer;
  owner_id = owner_id;
  car_model_id = none;
  car_type = "Peugeot 207";
  car_color = none;
  supplier_company = none;
  amount_toman = some 950000000;
  delivery_days = some 30;
  deposit_days = some 5;
  description = none;
  status = ListingStatus.active;
  suspend_reason = none;
  suspended_at = none;
  deleted_at = none;
  reveal_count = 0;
  report_count = 0;
  closes_at = some 33000000000;
  renewed_at = none;
  renew_count = 0;
  edited_at = none;
  edit_count = 0;
  created_at = 31500000000;
}

abbrev pub market : Db
market = record {
  users = parent ∷ child ∷ independent ∷ officer ∷ chief ∷ [];
  plans = gold ∷ [];
  subscriptions = period 30 1 Origin.admin ∷ period 31 2 Origin.parent_seat ∷ [];
  listings = advertisement 40 3 ∷ advertisement 41 2 ∷ [];
  reveals = [];
  reports = [];
  seat_orders = [];
  sessions = [];
  login_failures = [];
  security_events = [];
  blocked_ips = [];
  alarms = [];
  brute_force_hits = [];
  spray_hits = [];
  tickets = [];
  ticket_messages = [];
  ticket_attachments = [];
  activity = [];
  outbox = [];
  car_brands = record { id = 60; is_active = true } ∷ [];
  car_models =
      record { id = 61; brand_id = 60; is_active = true }
      ∷ record { id = 62; brand_id = 63; is_active = true }
      ∷ [];
  brand_access = record { user_id = 1; target_id = 60 } ∷ [];
  model_access = [];
  seat_price_row = none;
  report_daily_limit_row = none;
  next_id = 100;
}
