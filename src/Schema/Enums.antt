-- ===== src/Schema/Enums.antt =====
-- The enumerations of backend/prisma/schema.prisma and of backend/src/constants: roles,
-- permissions, statuses and kinds, with the tests on them that the services make (`===`).
use havale_khodro.Prelude.{ℕ, ◌==◌, Bool, true, false}

pub data Role : Type 0 where
  owner developer super_admin support finance agent : Role

pub data Permission : Type 0 where
  tickets reports listings contact_edit third_strike subscriptions seats agents : Permission
  monitoring export bulk_contacts settings catalog staff system_alerts error_log : Permission

pub data UserStatus : Type 0 where
  active suspended : UserStatus

pub data SubscriptionStatus : Type 0 where
  active expired cancelled : SubscriptionStatus

pub data Origin : Type 0 where
  admin parent_seat : Origin

pub data Market : Type 0 where
  havale registration car : Market

pub data Visibility : Type 0 where
  public network : Visibility

pub data Kind : Type 0 where
  offer request : Kind

pub data ListingStatus : Type 0 where
  active fulfilled expired suspended archived : ListingStatus

pub data Reason : Type 0 where
  fake_listing wrong_price unreachable already_sold fraud contact_in_text other : Reason

pub data ReportStatus : Type 0 where
  pending confirmed rejected abusive : ReportStatus

pub data OrderStatus : Type 0 where
  pending paid rejected : OrderStatus

pub data EndReason : Type 0 where
  logout kicked expired admin_revoked : EndReason

pub data TicketStatus : Type 0 where
  opened answered closed : TicketStatus

pub data TicketPriority : Type 0 where
  low normal high : TicketPriority

pub data TicketCategory : Type 0 where
  subscription seats listing appeal technical other : TicketCategory

-- What the activity log calls an action.
pub data Action : Type 0 where
  subscription_granted subscription_extended subscription_cancelled : Action
  seat_order_approved seat_order_rejected contact_revealed login_failed : Action
  report_filed report_rejected report_confirmed report_marked_abusive report_held : Action
  account_suspended_by_strikes subagent_suspended subagent_activated : Action
  havale_created havale_updated havale_renewed havale_fulfilled havale_deleted : Action
  login logged_out password_changed ticket_opened : Action
  subagent_created subagent_brands_set subagent_password_reset : Action

-- What kind of row an entry of the activity log is about.
pub data Target : Type 0 where
  user seat_order listing havale registration car report ticket no_row : Target

abbrev pub account_active : UserStatus → Bool
account_active active = true
account_active suspended = false

abbrev pub period_active : SubscriptionStatus → Bool
period_active active = true
period_active expired = false
period_active cancelled = false

abbrev pub is_seat : Origin → Bool
is_seat parent_seat = true
is_seat admin = false

abbrev pub listing_active : ListingStatus → Bool
listing_active active = true
listing_active _ = false

abbrev pub listing_suspended : ListingStatus → Bool
listing_suspended suspended = true
listing_suspended _ = false

abbrev pub is_pending : ReportStatus → Bool
is_pending pending = true
is_pending _ = false

abbrev pub is_confirmed : ReportStatus → Bool
is_confirmed confirmed = true
is_confirmed _ = false

abbrev pub is_abusive : ReportStatus → Bool
is_abusive abusive = true
is_abusive _ = false

abbrev pub order_pending : OrderStatus → Bool
order_pending pending = true
order_pending _ = false

abbrev pub order_paid : OrderStatus → Bool
order_paid paid = true
order_paid _ = false

abbrev pub network_only : Visibility → Bool
network_only network = true
network_only public = false

abbrev pub same_market : Market → Market → Bool
same_market havale havale = true
same_market registration registration = true
same_market car car = true
same_market _ _ = false

abbrev pub is_login_failed : Action → Bool
is_login_failed login_failed = true
is_login_failed _ = false

abbrev pub same_kind : Kind → Kind → Bool
same_kind offer offer = true
same_kind request request = true
same_kind _ _ = false

-- The keys of RULE_LABELS in backend/src/modules/security/threat.rules.js.
pub data ThreatRule : Type 0 where
  sqli xss traversal cmdi proto ssrf template header_inject : ThreatRule
  probe_path scanner_ua brute_force password_spray rate_limit : ThreatRule
  forbidden_sweep not_found_sweep oversize : ThreatRule

pub data Severity : Type 0 where
  low medium high : Severity

abbrev pub rule_index : ThreatRule → ℕ
rule_index sqli = 0
rule_index xss = 1
rule_index traversal = 2
rule_index cmdi = 3
rule_index proto = 4
rule_index ssrf = 5
rule_index template = 6
rule_index header_inject = 7
rule_index probe_path = 8
rule_index scanner_ua = 9
rule_index brute_force = 10
rule_index password_spray = 11
rule_index rate_limit = 12
rule_index forbidden_sweep = 13
rule_index not_found_sweep = 14
rule_index oversize = 15

abbrev pub same_rule : ThreatRule → ThreatRule → Bool
same_rule a b = rule_index a == rule_index b
