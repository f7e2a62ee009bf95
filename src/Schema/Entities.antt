-- ===== src/Schema/Entities.antt =====
-- The rows of backend/prisma/schema.prisma that the modelled services read and write. Identifiers
-- and times are numbers (milliseconds since the epoch); columns that no modelled code reads are
-- left out. Texts that are only compared for equality (user names, passwords and their hashes,
-- session tokens and their hashes, network addresses) are numbers.
use havale_khodro.Prelude.{ℕ, String, Bool, Option, List}
use havale_khodro.Schema.Enums.{
  Role, Permission, UserStatus, SubscriptionStatus, Origin, Market, Visibility, Kind, ListingStatus,
  ThreatRule, Severity, TicketStatus, TicketPriority, TicketCategory, Reason, ReportStatus,
  OrderStatus, EndReason, Action, Target,
}

pub record User : Type 0 where
  pub id : ℕ
  pub role : Role
  pub status : UserStatus
  pub permissions : Option (List (Permission × Bool))
  pub phone : String
  pub agency_code : Option String
  pub agency_name : Option String
  pub city : Option String
  pub coordinator_name : Option String
  pub coordinator_phone : Option String
  pub daily_override : Option ℕ
  pub monthly_override : Option ℕ
  pub is_reseller : Bool
  pub seat_credits : ℕ
  pub parent_id : Option ℕ
  pub suspended_at : Option ℕ
  pub fake_strikes : ℕ
  pub false_report_strikes : ℕ
  pub username : ℕ
  pub password_hash : ℕ
  pub must_change_password : Bool
  pub last_login_at : Option ℕ
  pub guide_seen_at : Option ℕ

pub record Plan : Type 0 where
  pub id : ℕ
  pub name : String
  pub duration_days : ℕ
  pub price_toman : ℕ
  pub daily_reveal_limit : Option ℕ
  pub monthly_reveal_limit : Option ℕ
  pub is_active : Bool

pub record Subscription : Type 0 where
  pub id : ℕ
  pub user_id : ℕ
  pub plan_id : ℕ
  pub starts_at : ℕ
  pub expires_at : ℕ
  pub status : SubscriptionStatus
  pub price_toman : ℕ
  pub origin : Origin
  pub created_by : Option ℕ
  pub note : Option String
  pub created_at : ℕ

pub record Listing : Type 0 where
  pub id : ℕ
  pub market : Market
  pub visibility : Visibility
  pub kind : Kind
  pub owner_id : ℕ
  pub car_model_id : Option ℕ
  pub car_type : String
  pub car_color : Option String
  pub supplier_company : Option String
  pub amount_toman : Option ℕ
  pub delivery_days : Option ℕ
  pub deposit_days : Option ℕ
  pub description : Option String
  pub status : ListingStatus
  pub suspend_reason : Option String
  pub suspended_at : Option ℕ
  pub deleted_at : Option ℕ
  pub reveal_count : ℕ
  pub report_count : ℕ
  pub closes_at : Option ℕ
  pub renewed_at : Option ℕ
  pub renew_count : ℕ
  pub edited_at : Option ℕ
  pub edit_count : ℕ
  pub created_at : ℕ

pub record Reveal : Type 0 where
  pub id : ℕ
  pub listing_id : ℕ
  pub viewer_id : ℕ
  pub ip : Option String
  pub phone_shown : Option String
  pub agency_code_shown : Option String
  pub created_at : ℕ

pub record Report : Type 0 where
  pub id : ℕ
  pub listing_id : ℕ
  pub reporter_id : ℕ
  pub reason : Reason
  pub description : String
  pub status : ReportStatus
  pub admin_note : Option String
  pub owner_notified_at : Option ℕ
  pub needs_super_approval : Bool
  pub reviewed_by : Option ℕ
  pub reviewed_at : Option ℕ
  pub created_at : ℕ

pub record StoredFile : Type 0 where
  pub name : String
  pub mime : String
  pub size : ℕ
  pub stored_as : String

pub record SeatOrder : Type 0 where
  pub id : ℕ
  pub buyer_id : ℕ
  pub seats : ℕ
  pub unit_price_toman : ℕ
  pub total_toman : ℕ
  pub status : OrderStatus
  pub buyer_note : Option String
  pub admin_note : Option String
  pub receipt : Option StoredFile
  pub reviewed_by : Option ℕ
  pub reviewed_at : Option ℕ
  pub acknowledged_at : Option ℕ
  pub created_at : ℕ

pub record Session : Type 0 where
  pub id : ℕ
  pub token_hash : ℕ
  pub user_id : ℕ
  pub expires_at : ℕ
  pub ended_at : Option ℕ
  pub end_reason : Option EndReason

pub record Activity : Type 0 where
  pub user_id : Option ℕ
  pub action : Action
  pub target_type : Target
  pub target_id : ℕ
  pub created_at : ℕ

-- A LOGIN_FAILED row of the activity log, with the columns that the lockout reads: `summary` is the
-- user name that was tried.
pub record LoginFailure : Type 0 where
  pub user_id : Option ℕ
  pub summary : ℕ
  pub ip : Option ℕ
  pub created_at : ℕ

pub record Ticket : Type 0 where
  pub id : ℕ
  pub user_id : ℕ
  pub subject : String
  pub category : TicketCategory
  pub status : TicketStatus
  pub priority : TicketPriority
  pub last_reply_at : ℕ
  pub created_at : ℕ

pub record TicketMessage : Type 0 where
  pub id : ℕ
  pub ticket_id : ℕ
  pub author_id : ℕ
  pub body : String
  pub is_staff : Bool
  pub created_at : ℕ

pub record TicketAttachment : Type 0 where
  pub id : ℕ
  pub message_id : ℕ
  pub file : StoredFile

-- A message handed to the text-message service.
pub record Sms : Type 0 where
  pub to : String
  pub strikes : ℕ
  pub limit : ℕ
  pub user_id : ℕ

pub record CarBrand : Type 0 where
  pub id : ℕ
  pub is_active : Bool

pub record CarModel : Type 0 where
  pub id : ℕ
  pub brand_id : ℕ
  pub is_active : Bool

-- A row of BrandAccess or of ModelAccess: the account, and the brand or the model.
pub record Grant : Type 0 where
  pub user_id : ℕ
  pub target_id : ℕ

-- A window of a counter in the memory of the process.
pub record Entry : Type 0 where
  pub key : ℕ
  pub started_at : ℕ
  pub count : ℕ
  pub seen : Option (List ℕ)

-- `ip` is `none` where the address is not known. The fingerprint is the pair of rule and address.
pub record SecurityEvent : Type 0 where
  pub rule : ThreatRule
  pub ip : Option ℕ
  pub severity : Severity
  pub count : ℕ
  pub user_id : Option ℕ
  pub last_seen : ℕ
  pub resolved_at : Option ℕ

pub record BlockedIp : Type 0 where
  pub ip : ℕ
  pub until : Option ℕ
  pub created_by : Option ℕ

-- A message handed to the Telegram channel.
pub record Alarm : Type 0 where
  pub rule : ThreatRule
  pub ip : Option ℕ
  pub count : ℕ
  pub sent_at : ℕ

-- The whole database, and the counters in the memory of the process; `next_id` stands for the generator of fresh identifiers.
pub record Db : Type 0 where
  pub users : List User
  pub plans : List Plan
  pub subscriptions : List Subscription
  pub listings : List Listing
  pub reveals : List Reveal
  pub reports : List Report
  pub seat_orders : List SeatOrder
  pub sessions : List Session
  pub activity : List Activity
  pub login_failures : List LoginFailure
  pub tickets : List Ticket
  pub ticket_messages : List TicketMessage
  pub ticket_attachments : List TicketAttachment
  pub outbox : List Sms
  pub security_events : List SecurityEvent
  pub blocked_ips : List BlockedIp
  pub alarms : List Alarm
  pub brute_force_hits : List Entry
  pub spray_hits : List Entry
  pub car_brands : List CarBrand
  pub car_models : List CarModel
  pub brand_access : List Grant
  pub model_access : List Grant
  -- the rows of the settings table, where the operator has set them
  pub seat_price_row : Option ℕ
  pub report_daily_limit_row : Option ℕ
  pub next_id : ℕ

-- The wording of the notes that the code writes into rows.
pub record Texts : Type 0 where
  pub moved_by_hand : String
  pub opened_by_hand : String
  pub under_review : String
  pub report_upheld : String

-- What a request finds outside the database: the time, the offset of the Tehran clock, how the
-- runtime writes a date, and the wording.
pub record Env : Type 0 where
  pub now : ℕ
  pub offset_ms : ℕ → ℕ
  pub iso_date : ℕ → String
  pub texts : Texts
