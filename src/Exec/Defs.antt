-- ===== src/Exec/Defs.antt =====
-- The errors of backend/src/errors/AppError.js and the actions that may throw them.
use havale_khodro.Prelude.{Bool, true, false, Option, none, some}
use havale_khodro.Schema.Entities.{Db}

-- What a message of backend/src/constants/messages.js, or a resource name, says.
pub data Message : Type 0 where
  gone own_contact owner_inactive daily_limit monthly_limit : Message
  own_listing too_old already_reported needs_contact_first report_daily_limit : Message
  already_reviewed no_approval_pending : Message
  not_reseller receipt_required order_already_reviewed no_capacity : Message
  not_editable listing_is_suspended unknown_model unknown_color no_network : Message
  date_invalid date_in_past date_too_far no_live_subscription plan_needed subscription_expired :
      Message
  unknown_enum_value plan_row havale_row listing_row report_row receipt_row order_row : Message
  child_row unknown_brand over_ceiling brand_not_granted : Message
  session_invalid session_kicked account_suspended locked_out invalid_credentials : Message
  password_unchanged ticket_closed agent_may_only_close ticket_row attachment_row : Message
  must_change one_level_only parent_needs_code username_taken phone_taken account_row : Message

-- One constructor for each class of error, which fixes the HTTP status; `internal` is an error that
-- the application does not throw on purpose.
pub data AppError : Type 0 where
  bad_request unauthorized forbidden not_found conflict reveal_limit_reached internal :
      Message → AppError

pub data Outcome {ℓ} (A : Type ℓ) : Type ℓ where
  done : A → Db → Outcome A
  thrown : AppError → Db → Outcome A

abbrev pub Exec {ℓ} : Type ℓ → Type ℓ
Exec A = Db → Outcome A

module _ {ℓ} {A : Type ℓ} where
  -- The database that the next request finds.
  abbrev pub after : Outcome A → Db
  after (done a s) = s
  after (thrown e s) = s

  abbrev pub succeeded : Outcome A → Bool
  succeeded (done a s) = true
  succeeded (thrown e s) = false

  abbrev pub pure : A → Exec A
  pure a s = done a s

  abbrev pub throw : AppError → Exec A
  throw e s = thrown e s

  abbrev pub reads : (Db → A) → Exec A
  reads f s = done (f s) s

  -- `if (!row) throw …`
  abbrev pub found : Option A → AppError → Exec A
  found none e = throw e
  found (some a) e = pure a

  -- A transaction rolls back when its body throws.
  abbrev pub rolled_back : Db → Outcome A → Outcome A
  rolled_back s (done a t) = done a t
  rolled_back s (thrown e t) = thrown e s

  unfoldable pub transaction : Exec A → Exec A
  transaction m s = rolled_back s (m s)

module _ {ℓ κ} {A : Type ℓ} {B : Type κ} where
  abbrev pub continue : Outcome A → (A → Exec B) → Outcome B
  continue (done a s) f = f a s
  continue (thrown e s) f = thrown e s

  infixl 10 ◌>>=◌
  abbrev pub ◌>>=◌ : Exec A → (A → Exec B) → Exec B
  ◌>>=◌ m f s = continue (m s) f

abbrev pub writes : (Db → Db) → Exec (Unit {0})
writes f s = done tt (f s)

-- `if (!test) throw …`
abbrev pub require : Bool → AppError → Exec (Unit {0})
require true e = pure tt
require false e = throw e

infixl 10 ◌>>◌
abbrev pub ◌>>◌ {ℓ} : {B : Type ℓ} → Exec (Unit {0}) → Exec B → Exec B
m >> n = m >>= λ _. n
