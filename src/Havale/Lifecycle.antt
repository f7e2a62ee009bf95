-- ===== src/Havale/Lifecycle.antt =====
-- `closingDate`, `requireOwn`, `renew`, `markFulfilled` and `remove` of
-- backend/src/modules/havale/havale.service.js. Each returns the listing's id, by which the caller
-- can read the row.
use havale_khodro.Prelude.{◌==◌, given, ℕ, ◌+◌, not, Option, none, some}
use havale_khodro.Exec.{
  ◌>>=◌, ◌>>◌, Exec, reads, require, writes, found, forbidden, not_found, listing_is_suspended,
  havale_row, pure,
}
use havale_khodro.Schema.Enums.{
  Kind, ListingStatus, havale_fulfilled, havale_deleted, Target, havale_renewed, listing_suspended,
}
use havale_khodro.Havale.Store.{find_by_id, update_listing}
use havale_khodro.Schema.Entities.{Env, User, Listing}
use havale_khodro.Time.{add_days}
use havale_khodro.Activity.{record_activity}

abbrev pub request_lifetime_days : ℕ
request_lifetime_days = 7

-- A sale order lives as long as the deposit window. A window that the row does not have is JavaScript's
-- null, which counts as no days: the order closes at once.
unfoldable pub closing_date : Kind → Option ℕ → ℕ → Option ℕ
closing_date Kind.offer none now = some now
closing_date Kind.offer (some days) now = some (add_days now days)
closing_date Kind.request deposit_days now = some (add_days now request_lifetime_days)

unfoldable pub require_own : User → ℕ → Exec Listing
unfolding find_by_id
require_own user id = do
  it ← reads (find_by_id id)
  row ← found it (not_found havale_row)
  require (row.0.owner_id == user.id) (not_found havale_row)
  pure row.0

-- `given ?? current`
abbrev pub given_or : Option ℕ → Option ℕ → Option ℕ
given_or none current = current
given_or (some given) current = some given

abbrev pub renewed_listing : Env → Option ℕ → Option ℕ → Listing → Listing → Listing
renewed_listing env delivery_days deposit_days read l = record l {
  status = ListingStatus.active;
  delivery_days = given_or delivery_days read.delivery_days;
  deposit_days = given_or deposit_days read.deposit_days;
  closes_at = closing_date read.kind (given_or deposit_days read.deposit_days) env.now;
  renewed_at = some env.now;
  renew_count = l.renew_count + 1;
}

unfoldable pub renew : Env → User → ℕ → Option ℕ → Option ℕ → Exec ℕ
unfolding require_own update_listing record_activity closing_date
renew env user id delivery_days deposit_days = do
  havale ← require_own user id
  require (not (listing_suspended havale.status)) (forbidden listing_is_suspended)
  writes (update_listing id (renewed_listing env delivery_days deposit_days havale))
  record_activity env user.id havale_renewed Target.havale id
  pure id

unfoldable pub mark_fulfilled : Env → User → ℕ → Exec ℕ
unfolding require_own update_listing record_activity
mark_fulfilled env user id = do
  havale ← require_own user id
  writes (update_listing id (λ l. record l { status = ListingStatus.fulfilled }))
  record_activity env user.id havale_fulfilled Target.havale id
  pure id

-- The row stays, with its reveals and its reports.
unfoldable pub remove : Env → User → ℕ → Exec ℕ
unfolding require_own update_listing record_activity
remove env user id = do
  havale ← require_own user id
  writes (update_listing id (λ l. record l { deleted_at = some env.now }))
  record_activity env user.id havale_deleted Target.havale id
  pure id
