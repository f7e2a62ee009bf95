-- ===== src/Report/Filing.antt =====
-- `create` of backend/src/modules/report/report.service.js: filing a report.
use havale_khodro.Prelude.{
  ltb, ◌==◌, get_or, present, ℕ, ◌-◌, ◌*◌, String, Bool, true, false, not, ◌||◌, Option, none, some,
}
use havale_khodro.Exec.{
  ◌>>=◌, ◌>>◌, transaction, Exec, reads, found, not_found, listing_row, require, bad_request,
  own_listing, too_old, conflict, already_reported, needs_contact_first, pure, forbidden,
  report_daily_limit, internal, unknown_enum_value, writes,
}
use havale_khodro.Schema.Entities.{Listing, Db, Env, User}
use havale_khodro.Time.{add_days}
use havale_khodro.Schema.Enums.{Reason, report_filed, Target, unreachable, contact_in_text}
use havale_khodro.Report.Store.{
  find_any_listing, find_by_listing_and_reporter, has_revealed, create_report,
  count_recent_by_reporter,
}
use havale_khodro.Activity.{record_activity}

abbrev pub report_window_days : ℕ
report_window_days = 30

-- `deletedAt || closesAt`
abbrev pub closed_at : Listing → Option ℕ
closed_at l = elim l.deleted_at [ none ↦ l.closes_at | some d ↦ some d ]

abbrev pub too_old_at : ℕ → Option ℕ → Bool
too_old_at now none = false
too_old_at now (some closed) = ltb (add_days closed report_window_days) now

-- The reasons that only somebody who has opened the contact may give.
abbrev pub requires_contact : Reason → Bool
requires_contact unreachable = true
requires_contact _ = false

-- The reasons that the column of the table can hold.
abbrev pub is_storable : Reason → Bool
is_storable contact_in_text = false
is_storable _ = true

-- `settingsService.get('report.dailyLimit')`
abbrev pub daily_report_limit : Db → ℕ
daily_report_limit s = get_or s.report_daily_limit_row 5

-- Count, compare and write under the reporter's lock.
unfoldable pub file : Env → ℕ → ℕ → Reason → String → ℕ → Exec ℕ
unfolding create_report count_recent_by_reporter
file env listing_id reporter_id reason description limit = do
  recent ← reads (count_recent_by_reporter reporter_id (env.now - 24 * 60 * 60 * 1000))
  require (ltb recent limit) (forbidden report_daily_limit)
  require (is_storable reason) (internal unknown_enum_value)
  id ← reads (λ s. s.next_id)
  writes (create_report env listing_id reporter_id reason description)
  pure id

-- The result is the report's id, by which the caller then reads the row.
unfoldable pub file_report : Env → User → ℕ → Reason → String → Exec ℕ
unfolding file find_any_listing find_by_listing_and_reporter has_revealed transaction
    record_activity
file_report env user listing_id reason description = do
  row ← reads (find_any_listing listing_id)
  listing ← found row (not_found listing_row)
  require (not (listing.owner_id == user.id)) (bad_request own_listing)
  require (not (too_old_at env.now (closed_at listing))) (bad_request too_old)
  existing ← reads (find_by_listing_and_reporter listing_id user.id)
  require (not (present existing)) (conflict already_reported)
  revealed ← reads (has_revealed listing_id user.id)
  require (not (requires_contact reason) || revealed) (bad_request needs_contact_first)
  limit ← reads daily_report_limit
  id ← transaction (file env listing_id user.id reason description limit)
  record_activity env user.id report_filed Target.havale listing_id
  pure id
