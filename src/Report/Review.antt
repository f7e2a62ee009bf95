-- ===== src/Report/Review.antt =====
-- `review`, `confirm`, `markAbusive`, `hold`, `approveSuspension` and `notifyStrike` of
-- backend/src/modules/report/report.service.js. Each returns the report's id, by which the caller
-- then reads the row. Text messages never throw: one is a row of the outbox.
use havale_khodro.Prelude.{
  leb, if◌then◌else◌, ℕ, ◌+◌, String, Bool, true, false, not, ◌&&◌, Option, some, [], ◌∷◌, ◌++◌,
}
use havale_khodro.Exec.{
  ◌>>=◌, ◌>>◌, Exec, writes, reads, pure, found, not_found, report_row, require, bad_request,
  already_reviewed, no_approval_pending,
}
use havale_khodro.Activity.{record_activity}
use havale_khodro.Report.Store.{
  suspend_account, update_report, confirm_against_owner, mark_abusive, find_report, ReportRow,
  hide_listing, rejection,
}
use havale_khodro.Schema.Entities.{User, Env, Sms}
use havale_khodro.Schema.Enums.{
  ReportStatus, Action, is_abusive, Target, third_strike, report_confirmed, report_marked_abusive,
  report_rejected, is_pending, report_held, account_suspended_by_strikes,
}
use havale_khodro.Roles.{can}

abbrev pub strike_threshold : ℕ
strike_threshold = 3

-- `strikes + 1 >= STRIKE_THRESHOLD`
abbrev pub reaches_threshold : ℕ → Bool
reaches_threshold strikes = leb strike_threshold (strikes + 1)

unfoldable pub log_report : Env → User → Action → ℕ → Exec (Unit {0})
unfolding record_activity
log_report env actor action report_id = record_activity env actor.id action Target.report report_id

unfoldable pub suspend_if : Bool → Env → ℕ → Exec (Unit {0})
unfolding suspend_account
suspend_if true env user_id = writes (suspend_account env user_id)
suspend_if false env user_id = pure tt

abbrev pub strike_sms : User → Sms
strike_sms u = record {
  to = u.phone;
  strikes = u.fake_strikes + 1;
  limit = strike_threshold;
  user_id = u.id;
}

unfoldable pub notify_strike : Env → ℕ → User → Exec (Unit {0})
unfolding update_report
notify_strike env report_id owner = do
  writes (update_report report_id (λ r. record r { owner_notified_at = some env.now }))
  writes (λ s. record s { outbox = s.outbox ++ strike_sms owner ∷ [] })

unfoldable pub confirm : Env → User → ReportRow → Option String → Exec ℕ
unfolding confirm_against_owner suspend_account notify_strike log_report can
confirm env actor row n = do
  let would = reaches_threshold row.owner.fake_strikes
  let may = can actor.role third_strike
  writes (
      confirm_against_owner env row.report.id actor.id n row.owner.id row.report.listing_id
        (would && not may))
  suspend_if (would && may) env row.owner.id
  notify_strike env row.report.id row.owner
  log_report env actor report_confirmed row.report.id
  pure row.report.id

unfoldable pub mark_report_abusive : Env → User → ReportRow → Option String → Exec ℕ
unfolding mark_abusive suspend_account log_report can
mark_report_abusive env actor row n = do
  let would = reaches_threshold row.reporter.false_report_strikes
  let may = can actor.role third_strike
  writes (mark_abusive env row.report.id actor.id n row.reporter.id (would && not may))
  suspend_if (would && may) env row.reporter.id
  log_report env actor report_marked_abusive row.report.id
  pure row.report.id

unfoldable pub reject : Env → User → ReportRow → Option String → Exec ℕ
unfolding update_report log_report
reject env actor row n = do
  writes (update_report row.report.id (rejection env actor.id n))
  log_report env actor report_rejected row.report.id
  pure row.report.id

-- Any verdict but the first two is `ABUSIVE`.
unfoldable pub by_verdict : ReportStatus → Env → User → ReportRow → Option String → Exec ℕ
unfolding reject confirm mark_report_abusive
by_verdict ReportStatus.rejected env actor row n = reject env actor row n
by_verdict ReportStatus.confirmed env actor row n = confirm env actor row n
by_verdict _ env actor row n = mark_report_abusive env actor row n

-- The status is looked at outside the transaction of the verdict, and no lock is taken: this is a review
-- that no other one overlaps. One that overlaps is `by_verdict` on a row that was read before.
unfoldable pub review : Env → User → ℕ → ReportStatus → Option String → Exec ℕ
unfolding find_report by_verdict
review env actor report_id verdict n = do
  it ← reads (find_report report_id)
  row ← found it (not_found report_row)
  require (is_pending row.report.status) (bad_request already_reviewed)
  by_verdict verdict env actor row n

-- The listing goes down while the report stays pending.
unfoldable pub hold : Env → User → ℕ → Option String → Exec ℕ
unfolding find_report hide_listing update_report log_report
hold env actor report_id n = do
  it ← reads (find_report report_id)
  row ← found it (not_found report_row)
  require (is_pending row.report.status) (bad_request already_reviewed)
  writes (hide_listing env row.report.listing_id env.texts.under_review)
  writes (update_report report_id (λ r. record r { admin_note = n }))
  log_report env actor report_held row.report.id
  pure report_id

abbrev pub suspension_target : ReportRow → User
suspension_target row = if is_abusive row.report.status then row.reporter else row.owner

unfoldable pub approve_suspension : Env → User → ℕ → Exec ℕ
unfolding find_report suspend_account update_report record_activity
approve_suspension env actor report_id = do
  it ← reads (find_report report_id)
  row ← found it (not_found report_row)
  require row.report.needs_super_approval (bad_request no_approval_pending)
  writes (suspend_account env (suspension_target row).id)
  writes (update_report report_id (λ r. record r { needs_super_approval = false }))
  record_activity env actor.id account_suspended_by_strikes Target.user (suspension_target row).id
  pure report_id
