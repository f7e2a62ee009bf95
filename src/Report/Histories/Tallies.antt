-- ===== src/Report/Histories/Tallies.antt =====
-- Every operation on reports keeps the strikes tallied
-- (backend/src/modules/report/report.service.js).
use havale_khodro.Prelude.{
  ◌≡◌, ℕ, some, String, refl, Bool, true, false, Option, List, not, ◌&&◌, ◌==◌, Option-cases,
  find_first, sym, ap, ◌∙◌, inl, inr, arith,
}
use havale_khodro.Schema.Entities.{Db, Env, Activity, User, Sms, Report}
use havale_khodro.Report.Store.{
  find_report, ReportRow, update_report, confirm_against_owner, mark_abusive, rejection,
  hide_listing, suspend_account, has_id,
}
use havale_khodro.Activity.{record_activity, record_activity-eq}
use havale_khodro.Schema.Enums.{
  Action, Target, is_pending, report_rejected, third_strike, report_confirmed,
  report_marked_abusive, ReportStatus, report_held, account_suspended_by_strikes,
}
use havale_khodro.Exec.Laws.{Keeps, Keeps-then, found-after, require-after}
use havale_khodro.Report.Tally.{
  IsTallied, update_report-IsTallied, suspend_account-IsTallied, confirm_against_owner-IsTallied,
  mark_abusive-IsTallied, rejection-IsTallied, hide_listing-IsTallied, owned_by,
}
use havale_khodro.Exec.{
  after, ◌>>◌, pure, not_found, report_row, bad_request, already_reviewed, no_approval_pending,
}
use havale_khodro.Report.Review.{
  confirm, reject, notify_strike, suspend_if, log_report, reaches_threshold, mark_report_abusive,
  review, by_verdict, hold, approve_suspension, suspension_target,
}
use havale_khodro.Roles.{can}
use havale_khodro.Report.Waiting.{IsWaiting, find_report-IsWaiting}

-- The audit trail and the outbox hold no strike.
elsewhere-IsTallied :
    (s : Db) (rows : List Activity) (texts : List Sms)
    → IsTallied s
    → IsTallied (record s { activity = rows; outbox = texts })
elsewhere-IsTallied s rows texts t = record {
  keyed = t.keyed;
  fake = t.fake;
  false_reports = t.false_reports;
}

pub record_activity-IsTallied :
    (env : Env) (user_id : ℕ) (action : Action) (target : Target) (id : ℕ)
    → Keeps IsTallied (record_activity env user_id action target id)
record_activity-IsTallied env user_id action target id s t =
    let (rows, e) = record_activity-eq env user_id action target id s in
    rw e (elsewhere-IsTallied s rows s.outbox t)

notify_strike-IsTallied :
    (env : Env) (id : ℕ) (owner : User) → Keeps IsTallied (notify_strike env id owner)
unfolding notify_strike
notify_strike-IsTallied env id owner s t =
    let quiet =
      update_report-IsTallied id (λ r. record r { owner_notified_at = some env.now }) s
        (record { id = λ r. refl; status = λ r. refl; about = λ r. refl; by = λ r. refl }) t in
    elsewhere-IsTallied _ s.activity _ quiet

suspend_if-IsTallied :
    (b : Bool) (env : Env) (user_id : ℕ) → Keeps IsTallied (suspend_if b env user_id)
unfolding suspend_if
suspend_if-IsTallied true env user_id s t = suspend_account-IsTallied env user_id s t
suspend_if-IsTallied false env user_id s t = t

pub log_report-IsTallied :
    (env : Env) (actor : User) (action : Action) (id : ℕ)
    → Keeps IsTallied (log_report env actor action id)
unfolding log_report
log_report-IsTallied env actor action id =
    record_activity-IsTallied env actor.id action Target.report id

-- The strike goes to the owner of the listing.
struck :
    (owner_id listing_id k by : ℕ) (env : Env) (n : Option String) (needs : Bool) (s : Db)
    → IsTallied s
    → (r : Report) → find_first (has_id k) s.reports ≡ some r
    → is_pending r.status ≡ true
    → listing_id ≡ r.listing_id
    → owned_by owner_id (find_first (λ l. l.id == listing_id) s.listings) ≡ true
    → IsTallied (confirm_against_owner env k by n owner_id listing_id needs s)
struck owner_id listing_id k by env n needs s t r f p i o =
    elim (Option-cases (find_first (λ l. l.id == listing_id) s.listings)) [
      | inl e ↦ ground arith
      | inr (l, e) ↦
          let same_owner : owner_id ≡ l.owner_id = ground (arith, e, o) in
          let there = ap (λ m. find_first (λ x. x.id == m) s.listings) (sym i) ∙ e in
          rw (same_owner, i) (confirm_against_owner-IsTallied env k by n needs s t r f p l there)
    ]

-- A verdict on a report that is pending, and that may have been read earlier.
module _ (env : Env) (actor : User) (row : ReportRow) (n : Option String) (s : Db)
    (w : IsWaiting row s) (t : IsTallied s) where
  confirm-IsTallied : IsTallied (after (confirm env actor row n s))
  unfolding confirm
  confirm-IsTallied =
      let would = reaches_threshold row.owner.fake_strikes in
      let may = can actor.role third_strike in
      let logged = log_report env actor report_confirmed row.report.id >> pure row.report.id in
      Keeps-then IsTallied (suspend_if (would && may) env row.owner.id)
        (notify_strike env row.report.id row.owner >> logged)
        (suspend_if-IsTallied (would && may) env row.owner.id)
        (Keeps-then IsTallied (notify_strike env row.report.id row.owner) logged
          (notify_strike-IsTallied env row.report.id row.owner)
          (log_report-IsTallied env actor report_confirmed row.report.id))
        (confirm_against_owner env row.report.id actor.id n row.owner.id row.report.listing_id
          (would && not may) s)
        (struck row.owner.id row.report.listing_id row.report.id actor.id env n (would && not may) s
          t w.report w.report_found w.undecided (sym w.about) w.owned)

  mark_report_abusive-IsTallied : IsTallied (after (mark_report_abusive env actor row n s))
  unfolding mark_report_abusive
  mark_report_abusive-IsTallied =
      let would = reaches_threshold row.reporter.false_report_strikes in
      let may = can actor.role third_strike in
      Keeps-then IsTallied (suspend_if (would && may) env row.reporter.id)
        (log_report env actor report_marked_abusive row.report.id >> pure row.report.id)
        (suspend_if-IsTallied (would && may) env row.reporter.id)
        (log_report-IsTallied env actor report_marked_abusive row.report.id)
        (mark_abusive env row.report.id actor.id n row.reporter.id (would && not may) s)
        (rw (w.reporter_is ∙ sym w.by) (
          mark_abusive-IsTallied env row.report.id actor.id n (would && not may) s t w.report
            w.report_found w.undecided))

  reject-IsTallied : IsTallied (after (reject env actor row n s))
  unfolding reject
  reject-IsTallied =
      log_report-IsTallied env actor report_rejected row.report.id
        (update_report row.report.id (rejection env actor.id n) s)
        (rejection-IsTallied env row.report.id actor.id n false s t w.report w.report_found
          w.undecided)

  pub by_verdict-IsTallied : (v : ReportStatus) → IsTallied (after (by_verdict v env actor row n s))
  unfolding by_verdict
  by_verdict-IsTallied ReportStatus.rejected = reject-IsTallied
  by_verdict-IsTallied ReportStatus.confirmed = confirm-IsTallied
  by_verdict-IsTallied ReportStatus.pending = mark_report_abusive-IsTallied
  by_verdict-IsTallied ReportStatus.abusive = mark_report_abusive-IsTallied

-- A verdict keeps the strikes tallied.
pub review-IsTallied :
    (env : Env) (actor : User) (id : ℕ) (verdict : ReportStatus) (n : Option String)
    → Keeps IsTallied (review env actor id verdict n)
unfolding review
review-IsTallied env actor id verdict n s t =
    found-after IsTallied (find_report id s) (not_found report_row) _ s t (λ row e.
      require-after IsTallied (is_pending row.report.status) (bad_request already_reviewed)
        (by_verdict verdict env actor row n) s t
        (λ p.
          by_verdict-IsTallied env actor row n s (find_report-IsWaiting id s row e p).1 t verdict))

pub hold-IsTallied :
    (env : Env) (actor : User) (id : ℕ) (n : Option String) → Keeps IsTallied (hold env actor id n)
unfolding hold
hold-IsTallied env actor id n s t =
    found-after IsTallied (find_report id s) (not_found report_row) _ s t (λ row e.
      require-after IsTallied (is_pending row.report.status) (bad_request already_reviewed) _ s t
        (λ p.
          let hidden = hide_listing env row.report.listing_id env.texts.under_review s in
          Keeps-then IsTallied (log_report env actor report_held row.report.id) (pure id)
            (log_report-IsTallied env actor report_held row.report.id) (λ _ h. h)
            (update_report id (λ r. record r { admin_note = n }) hidden)
            (update_report-IsTallied id (λ r. record r { admin_note = n }) hidden
              (record { id = λ r. refl; status = λ r. refl; about = λ r. refl; by = λ r. refl })
              (hide_listing-IsTallied env row.report.listing_id env.texts.under_review s t))))

pub approve_suspension-IsTallied :
    (env : Env) (actor : User) (id : ℕ) → Keeps IsTallied (approve_suspension env actor id)
unfolding approve_suspension
approve_suspension-IsTallied env actor id s t =
    found-after IsTallied (find_report id s) (not_found report_row) _ s t (λ row e.
      require-after IsTallied row.report.needs_super_approval (bad_request no_approval_pending) _ s
        t
        (λ p.
          let target = (suspension_target row).id in
          let suspended_db = suspend_account env target s in
          record_activity-IsTallied env actor.id account_suspended_by_strikes Target.user target
            (update_report id (λ r. record r { needs_super_approval = false }) suspended_db)
            (update_report-IsTallied id (λ r. record r { needs_super_approval = false })
              suspended_db
              (record { id = λ r. refl; status = λ r. refl; about = λ r. refl; by = λ r. refl })
              (suspend_account-IsTallied env target s t))))
