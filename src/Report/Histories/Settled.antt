-- ===== src/Report/Histories/Settled.antt =====
-- A report that is decided stays decided (backend/src/modules/report/report.service.js).
use havale_khodro.Prelude.{
  ◌≡◌, arith, ◌==◌, if◌then◌else◌, find_first, find_first-update_where, ℕ, String, refl, ap, Bool,
  true, false, Option, some, not, ◌&&◌,
}
use havale_khodro.Schema.Entities.{Db, Report, Env, User}
use havale_khodro.Report.Store.{
  update_report, suspend_account, has_id, ReportRow, rejection, mark_abusive, confirm_against_owner,
  hide_listing, decided, find_report,
}
use havale_khodro.Report.Review.{
  log_report, suspend_if, notify_strike, by_verdict, confirm, mark_report_abusive, reject, review,
  hold, approve_suspension, reaches_threshold, suspension_target,
}
use havale_khodro.Schema.Enums.{
  is_pending, Action, Target, report_confirmed, report_marked_abusive, ReportStatus,
  report_rejected, third_strike, report_held, account_suspended_by_strikes,
}
use havale_khodro.Exec.Laws.{Keeps, Keeps-then, found-after, require-after}
use havale_khodro.Exec.{
  ◌>>◌, pure, after, not_found, report_row, bad_request, already_reviewed, no_approval_pending,
}
use havale_khodro.Activity.{record_activity, record_activity-eq}
use havale_khodro.Report.Verdicts.{escalates, suspends}
use havale_khodro.Roles.{can}

-- The report exists and has a verdict.
pub record IsSettled (id : ℕ) (s : Db) : Type 0 where
  pub row : Report
  pub row_found : find_first (has_id id) s.reports ≡ some row
  pub decided_row : is_pending row.status ≡ false

-- A write that takes no verdict back.
record IsLasting (f : Report → Report) : Type 0 where
  same_id : (x : Report) → (f x).id ≡ x.id
  lasting : (x : Report) → is_pending x.status ≡ false → is_pending (f x).status ≡ false

-- A write that gives a verdict.
pub record IsDecision (f : Report → Report) : Type 0 where
  pub same_id : (x : Report) → (f x).id ≡ x.id
  pub decides : (x : Report) → is_pending (f x).status ≡ false

module _ (id : ℕ) where
  update_report-IsSettled :
      (k : ℕ) (f : Report → Report) (s : Db)
      → IsLasting f
      → IsSettled id s
      → IsSettled id (update_report k f s)
  unfolding update_report
  update_report-IsSettled k f s q t =
      let e =
        find_first-update_where (has_id id) (has_id k) f s.reports
          (λ x. ap (λ n. n == id) (q.same_id x)) in
      record {
        row = if has_id k t.row then f t.row else t.row;
        row_found = ground (arith, e, t.row_found);
        decided_row = ground (arith, q.lasting t.row t.decided_row, t.decided_row);
      }

  pub record_activity-IsSettled :
      (env : Env) (user_id : ℕ) (action : Action) (target : Target) (i : ℕ)
      → Keeps (IsSettled id) (record_activity env user_id action target i)
  record_activity-IsSettled env user_id action target i s t =
      let (rows, e) = record_activity-eq env user_id action target i s in
      rw e (record { row = t.row; row_found = t.row_found; decided_row = t.decided_row })

  log_report-IsSettled :
      (env : Env) (actor : User) (action : Action) (k : ℕ)
      → Keeps (IsSettled id) (log_report env actor action k >> pure k)
  unfolding log_report
  log_report-IsSettled env actor action k =
      Keeps-then (IsSettled id) (record_activity env actor.id action Target.report k) (pure k)
        (record_activity-IsSettled env actor.id action Target.report k) (λ s t. t)

  suspend_account-IsSettled :
      (env : Env) (u : ℕ) (s : Db) → IsSettled id s → IsSettled id (suspend_account env u s)
  unfolding suspend_account
  suspend_account-IsSettled env u s t = record {
    row = t.row;
    row_found = t.row_found;
    decided_row = t.decided_row;
  }

  suspend_if-IsSettled : (b : Bool) (env : Env) (u : ℕ) → Keeps (IsSettled id) (suspend_if b env u)
  unfolding suspend_if
  suspend_if-IsSettled true env u s t = suspend_account-IsSettled env u s t
  suspend_if-IsSettled false env u s t = t

  notify_strike-IsSettled :
      (env : Env) (k : ℕ) (owner : User) → Keeps (IsSettled id) (notify_strike env k owner)
  unfolding notify_strike
  notify_strike-IsSettled env k owner s t =
      let u =
        update_report-IsSettled k (λ r. record r { owner_notified_at = some env.now }) s
          (record { same_id = λ x. refl; lasting = λ x h. h }) t in
      record { row = u.row; row_found = u.row_found; decided_row = u.decided_row }

  -- What follows the verdict itself.
  after_confirm-IsSettled :
      (b : Bool) (env : Env) (actor : User) (row : ReportRow)
      → Keeps (IsSettled id) (
          suspend_if b env row.owner.id
          >> (notify_strike env row.report.id row.owner
              >> (log_report env actor report_confirmed row.report.id >> pure row.report.id)))
  after_confirm-IsSettled b env actor row =
      let logged = log_report env actor report_confirmed row.report.id >> pure row.report.id in
      Keeps-then (IsSettled id) (suspend_if b env row.owner.id)
        (notify_strike env row.report.id row.owner >> logged)
        (suspend_if-IsSettled b env row.owner.id)
        (Keeps-then (IsSettled id) (notify_strike env row.report.id row.owner) logged
          (notify_strike-IsSettled env row.report.id row.owner)
          (log_report-IsSettled env actor report_confirmed row.report.id))

  after_abusive-IsSettled :
      (b : Bool) (env : Env) (actor : User) (row : ReportRow)
      → Keeps (IsSettled id) (
          suspend_if b env row.reporter.id
          >> (log_report env actor report_marked_abusive row.report.id >> pure row.report.id))
  after_abusive-IsSettled b env actor row =
      Keeps-then (IsSettled id) (suspend_if b env row.reporter.id)
        (log_report env actor report_marked_abusive row.report.id >> pure row.report.id)
        (suspend_if-IsSettled b env row.reporter.id)
        (log_report-IsSettled env actor report_marked_abusive row.report.id)

  mark_report_abusive-IsSettled :
      (env : Env) (actor : User) (row : ReportRow) (n : Option String) (s : Db)
      → ((f : Report → Report) → IsDecision f → IsSettled id (update_report row.report.id f s))
      → IsSettled id (after (mark_report_abusive env actor row n s))
  unfolding mark_report_abusive mark_abusive
  mark_report_abusive-IsSettled env actor row n s h =
      let would = reaches_threshold row.reporter.false_report_strikes in
      let may = can actor.role third_strike in
      let u =
        h (decided env ReportStatus.abusive actor.id n (would && not may))
          (record { same_id = λ x. refl; decides = λ x. refl }) in
      after_abusive-IsSettled (would && may) env actor row
        (mark_abusive env row.report.id actor.id n row.reporter.id (would && not may) s)
        (record { row = u.row; row_found = u.row_found; decided_row = u.decided_row })

  -- A verdict decides, or leaves decided, every report that its first write leaves decided.
  pub by_verdict-IsSettled :
      (v : ReportStatus) (env : Env) (actor : User) (row : ReportRow) (n : Option String) (s : Db)
      → ((f : Report → Report) → IsDecision f → IsSettled id (update_report row.report.id f s))
      → IsSettled id (after (by_verdict v env actor row n s))
  unfolding by_verdict confirm confirm_against_owner mark_report_abusive reject
  by_verdict-IsSettled ReportStatus.rejected env actor row n s h =
      log_report-IsSettled env actor report_rejected row.report.id
        (update_report row.report.id (rejection env actor.id n) s)
        (h (rejection env actor.id n) (record { same_id = λ x. refl; decides = λ x. refl }))
  by_verdict-IsSettled ReportStatus.confirmed env actor row n s h =
      let needs = escalates actor row in
      let u =
        h (decided env ReportStatus.confirmed actor.id n needs)
          (record { same_id = λ x. refl; decides = λ x. refl }) in
      after_confirm-IsSettled (suspends actor row) env actor row
        (confirm_against_owner env row.report.id actor.id n row.owner.id row.report.listing_id needs
          s)
        (record { row = u.row; row_found = u.row_found; decided_row = u.decided_row })
  by_verdict-IsSettled ReportStatus.pending env actor row n s h =
      mark_report_abusive-IsSettled env actor row n s h
  by_verdict-IsSettled ReportStatus.abusive env actor row n s h =
      mark_report_abusive-IsSettled env actor row n s h

  pub review-IsSettled :
      (env : Env) (actor : User) (k : ℕ) (v : ReportStatus) (n : Option String)
      → Keeps (IsSettled id) (review env actor k v n)
  unfolding review
  review-IsSettled env actor k v n s t =
      found-after (IsSettled id) (find_report k s) (not_found report_row) _ s t (λ row e.
        require-after (IsSettled id) (is_pending row.report.status) (bad_request already_reviewed)
          (by_verdict v env actor row n) s t
          (λ p. by_verdict-IsSettled v env actor row n s (λ f q.
            update_report-IsSettled row.report.id f s
              (record { same_id = q.same_id; lasting = λ x h. q.decides x }) t)))

  pub hold-IsSettled :
      (env : Env) (actor : User) (k : ℕ) (n : Option String)
      → Keeps (IsSettled id) (hold env actor k n)
  unfolding hold hide_listing
  hold-IsSettled env actor k n s t =
      found-after (IsSettled id) (find_report k s) (not_found report_row) _ s t (λ row e.
        require-after (IsSettled id) (is_pending row.report.status) (bad_request already_reviewed) _
          s t
          (λ p.
            let hidden = hide_listing env row.report.listing_id env.texts.under_review s in
            Keeps-then (IsSettled id) (log_report env actor report_held row.report.id) (pure k)
              (record_activity-IsSettled env actor.id report_held Target.report row.report.id)
              (λ _ h. h) (update_report k (λ r. record r { admin_note = n }) hidden)
              (update_report-IsSettled k (λ r. record r { admin_note = n }) hidden
                (record { same_id = λ x. refl; lasting = λ x h. h })
                (record { row = t.row; row_found = t.row_found; decided_row = t.decided_row }))))

  pub approve_suspension-IsSettled :
      (env : Env) (actor : User) (k : ℕ) → Keeps (IsSettled id) (approve_suspension env actor k)
  unfolding approve_suspension
  approve_suspension-IsSettled env actor k s t =
      found-after (IsSettled id) (find_report k s) (not_found report_row) _ s t (λ row e.
        require-after (IsSettled id) row.report.needs_super_approval
          (bad_request no_approval_pending) _ s t
          (λ p.
            let target = (suspension_target row).id in
            let gone = suspend_account env target s in
            record_activity-IsSettled env actor.id account_suspended_by_strikes Target.user target
              (update_report k (λ r. record r { needs_super_approval = false }) gone)
              (update_report-IsSettled k (λ r. record r { needs_super_approval = false }) gone
                (record { same_id = λ x. refl; lasting = λ x h. h })
                (suspend_account-IsSettled env target s t))))
