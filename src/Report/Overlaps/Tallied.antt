-- ===== src/Report/Overlaps/Tallied.antt =====
-- The strikes of an account while reviews overlap
-- (backend/src/modules/report/report.service.js).
use havale_khodro.Prelude.{
  ◌≡◌, arith, ◌==◌, Bool-cases, Option-cases, without_first, count_where-without_first, other_row,
  find_first, count_where, find_first_holds, ℕ, ◌≤◌, String, refl, sym, ap, ◌∙◌, inl, inr, false,
  Option, none, some, List, [], ◌∷◌,
}
use havale_khodro.Report.Overlaps.{
  step, run, taken, concluded, finish_review, Step, IsAlone, IsApart, take_up, finish, Desk,
  pending_report, hold_pending, is_about, file_one, approve_one,
}
use havale_khodro.Report.Histories.Served.{create_report-IsTallied}
use havale_khodro.Report.Store.{
  ReportRow, suspend_account, find_report, hide_listing, update_report,
}
use havale_khodro.Report.Review.{approve_suspension, review, log_report, suspension_target}
use havale_khodro.Schema.Enums.{
  ReportStatus, is_pending, report_held, account_suspended_by_strikes, Target,
}
use havale_khodro.Schema.Entities.{Db, Env, User}
use havale_khodro.Report.Tally.{IsTallied, update_report-IsTallied, hide_listing-IsTallied}
use havale_khodro.Exec.Laws.{Keeps, found-after, Keeps-then, require-after}
use havale_khodro.Exec.{after, not_found, report_row, pure, bad_request, no_approval_pending}
use havale_khodro.Report.Histories.Filed.{file_report-Keeps}
use havale_khodro.Report.Waiting.{
  record_activity-IsWaiting, IsWaiting, find_report-IsWaiting, create_report-IsWaiting,
  log_report-IsWaiting, update_quiet-IsWaiting, hide_listing-IsWaiting, by_verdict-IsWaiting,
  elsewhere-IsWaiting,
}
use havale_khodro.Report.Histories.Tallies.{
  log_report-IsTallied, by_verdict-IsTallied, record_activity-IsTallied,
  approve_suspension-IsTallied,
}

-- At most one review has read a report, and what it has read still holds.
pub record IsReady (x : Desk) : Type 0 where
  pub alone : (id : ℕ) → count_where (is_about id) x.in_review ≤ 1
  pub waiting :
      (id : ℕ) (row : ReportRow)
      → find_first (is_about id) x.in_review ≡ some row
      → IsWaiting row x.db

kept-IsReady :
    (x : Desk) (s : Db)
    → ((row : ReportRow) → IsWaiting row x.db → IsWaiting row s)
    → IsReady x
    → IsReady (record x { db = s })
kept-IsReady x s h r = record { alone = r.alone; waiting = λ id o e. h o (r.waiting id o e) }

pending_report-IsWaiting :
    (id : ℕ) (row : ReportRow) (s : Db)
    → pending_report id s ≡ some row
    → IsWaiting row s × (row.report.id ≡ id)
unfolding pending_report
pending_report-IsWaiting id row s h = elim (Option-cases (find_report id s)) [
  | inl e ↦ ground arith
  | inr (r, e) ↦ elim (Bool-cases (is_pending r.report.status)) [
    | inl p ↦
        let same : r ≡ row = ground arith in
        let (its_id, stands) = find_report-IsWaiting id s r e p in rw (sym same) (stands, its_id)
    | inr p ↦ ground arith
  ]
]

taken-IsReady :
    (id : ℕ) (row : ReportRow) (x : Desk)
    → count_where (is_about id) x.in_review ≡ 0
    → pending_report id x.db ≡ some row
    → IsReady x
    → IsReady (record x { in_review = row ∷ x.in_review })
unfolding find_first count_where
taken-IsReady id row x z h r =
    let (stands, here) = pending_report-IsWaiting id row x.db h in
    record {
      alone = λ k. elim (Bool-cases (is_about k row)) [
        | inl b ↦
            let same_id : id ≡ k = ground (arith, here, b) in
            let none_left = ap (λ m. count_where (is_about m) x.in_review) (sym same_id) ∙ z in
            ground (arith, b, none_left)
        | inr b ↦ ground (arith, b, r.alone k)
      ];
      waiting = λ k p e. elim (Bool-cases (is_about k row)) [
        | inl b ↦ let same : row ≡ p = ground arith in rw (sym same) stands
        | inr b ↦ r.waiting k p (ground arith)
      ];
    }

approve_suspension-IsWaiting :
    (row : ReportRow) (env : Env) (actor : User) (k : ℕ)
    → Keeps (IsWaiting row) (approve_suspension env actor k)
unfolding approve_suspension suspend_account
approve_suspension-IsWaiting row env actor k s w =
    found-after (IsWaiting row) (find_report k s) (not_found report_row) _ s w (λ it e.
      require-after (IsWaiting row) it.report.needs_super_approval (bad_request no_approval_pending)
        _ s w
        (λ p.
          let target = (suspension_target it).id in
          let gone = suspend_account env target s in
          record_activity-IsWaiting row env actor.id account_suspended_by_strikes Target.user target
            (update_report k (λ r. record r { needs_super_approval = false }) gone)
            (update_quiet-IsWaiting row k (λ r. record r { needs_super_approval = false }) gone
              (record { id = λ r. refl; status = λ r. refl; about = λ r. refl; by = λ r. refl })
              (elsewhere-IsWaiting row s gone refl refl w))))

finish_review-IsWaiting :
    (verdict : Option ReportStatus) (row other : ReportRow) (env : Env) (actor : User)
    (n : Option String) (s : Db)
    → (row.report.id == other.report.id) ≡ false
    → IsWaiting row s
    → IsWaiting row (after (finish_review verdict env actor other n s))
unfolding finish_review hold_pending
finish_review-IsWaiting none row other env actor n s ne w =
    let hidden = hide_listing env other.report.listing_id env.texts.under_review s in
    log_report-IsWaiting row env actor report_held other.report.id other.report.id
      (update_report other.report.id (λ r. record r { admin_note = n }) hidden)
      (update_quiet-IsWaiting row other.report.id (λ r. record r { admin_note = n }) hidden
        (record { id = λ r. refl; status = λ r. refl; about = λ r. refl; by = λ r. refl })
        (hide_listing-IsWaiting row env other.report.listing_id env.texts.under_review s w))
finish_review-IsWaiting (some verdict) row other env actor n s ne w =
    by_verdict-IsWaiting row env actor other n s ne w verdict

finish_review-IsTallied :
    (verdict : Option ReportStatus) (row : ReportRow) (env : Env) (actor : User) (n : Option String)
    (s : Db)
    → IsWaiting row s
    → IsTallied s
    → IsTallied (after (finish_review verdict env actor row n s))
unfolding finish_review hold_pending
finish_review-IsTallied none row env actor n s w t =
    let hidden = hide_listing env row.report.listing_id env.texts.under_review s in
    Keeps-then IsTallied (log_report env actor report_held row.report.id) (pure row.report.id)
      (log_report-IsTallied env actor report_held row.report.id) (λ _ h. h)
      (update_report row.report.id (λ r. record r { admin_note = n }) hidden)
      (update_report-IsTallied row.report.id (λ r. record r { admin_note = n }) hidden
        (record { id = λ r. refl; status = λ r. refl; about = λ r. refl; by = λ r. refl })
        (hide_listing-IsTallied env row.report.listing_id env.texts.under_review s t))
finish_review-IsTallied (some verdict) row env actor n s w t =
    by_verdict-IsTallied env actor row n s w t verdict

finished-IsReady :
    (verdict : Option ReportStatus) (env : Env) (actor : User) (id : ℕ) (row : ReportRow)
    (n : Option String) (x : Desk)
    → find_first (is_about id) x.in_review ≡ some row
    → IsReady x
    → IsReady (record {
      db = after (finish_review verdict env actor row n x.db);
      in_review = without_first (is_about id) x.in_review;
    })
finished-IsReady verdict env actor id row n x h r =
    let its_id : row.report.id ≡ id =
      ground (arith, find_first_holds (is_about id) x.in_review h) in
    record {
      alone = λ k.
          let less = count_where-without_first (is_about k) (is_about id) x.in_review in
          let one = r.alone k in omega (arith, less, one);
      waiting = λ k p e.
          let (ne, before) = other_row (λ y. y.report.id) k id p x.in_review (r.alone id) e in
          let its_k : p.report.id ≡ k =
            ground (arith, find_first_holds (is_about k) x.in_review before) in
          finish_review-IsWaiting verdict p row env actor n x.db (ground (arith, ne, its_k, its_id))
            (r.waiting k p before);
    }

step-IsTallied :
    (q : Step) (x : Desk)
    → IsAlone q x
    → IsReady x
    → IsTallied x.db
    → IsReady (step q x) × IsTallied (step q x).db
unfolding step taken concluded IsAlone
step-IsTallied (file_one env user id reason text) x a r t = (
  kept-IsReady x _
      (λ row.
        file_report-Keeps (IsWaiting row) (create_report-IsWaiting row)
          (record_activity-IsWaiting row) env user id reason text x.db)
      r,
  file_report-Keeps IsTallied create_report-IsTallied record_activity-IsTallied env user id reason
      text x.db t,
)
step-IsTallied (approve_one env actor id) x a r t = (
  kept-IsReady x _ (λ row. approve_suspension-IsWaiting row env actor id x.db) r,
  approve_suspension-IsTallied env actor id x.db t,
)
step-IsTallied (take_up id) x a r t = by_report (pending_report id x.db) refl
  where
    by_report :
        (it : Option ReportRow)
        → pending_report id x.db ≡ it
        → IsReady (taken it x) × IsTallied (taken it x).db
    by_report none e = (r, t)
    by_report (some row) e = (taken-IsReady id row x a e r, t)
step-IsTallied (finish verdict env actor id n) x a r t =
    by_report (find_first (is_about id) x.in_review) refl
  where
    by_report :
        (it : Option ReportRow)
        → find_first (is_about id) x.in_review ≡ it
        → IsReady (concluded verdict env actor id n it x)
          × IsTallied (concluded verdict env actor id n it x).db
    by_report none e = (r, t)
    by_report (some row) e = (
      finished-IsReady verdict env actor id row n x e r,
      finish_review-IsTallied verdict row env actor n x.db (r.waiting id row e) t,
    )

-- Reports are filed, reviewed, held and escalated, and other requests are served between the moment
-- at which a review or a hold reads a report and the moment at which it writes. As long as no two of
-- them that are about one report overlap, every account's strikes stay what the decided reports say:
-- one for each upheld report against a listing of the account, and one for each report of the account
-- that was found abusive.
pub run-IsTallied :
    (x : Desk) (steps : List Step)
    → IsApart x steps
    → IsReady x
    → IsTallied x.db
    → IsTallied (run x steps).db
unfolding run IsApart
run-IsTallied x [] a r t = t
run-IsTallied x (q ∷ rest) a r t =
    let (ready, tallied) = step-IsTallied q x a.0 r t in
    run-IsTallied (step q x) rest a.1 ready tallied

-- A review that nothing overlaps takes the report up and decides it at once.
pub review-run :
    (env : Env) (actor : User) (id : ℕ) (verdict : ReportStatus) (n : Option String) (s : Db)
    → (run
        (record { db = s; in_review = [] })
        (take_up id ∷ finish (some verdict) env actor id n ∷ [])).db
      ≡ after (review env actor id verdict n s)
unfolding run step taken concluded pending_report finish_review review find_first
review-run env actor id verdict n s = elim (Option-cases (find_report id s)) [
  | inl e ↦ ground arith
  | inr (row, e) ↦ elim (Bool-cases (is_pending row.report.status)) [
    | inl p ↦ let here = (find_report-IsWaiting id s row e p).0 in ground (arith, here)
    | inr p ↦ ground arith
  ]
]
