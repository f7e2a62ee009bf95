-- ===== src/Report/Histories/Decided.antt =====
-- No report is decided twice (backend/src/modules/report/report.service.js).
use havale_khodro.Prelude.{
  ◌≡◌, arith, Option-cases, find_first, find_first-append, ℕ, String, refl, ap, ◌∙◌, inl, inr,
  false, Option, List, [], ◌∷◌, ◌==◌, find_first-updated,
}
use havale_khodro.Report.Histories.Served.{
  Request, handle, serve, file_it, review_it, hold_it, approve_it,
}
use havale_khodro.Report.Store.{
  create_report, has_id, new_report, find_report, find_report-IsJoined, update_report,
}
use havale_khodro.Exec.Laws.{Keeps, found-done, require-done}
use havale_khodro.Schema.Entities.{Db, Env, User}
use havale_khodro.Report.Review.{review, hold, by_verdict}
use havale_khodro.Report.Histories.Settled.{
  IsSettled, record_activity-IsSettled, review-IsSettled, hold-IsSettled,
  approve_suspension-IsSettled, by_verdict-IsSettled,
}
use havale_khodro.Schema.Enums.{Reason, ReportStatus, is_pending}
use havale_khodro.Exec.{
  after, succeeded, done, not_found, report_row, bad_request, already_reviewed,
}
use havale_khodro.Report.Histories.Filed.{file_report-Keeps}

create_report-IsSettled :
    (id : ℕ) (env : Env) (listing_id reporter_id : ℕ) (reason : Reason) (text : String) (s : Db)
    → IsSettled id s
    → IsSettled id (create_report env listing_id reporter_id reason text s)
unfolding create_report
create_report-IsSettled id env listing_id reporter_id reason text s t = record {
  row = t.row;
  row_found = ground (
    arith,
    t.row_found,
    find_first-append (has_id id) s.reports
        (new_report env s.next_id listing_id reporter_id reason text ∷ []),
  );
  decided_row = t.decided_row;
}

handle-IsSettled : (id : ℕ) (q : Request) → Keeps (IsSettled id) (handle q)
unfolding handle
handle-IsSettled id (file_it env user i reason text) =
    file_report-Keeps (IsSettled id) (create_report-IsSettled id) (record_activity-IsSettled id) env
      user i reason text
handle-IsSettled id (review_it env actor k v n) = review-IsSettled id env actor k v n
handle-IsSettled id (hold_it env actor k n) = hold-IsSettled id env actor k n
handle-IsSettled id (approve_it env actor k) = approve_suspension-IsSettled id env actor k

serve-IsSettled :
    (id : ℕ) (s : Db) (requests : List Request) → IsSettled id s → IsSettled id (serve s requests)
unfolding serve
serve-IsSettled id s [] t = t
serve-IsSettled id s (q ∷ rest) t =
    serve-IsSettled id (after (handle q s)) rest (handle-IsSettled id q s t)

-- A report that has a verdict is neither reviewed nor held.
settled-refused :
    (id : ℕ) (env : Env) (actor : User) (v : ReportStatus) (n : Option String) (s : Db)
    → IsSettled id s
    → (succeeded (review env actor id v n s) ≡ false) × (succeeded (hold env actor id n s) ≡ false)
unfolding review hold
settled-refused id env actor v n s t = elim (Option-cases (find_report id s)) [
  | inl e ↦ (rw e refl, rw e refl)
  | inr (row, e) ↦
      let (i, j) = find_report-IsJoined id s row e in
      let same : row.report ≡ t.row =
        ground (arith, j.report_found, t.row_found, ap (λ k. find_first (has_id k) s.reports) i) in
      let p : is_pending row.report.status ≡ false =
        ap (λ x. is_pending x.status) same ∙ t.decided_row in
      (rw (e, p) refl, rw (e, p) refl)
]

moved : (a b : ℕ) (x y : Db) → a ≡ b → x ≡ y → IsSettled a x → IsSettled b y
moved a b x y p q t = rw (← p, ← q) t

-- Once a report has been reviewed, no later review and no later hold of it succeeds, whatever
-- requests are served in between.
pub review-serve :
    (env later : Env) (actor other : User) (id k : ℕ) (v w : ReportStatus) (n m : Option String)
    (s t : Db) (requests : List Request)
    → review env actor id v n s ≡ done k t
    → (succeeded (review later other id w m (serve t requests)) ≡ false)
      × (succeeded (hold later other id m (serve t requests)) ≡ false)
unfolding review update_report
review-serve env later actor other id k v w n m s t requests h =
    let (row, e, h1) = found-done (find_report id s) (not_found report_row) _ s t k h in
    let (p, h2) =
      require-done (is_pending row.report.status) (bad_request already_reviewed)
        (by_verdict v env actor row n) s t k h1 in
    let (i, j) = find_report-IsJoined id s row e in
    let settled : IsSettled row.report.id (after (by_verdict v env actor row n s)) =
      by_verdict-IsSettled row.report.id v env actor row n s (λ f q. record {
        row = f row.report;
        row_found =
            find_first-updated (has_id row.report.id) f s.reports
              (λ x. ap (λ c. c == row.report.id) (q.same_id x)) j.report_found;
        decided_row = q.decides row.report;
      }) in
    let first : IsSettled id t =
      moved row.report.id id (after (by_verdict v env actor row n s)) t i (ap after h2) settled in
    settled-refused id later other w m (serve t requests) (serve-IsSettled id t requests first)
