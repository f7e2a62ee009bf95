-- ===== src/Report/Overlaps.antt =====
-- Reviews of reports that overlap: `review` and `hold` of
-- backend/src/modules/report/report.service.js read the report and look at its status first, and
-- write later, with what they read. Other requests may be served in between.
use havale_khodro.Prelude.{
  ◌≡◌, arith, ◌==◌, if◌then◌else◌, without_first, find_first, count_where, ℕ, String, Bool, Option,
  none, some, List, [], ◌∷◌,
}
pub mod Tallied
use havale_khodro.Exec.{◌>>=◌, ◌>>◌, Exec, after, writes, pure}
use havale_khodro.Schema.Entities.{Db, Env, User}
use havale_khodro.Report.Store.{ReportRow, find_report, hide_listing, update_report}
use havale_khodro.Report.Review.{by_verdict, approve_suspension, log_report}
use havale_khodro.Schema.Enums.{ReportStatus, is_pending, Reason, report_held}
use havale_khodro.Report.Filing.{file_report}

-- The database, and the reports that reviews have read and not decided yet, as they were read.
pub record Desk : Type 0 where
  pub db : Db
  pub in_review : List ReportRow

abbrev pub is_about : ℕ → ReportRow → Bool
is_about id row = row.report.id == id

-- What a review does before its transaction: the report, if it is there and pending.
unfoldable pub pending_report : ℕ → Db → Option ReportRow
unfolding find_report
pending_report id s = elim (find_report id s) [
  | none ↦ none
  | some row ↦ if is_pending row.report.status then some row else none
]

-- What `hold` writes.
unfoldable pub hold_pending : Env → User → ReportRow → Option String → Exec ℕ
unfolding hide_listing update_report log_report
hold_pending env actor row n = do
  writes (hide_listing env row.report.listing_id env.texts.under_review)
  writes (update_report row.report.id (λ r. record r { admin_note = n }))
  log_report env actor report_held row.report.id
  pure row.report.id

-- How a review ends: with a verdict, or with none yet.
unfoldable pub finish_review : Option ReportStatus → Env → User → ReportRow → Option String → Exec ℕ
unfolding by_verdict hold_pending
finish_review none env actor row n = hold_pending env actor row n
finish_review (some verdict) env actor row n = by_verdict verdict env actor row n

pub data Step : Type 0 where
  file_one : Env → User → ℕ → Reason → String → Step
  approve_one : Env → User → ℕ → Step
  take_up : ℕ → Step
  finish : Option ReportStatus → Env → User → ℕ → Option String → Step

unfoldable pub taken : Option ReportRow → Desk → Desk
taken none x = x
taken (some row) x = record x { in_review = row ∷ x.in_review }

unfoldable pub concluded :
    Option ReportStatus → Env → User → ℕ → Option String → Option ReportRow → Desk → Desk
unfolding finish_review without_first
concluded verdict env actor id n none x = x
concluded verdict env actor id n (some row) x = record {
  db = after (finish_review verdict env actor row n x.db);
  in_review = without_first (is_about id) x.in_review;
}

unfoldable pub step : Step → Desk → Desk
unfolding pending_report taken concluded find_first file_report approve_suspension
step (file_one env user id reason text) x = record x {
  db = after (file_report env user id reason text x.db);
}
step (approve_one env actor id) x = record x { db = after (approve_suspension env actor id x.db) }
step (take_up id) x = taken (pending_report id x.db) x
step (finish verdict env actor id n) x =
    concluded verdict env actor id n (find_first (is_about id) x.in_review) x

unfoldable pub run : Desk → List Step → Desk
unfolding step
run x [] = x
run x (q ∷ rest) = run (step q x) rest

-- No review takes up a report that another one has taken up and not decided.
unfoldable pub IsAlone : Step → Desk → Type 0
IsAlone (take_up id) x = count_where (is_about id) x.in_review ≡ 0
IsAlone (file_one env user id reason text) x = Unit {0}
IsAlone (approve_one env actor id) x = Unit {0}
IsAlone (finish verdict env actor id n) x = Unit {0}

unfoldable pub IsApart : Desk → List Step → Type 0
unfolding step
IsApart x [] = Unit {0}
IsApart x (q ∷ rest) = IsAlone q x × IsApart (step q x) rest
