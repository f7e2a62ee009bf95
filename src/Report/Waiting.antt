-- ===== src/Report/Waiting.antt =====
-- What a review has read of a report holds while the report is pending
-- (backend/src/modules/report/report.service.js).
use havale_khodro.Prelude.{
  ◌≡◌, arith, ◌==◌, if◌then◌else◌, Option-cases, find_first, update_where, find_first_holds,
  find_first-update_where, find_first-append, ℕ, ◌+◌, String, refl, ap, ◌∙◌, inl, inr, Bool, true,
  false, not, ◌&&◌, Option, some, List, [], ◌∷◌,
}
use havale_khodro.Report.Store.{
  ReportRow, find_report, has_id, update_report, hide_listing, create_report, hidden_listing,
  suspend_account, find_report-IsJoined, new_report, mark_abusive, confirm_against_owner, rejection,
  decided,
}
use havale_khodro.Schema.Entities.{Db, Listing, Report, Env, User}
use havale_khodro.Report.Tally.{owned_by, IsQuiet}
use havale_khodro.Report.Review.{
  suspend_if, notify_strike, log_report, mark_report_abusive, confirm, by_verdict, reject,
  reaches_threshold,
}
use havale_khodro.Schema.Enums.{
  is_pending, Action, Reason, Target, ReportStatus, report_rejected, third_strike,
  report_marked_abusive, report_confirmed,
}
use havale_khodro.Exec.Laws.{Keeps, Keeps-then}
use havale_khodro.Activity.{record_activity, record_activity-eq}
use havale_khodro.Exec.{◌>>◌, pure, after}
use havale_khodro.Roles.{can}

-- The report is still pending, and what was read of it still holds.
pub record IsWaiting (row : ReportRow) (s : Db) : Type 0 where
  pub report : Report
  pub report_found : find_first (has_id row.report.id) s.reports ≡ some report
  pub undecided : is_pending report.status ≡ true
  pub about : report.listing_id ≡ row.report.listing_id
  pub by : report.reporter_id ≡ row.report.reporter_id
  pub owned :
      owned_by row.owner.id (find_first (λ l. l.id == row.report.listing_id) s.listings) ≡ true
  pub reporter_is : row.reporter.id ≡ row.report.reporter_id

pub find_report-IsWaiting :
    (id : ℕ) (s : Db) (row : ReportRow)
    → find_report id s ≡ some row
    → is_pending row.report.status ≡ true
    → (row.report.id ≡ id) × IsWaiting row s
find_report-IsWaiting id s row h p =
    let (its_id, j) = find_report-IsJoined id s row h in
    (
      its_id,
      record {
        report = row.report;
        report_found = j.report_found;
        undecided = p;
        about = refl;
        by = refl;
        owned = ground (arith, j.listing_found, j.owner_is);
        reporter_is = j.reporter_is;
      },
    )

-- A write to the listings that leaves their ids and their owners.
update_where-owned_by :
    (v i : ℕ) (p : Listing → Bool) (f : Listing → Listing) (xs : List Listing)
    → ((l : Listing) → (f l).id ≡ l.id)
    → ((l : Listing) → (f l).owner_id ≡ l.owner_id)
    → owned_by v (find_first (λ l. l.id == i) (update_where p f xs))
      ≡ owned_by v (find_first (λ l. l.id == i) xs)
update_where-owned_by v i p f xs h o =
    let e = find_first-update_where (λ l. l.id == i) p f xs (λ l. ap (λ n. n == i) (h l)) in
    elim (Option-cases (find_first (λ l. l.id == i) xs)) [
      | inl m ↦ ground (arith, e)
      | inr (l, m) ↦ ground (arith, e, o l)
    ]

module _ (row : ReportRow) where
  -- A write that reaches neither the report nor the owner of its listing.
  pub elsewhere-IsWaiting :
      (s t : Db)
      → t.reports ≡ s.reports
      → t.listings ≡ s.listings
      → IsWaiting row s
      → IsWaiting row t
  elsewhere-IsWaiting s t r l w = record {
    report = w.report;
    report_found = ap (λ xs. find_first (has_id row.report.id) xs) r ∙ w.report_found;
    undecided = w.undecided;
    about = w.about;
    by = w.by;
    owned =
        ap (λ xs. owned_by row.owner.id (find_first (λ x. x.id == row.report.listing_id) xs)) l
        ∙ w.owned;
    reporter_is = w.reporter_is;
  }

  pub record_activity-IsWaiting :
      (env : Env) (user_id : ℕ) (action : Action) (target : Target) (i : ℕ)
      → Keeps (IsWaiting row) (record_activity env user_id action target i)
  record_activity-IsWaiting env user_id action target i s w =
      let (rows, e) = record_activity-eq env user_id action target i s in
      rw e (elsewhere-IsWaiting s (record s { activity = rows }) refl refl w)

  pub update_quiet-IsWaiting :
      (k : ℕ) (f : Report → Report) (s : Db)
      → IsQuiet f
      → IsWaiting row s
      → IsWaiting row (update_report k f s)
  unfolding update_report
  update_quiet-IsWaiting k f s q w =
      let id = row.report.id in
      let e =
        find_first-update_where (has_id id) (has_id k) f s.reports
          (λ x. ap (λ n. n == id) (q.id x)) in
      record {
        report = if has_id k w.report then f w.report else w.report;
        report_found = ground (arith, e, w.report_found);
        undecided = ground (arith, q.status w.report, w.undecided);
        about = ground (arith, q.about w.report, w.about);
        by = ground (arith, q.by w.report, w.by);
        owned = w.owned;
        reporter_is = w.reporter_is;
      }

  -- A write to another report.
  pub update_other-IsWaiting :
      (k : ℕ) (f : Report → Report) (s : Db)
      → ((x : Report) → (f x).id ≡ x.id)
      → (row.report.id == k) ≡ false
      → IsWaiting row s
      → IsWaiting row (update_report k f s)
  unfolding update_report
  update_other-IsWaiting k f s h ne w =
      let id = row.report.id in
      let e =
        find_first-update_where (has_id id) (has_id k) f s.reports (λ x. ap (λ n. n == id) (h x)) in
      let here = find_first_holds (has_id id) s.reports w.report_found in
      record {
        report = w.report;
        report_found = ground (arith, e, here, ne, w.report_found);
        undecided = w.undecided;
        about = w.about;
        by = w.by;
        owned = w.owned;
        reporter_is = w.reporter_is;
      }

  pub hide_listing-IsWaiting :
      (env : Env) (k : ℕ) (reason : String) (s : Db)
      → IsWaiting row s
      → IsWaiting row (hide_listing env k reason s)
  unfolding hide_listing
  hide_listing-IsWaiting env k reason s w = record {
    report = w.report;
    report_found = w.report_found;
    undecided = w.undecided;
    about = w.about;
    by = w.by;
    owned =
        update_where-owned_by row.owner.id row.report.listing_id (λ l. l.id == k)
          (hidden_listing env reason) s.listings (λ l. refl) (λ l. refl)
        ∙ w.owned;
    reporter_is = w.reporter_is;
  }

  pub create_report-IsWaiting :
      (env : Env) (listing_id reporter_id : ℕ) (reason : Reason) (text : String) (s : Db)
      → IsWaiting row s
      → IsWaiting row (create_report env listing_id reporter_id reason text s)
  unfolding create_report
  create_report-IsWaiting env listing_id reporter_id reason text s w =
      let new = new_report env s.next_id listing_id reporter_id reason text in
      record {
        report = w.report;
        report_found =
            ground (
              arith,
              find_first-append (has_id row.report.id) s.reports (new ∷ []),
              w.report_found,
            );
        undecided = w.undecided;
        about = w.about;
        by = w.by;
        owned =
            update_where-owned_by row.owner.id row.report.listing_id (λ l. l.id == listing_id)
              (λ l. record l { report_count = l.report_count + 1 }) s.listings (λ l. refl)
              (λ l. refl)
            ∙ w.owned;
        reporter_is = w.reporter_is;
      }

  suspend_if-IsWaiting : (b : Bool) (env : Env) (u : ℕ) → Keeps (IsWaiting row) (suspend_if b env u)
  unfolding suspend_if suspend_account
  suspend_if-IsWaiting true env u s w = elsewhere-IsWaiting s _ refl refl w
  suspend_if-IsWaiting false env u s w = w

  notify_strike-IsWaiting :
      (env : Env) (k : ℕ) (owner : User) → Keeps (IsWaiting row) (notify_strike env k owner)
  unfolding notify_strike
  notify_strike-IsWaiting env k owner s w =
      let marked = update_report k (λ r. record r { owner_notified_at = some env.now }) s in
      elsewhere-IsWaiting marked _ refl refl (
        update_quiet-IsWaiting k (λ r. record r { owner_notified_at = some env.now }) s
          (record { id = λ r. refl; status = λ r. refl; about = λ r. refl; by = λ r. refl }) w)

  pub log_report-IsWaiting :
      (env : Env) (actor : User) (action : Action) (k i : ℕ)
      → Keeps (IsWaiting row) (log_report env actor action k >> pure i)
  unfolding log_report
  log_report-IsWaiting env actor action k i =
      Keeps-then (IsWaiting row) (record_activity env actor.id action Target.report k) (pure i)
        (record_activity-IsWaiting env actor.id action Target.report k) (λ s w. w)

  -- A verdict on another report.
  module _ (env : Env) (actor : User) (other : ReportRow) (n : Option String) (s : Db)
      (ne : (row.report.id == other.report.id) ≡ false) (w : IsWaiting row s) where
    abusive_other-IsWaiting : IsWaiting row (after (mark_report_abusive env actor other n s))
    unfolding mark_report_abusive mark_abusive
    abusive_other-IsWaiting =
        let would = reaches_threshold other.reporter.false_report_strikes in
        let may = can actor.role third_strike in
        let verdict = decided env ReportStatus.abusive actor.id n (would && not may) in
        Keeps-then (IsWaiting row) (suspend_if (would && may) env other.reporter.id)
          (log_report env actor report_marked_abusive other.report.id >> pure other.report.id)
          (suspend_if-IsWaiting (would && may) env other.reporter.id)
          (log_report-IsWaiting env actor report_marked_abusive other.report.id other.report.id)
          (mark_abusive env other.report.id actor.id n other.reporter.id (would && not may) s)
          (elsewhere-IsWaiting (update_report other.report.id verdict s) _ refl refl
            (update_other-IsWaiting other.report.id verdict s (λ x. refl) ne w))

    confirm_other-IsWaiting : IsWaiting row (after (confirm env actor other n s))
    unfolding confirm confirm_against_owner
    confirm_other-IsWaiting =
        let would = reaches_threshold other.owner.fake_strikes in
        let may = can actor.role third_strike in
        let needs = would && not may in
        let verdict = decided env ReportStatus.confirmed actor.id n needs in
        let logged =
          log_report env actor report_confirmed other.report.id >> pure other.report.id in
        let marked = update_report other.report.id verdict s in
        Keeps-then (IsWaiting row) (suspend_if (would && may) env other.owner.id)
          (notify_strike env other.report.id other.owner >> logged)
          (suspend_if-IsWaiting (would && may) env other.owner.id)
          (Keeps-then (IsWaiting row) (notify_strike env other.report.id other.owner) logged
            (notify_strike-IsWaiting env other.report.id other.owner)
            (log_report-IsWaiting env actor report_confirmed other.report.id other.report.id))
          (confirm_against_owner env other.report.id actor.id n other.owner.id
            other.report.listing_id needs s)
          (elsewhere-IsWaiting
            (hide_listing env other.report.listing_id env.texts.report_upheld marked) _ refl refl
            (hide_listing-IsWaiting env other.report.listing_id env.texts.report_upheld marked
              (update_other-IsWaiting other.report.id verdict s (λ x. refl) ne w)))

    pub by_verdict-IsWaiting :
        (v : ReportStatus) → IsWaiting row (after (by_verdict v env actor other n s))
    unfolding by_verdict reject
    by_verdict-IsWaiting ReportStatus.rejected =
        log_report-IsWaiting env actor report_rejected other.report.id other.report.id
          (update_report other.report.id (rejection env actor.id n) s)
          (update_other-IsWaiting other.report.id (rejection env actor.id n) s (λ x. refl) ne w)
    by_verdict-IsWaiting ReportStatus.confirmed = confirm_other-IsWaiting
    by_verdict-IsWaiting ReportStatus.pending = abusive_other-IsWaiting
    by_verdict-IsWaiting ReportStatus.abusive = abusive_other-IsWaiting
