-- ===== src/Report/Verdicts.antt =====
-- What an upheld report does (`confirm` of backend/src/modules/report/report.service.js).
use havale_khodro.Prelude.{
  ◌≡◌, arith, ℕ, String, refl, Bool, true, false, not, ◌&&◌, Option, some, List, [], ◌∷◌, ◌++◌,
  ◌==◌, if◌then◌else◌, find_first, count_where, update_where, ◌+◌, find_first-updated, ap, ◌∙◌,
}
use havale_khodro.Report.Store.{
  suspend_account, confirm_against_owner, update_report, ReportRow, IsJoined, has_id,
  is_open_session, revoked_session, find_any_listing, decided, hidden_listing, fake_strike,
  suspended_user, find_report, find_report-IsJoined,
}
use havale_khodro.Report.Review.{
  suspend_if, confirm, notify_strike, log_report, reaches_threshold, strike_sms, review, by_verdict,
}
use havale_khodro.Schema.Entities.{Env, Db, User, Activity, Sms, Report, Session, Listing}
use havale_khodro.Roles.{can}
use havale_khodro.Exec.{done, ◌>>◌, pure, continue}
use havale_khodro.Schema.Enums.{
  third_strike, report_confirmed, ReportStatus, UserStatus, Target, ListingStatus, is_pending,
}
use havale_khodro.Activity.{record_activity-eq, find_user}

-- The suspension, when it is due and the reviewer may impose it.
suspended_db : Bool → Env → ℕ → Db → Db
unfolding suspend_account
suspended_db true env user_id s = suspend_account env user_id s
suspended_db false env user_id s = s

-- `needs`: the suspension waits for approval; `due`: it is imposed.
confirmed_db : Env → ℕ → ReportRow → Option String → Bool → Bool → Db → Db
unfolding confirm_against_owner suspended_db update_report
confirmed_db env by row n needs due s =
    update_report row.report.id (λ r. record r { owner_notified_at = some env.now })
      (suspended_db due env row.owner.id
        (confirm_against_owner env row.report.id by n row.owner.id row.report.listing_id needs s))

-- Both conditions of the third strike.
abbrev pub suspends : User → ReportRow → Bool
suspends actor row = reaches_threshold row.owner.fake_strikes && can actor.role third_strike

-- The condition on which the suspension waits for approval.
abbrev pub escalates : User → ReportRow → Bool
escalates actor row = reaches_threshold row.owner.fake_strikes && not (can actor.role third_strike)

-- What is written after the verdict and the strike: `notifyStrike` and the audit trail.
rest-eq :
    (due : Bool) (env : Env) (actor : User) (row : ReportRow) (struck : Db)
    → (rows : List Activity) × (texts : List Sms) × ((suspend_if due env row.owner.id
            >> (notify_strike env row.report.id row.owner
                >> (log_report env actor report_confirmed row.report.id >> pure row.report.id)))
          struck
        ≡ done row.report.id
            (record (update_report row.report.id
              (λ r. record r { owner_notified_at = some env.now })
              (suspended_db due env row.owner.id struck)) { activity = rows; outbox = texts }))
unfolding suspend_if notify_strike log_report suspended_db
rest-eq false env actor row struck =
    let base =
      update_report row.report.id (λ r. record r { owner_notified_at = some env.now }) struck in
    let texts = base.outbox ++ strike_sms row.owner ∷ [] in
    let (rows, e) =
      record_activity-eq env actor.id report_confirmed Target.report row.report.id
        (record base { outbox = texts }) in
    (rows, texts, ap (λ o. continue o (λ _. pure row.report.id)) e)
rest-eq true env actor row struck =
    let base =
      update_report row.report.id (λ r. record r { owner_notified_at = some env.now })
        (suspend_account env row.owner.id struck) in
    let texts = base.outbox ++ strike_sms row.owner ∷ [] in
    let (rows, e) =
      record_activity-eq env actor.id report_confirmed Target.report row.report.id
        (record base { outbox = texts }) in
    (rows, texts, ap (λ o. continue o (λ _. pure row.report.id)) e)

-- The database after a report is upheld, up to the rows of the audit trail and the outbox.
confirm-eq :
    (env : Env) (actor : User) (row : ReportRow) (n : Option String) (s : Db)
    → (rows : List Activity) × (texts : List Sms) × (confirm env actor row n s
        ≡ done row.report.id
            (record (confirmed_db env actor.id row n (escalates actor row) (suspends actor row) s) {
              activity = rows;
              outbox = texts;
            }))
unfolding confirm confirmed_db
confirm-eq env actor row n s = rest-eq (suspends actor row) env actor row (
    confirm_against_owner env row.report.id actor.id n row.owner.id row.report.listing_id
      (escalates actor row) s)

-- The owner's account after the strike, and the suspension if it is due.
abbrev pub struck : Env → Bool → User → User
struck env true u = suspended_user env (fake_strike u)
struck env false u = fake_strike u

-- What upholding a report has done to the database.
pub record IsUpheld (env : Env) (row : ReportRow) (needs due : Bool) (s t : Db) : Type 0 where
  pub report :
      (r : Report) × (find_first (has_id row.report.id) t.reports ≡ some r)
      × (r.status ≡ ReportStatus.confirmed)
      × (r.needs_super_approval ≡ needs)
  pub listing :
      (l : Listing) × (find_any_listing row.report.listing_id t ≡ some l)
      × (l.status ≡ ListingStatus.suspended)
  pub owner :
      (o : User) × (find_user row.owner.id t ≡ some o)
      × (o.fake_strikes ≡ row.owner.fake_strikes + 1)
      × (o.status ≡ (if due then UserStatus.suspended else row.owner.status))
  pub sessions :
      count_where (is_open_session row.owner.id) t.sessions
      ≡ (if due then 0 else count_where (is_open_session row.owner.id) s.sessions)
  pub users : t.users ≡ update_where (λ u. u.id == row.owner.id) (struck env due) s.users

pub revoked_none :
    (env : Env) (id : ℕ) (xs : List Session)
    → count_where (is_open_session id) (update_where (is_open_session id) (revoked_session env) xs)
      ≡ 0
unfolding count_where update_where
revoked_none env id [] = refl
revoked_none env id (x ∷ xs) = ground (arith, revoked_none env id xs)

-- The two writes to the owner are one.
struck_twice :
    (env : Env) (k : ℕ) (xs : List User)
    → update_where
        (λ u. u.id == k)
        (suspended_user env)
        (update_where (λ u. u.id == k) fake_strike xs)
      ≡ update_where (λ u. u.id == k) (struck env true) xs
unfolding update_where
struck_twice env k [] = refl
struck_twice env k (x ∷ xs) = ground (arith, struck_twice env k xs)

module _ (env : Env) (by : ℕ) (row : ReportRow) (n : Option String) (needs : Bool) (s : Db)
    (j : IsJoined s row) where
  report_after :
      (r : Report) × (find_first (has_id row.report.id) (
          update_where
            (has_id row.report.id)
            (λ r. record r { owner_notified_at = some env.now })
            (update_where
              (has_id row.report.id)
              (decided env ReportStatus.confirmed by n needs)
              s.reports))
        ≡ some r)
      × (r.status ≡ ReportStatus.confirmed)
      × (r.needs_super_approval ≡ needs)
  report_after = (
    record (decided env ReportStatus.confirmed by n needs row.report) {
      owner_notified_at = some env.now;
    },
    find_first-updated (has_id row.report.id) (λ r. record r { owner_notified_at = some env.now }) _
        (λ x. refl)
        (find_first-updated (has_id row.report.id) (decided env ReportStatus.confirmed by n needs)
          s.reports (λ x. refl) j.report_found),
    refl,
    refl,
  )

  listing_after :
      (l : Listing) × (find_first
          (λ l. l.id == row.report.listing_id)
          (update_where
            (λ l. l.id == row.report.listing_id)
            (hidden_listing env env.texts.report_upheld)
            s.listings)
        ≡ some l)
      × (l.status ≡ ListingStatus.suspended)
  listing_after = (
    hidden_listing env env.texts.report_upheld row.listing,
    find_first-updated (λ l. l.id == row.report.listing_id)
        (hidden_listing env env.texts.report_upheld) s.listings (λ x. refl) j.listing_found,
    refl,
  )

  struck_owner :
      find_first
        (λ u. u.id == row.owner.id)
        (update_where (λ u. u.id == row.owner.id) fake_strike s.users)
      ≡ some (fake_strike row.owner)
  struck_owner =
      find_first-updated (λ u. u.id == row.owner.id) fake_strike s.users (λ x. refl)
        (ap (λ m. find_first (λ u. u.id == m) s.users) j.owner_is ∙ j.owner_found)

  confirmed_db-IsUpheld :
      (due : Bool) → IsUpheld env row needs due s (confirmed_db env by row n needs due s)
  unfolding confirmed_db suspended_db suspend_account find_any_listing find_user
  confirmed_db-IsUpheld false = record {
    report = report_after;
    listing = listing_after;
    owner = (fake_strike row.owner, struck_owner, refl, refl);
    sessions = refl;
    users = refl;
  }
  confirmed_db-IsUpheld true = record {
    report = report_after;
    listing = listing_after;
    owner = (
      suspended_user env (fake_strike row.owner),
      find_first-updated (λ u. u.id == row.owner.id) (suspended_user env) _ (λ x. refl)
          struck_owner,
      refl,
      refl,
    );
    sessions = revoked_none env row.owner.id s.sessions;
    users = struck_twice env row.owner.id s.users;
  }

-- A pending report that a reviewer upholds: the review succeeds, the report is settled, its listing
-- is suspended, its owner has one strike more, and no other account changes. At the third strike a
-- reviewer who may impose it suspends the owner and ends every session of the owner; any other
-- reviewer changes neither and leaves the report waiting for approval.
pub review-IsUpheld :
    (env : Env) (actor : User) (id : ℕ) (n : Option String) (s : Db) (row : ReportRow)
    → find_report id s ≡ some row
    → is_pending row.report.status ≡ true
    → (t : Db) × (review env actor id ReportStatus.confirmed n s ≡ done row.report.id t)
      × IsUpheld env row (escalates actor row) (suspends actor row) s t
unfolding review by_verdict find_any_listing find_user
review-IsUpheld env actor id n s row e p =
    let j = (find_report-IsJoined id s row e).1 in
    let (rows, texts, q) = confirm-eq env actor row n s in
    let base = confirmed_db env actor.id row n (escalates actor row) (suspends actor row) s in
    let u =
      confirmed_db-IsUpheld env actor.id row n (escalates actor row) s j (suspends actor row) in
    (
      record base { activity = rows; outbox = texts },
      rw (e, p, q) refl,
      record {
        report = u.report;
        listing = u.listing;
        owner = u.owner;
        sessions = u.sessions;
        users = u.users;
      },
    )
