-- ===== src/Report/Store.antt =====
-- backend/src/modules/report/report.repository.js: the queries and writes on reports. The pairs of
-- writes that the code sends as one transaction are one function here.
use havale_khodro.Prelude.{
  leb, ◌==◌, present, find_first, count_where, update_where, ℕ, ◌+◌, String, Bool, false, not, ◌&&◌,
  Option, none, some, [], ◌∷◌, ◌++◌, Option-cases, find_first_holds, ◌≡◌, inl, inr, arith, ap, ◌∙◌,
}
use havale_khodro.Schema.Entities.{Report, Db, Env, User, Session, Listing}
use havale_khodro.Activity.{find_user}
use havale_khodro.Reveal.{find_reveal}
use havale_khodro.Schema.Enums.{Reason, ReportStatus, UserStatus, EndReason, ListingStatus}

-- A report with what the query includes: the reporter, the listing and its owner.
pub record ReportRow : Type 0 where
  pub report : Report
  pub reporter : User
  pub listing : Listing
  pub owner : User

abbrev pub has_id : ℕ → Report → Bool
has_id id r = r.id == id

-- Soft-deleted listings are found too.
unfoldable pub find_any_listing : ℕ → Db → Option Listing
unfolding find_first
find_any_listing id s = find_first (λ l. l.id == id) s.listings

with_owner : Report → User → Option Listing → Db → Option ReportRow
unfolding find_user
with_owner r reporter none s = none
with_owner r reporter (some l) s = elim (find_user l.owner_id s) [
  | none ↦ none
  | some owner ↦ some (record { report = r; reporter = reporter; listing = l; owner = owner })
]

with_reporter : Report → Option User → Db → Option ReportRow
unfolding with_owner find_any_listing
with_reporter r none s = none
with_reporter r (some reporter) s = with_owner r reporter (find_any_listing r.listing_id s) s

joined : Option Report → Db → Option ReportRow
unfolding with_reporter find_user
joined none s = none
joined (some r) s = with_reporter r (find_user r.reporter_id s) s

-- The foreign keys provide the rows that are joined.
unfoldable pub find_report : ℕ → Db → Option ReportRow
unfolding joined find_first
find_report id s = joined (find_first (has_id id) s.reports) s

abbrev pub filed_by : ℕ → ℕ → Report → Bool
filed_by listing_id reporter_id r = r.listing_id == listing_id && r.reporter_id == reporter_id

unfoldable pub find_by_listing_and_reporter : ℕ → ℕ → Db → Option Report
unfolding find_first
find_by_listing_and_reporter listing_id reporter_id s =
    find_first (filed_by listing_id reporter_id) s.reports

abbrev pub recent_of : ℕ → ℕ → Report → Bool
recent_of reporter_id since r = r.reporter_id == reporter_id && leb since r.created_at

unfoldable pub count_recent_by_reporter : ℕ → ℕ → Db → ℕ
unfolding count_where
count_recent_by_reporter reporter_id since s = count_where (recent_of reporter_id since) s.reports

abbrev pub new_report : Env → ℕ → ℕ → ℕ → Reason → String → Report
new_report env id listing_id reporter_id reason description = record {
  id = id;
  listing_id = listing_id;
  reporter_id = reporter_id;
  reason = reason;
  description = description;
  status = ReportStatus.pending;
  admin_note = none;
  owner_notified_at = none;
  needs_super_approval = false;
  reviewed_by = none;
  reviewed_at = none;
  created_at = env.now;
}

-- The row, and the counter of its listing.
unfoldable pub create_report : Env → ℕ → ℕ → Reason → String → Db → Db
unfolding update_where
create_report env listing_id reporter_id reason description s = record s {
  reports = s.reports ++ new_report env s.next_id listing_id reporter_id reason description ∷ [];
  listings =
      update_where (λ l. l.id == listing_id) (λ l. record l { report_count = l.report_count + 1 })
        s.listings;
  next_id = s.next_id + 1;
}

unfoldable pub update_report : ℕ → (Report → Report) → Db → Db
unfolding update_where
update_report id f s = record s { reports = update_where (has_id id) f s.reports }

unfoldable pub update_user : ℕ → (User → User) → Db → Db
unfolding update_where
update_user id f s = record s { users = update_where (λ u. u.id == id) f s.users }

abbrev pub hidden_listing : Env → String → Listing → Listing
hidden_listing env reason l = record l {
  status = ListingStatus.suspended;
  suspend_reason = some reason;
  suspended_at = some env.now;
}

unfoldable pub hide_listing : Env → ℕ → String → Db → Db
unfolding update_where
hide_listing env id reason s = record s {
  listings = update_where (λ l. l.id == id) (hidden_listing env reason) s.listings;
}

abbrev pub decided : Env → ReportStatus → ℕ → Option String → Bool → Report → Report
decided env status reviewer_id n needs r = record r {
  status = status;
  reviewed_by = some reviewer_id;
  reviewed_at = some env.now;
  admin_note = n;
  needs_super_approval = needs;
}

abbrev pub rejection : Env → ℕ → Option String → Report → Report
rejection env reviewer_id n r = record r {
  status = ReportStatus.rejected;
  reviewed_by = some reviewer_id;
  reviewed_at = some env.now;
  admin_note = n;
}

abbrev pub fake_strike : User → User
fake_strike u = record u { fake_strikes = u.fake_strikes + 1 }

abbrev pub false_report_strike : User → User
false_report_strike u = record u { false_report_strikes = u.false_report_strikes + 1 }

-- The verdict, the listing and the strike are one decision.
unfoldable pub confirm_against_owner : Env → ℕ → ℕ → Option String → ℕ → ℕ → Bool → Db → Db
unfolding update_report update_user hide_listing
confirm_against_owner env report_id reviewer_id n owner_id listing_id needs s =
    update_user owner_id fake_strike (
      hide_listing env listing_id env.texts.report_upheld
        (update_report report_id (decided env ReportStatus.confirmed reviewer_id n needs) s))

unfoldable pub mark_abusive : Env → ℕ → ℕ → Option String → ℕ → Bool → Db → Db
unfolding update_report update_user
mark_abusive env report_id reviewer_id n reporter_id needs s =
    update_user reporter_id false_report_strike
      (update_report report_id (decided env ReportStatus.abusive reviewer_id n needs) s)

abbrev pub suspended_user : Env → User → User
suspended_user env u = record u { status = UserStatus.suspended; suspended_at = some env.now }

abbrev pub is_open_session : ℕ → Session → Bool
is_open_session user_id x = x.user_id == user_id && not (present x.ended_at)

abbrev pub revoked_session : Env → Session → Session
revoked_session env x = record x {
  ended_at = some env.now;
  end_reason = some EndReason.admin_revoked;
}

-- The subscription is untouched, and every open session ends.
unfoldable pub suspend_account : Env → ℕ → Db → Db
unfolding update_user update_where
suspend_account env user_id s = record (update_user user_id (suspended_user env) s) {
  sessions = update_where (is_open_session user_id) (revoked_session env) s.sessions;
}

-- Whether an account has opened the contact of a listing.
unfoldable pub has_revealed : ℕ → ℕ → Db → Bool
unfolding find_reveal
has_revealed listing_id viewer_id s = present (find_reveal listing_id viewer_id s)

-- What the joined row consists of.
pub record IsJoined (s : Db) (row : ReportRow) : Type 0 where
  pub report_found : find_first (has_id row.report.id) s.reports ≡ some row.report
  pub listing_found : find_first (λ l. l.id == row.report.listing_id) s.listings ≡ some row.listing
  pub owner_is : row.owner.id ≡ row.listing.owner_id
  pub owner_found : find_first (λ u. u.id == row.listing.owner_id) s.users ≡ some row.owner
  pub reporter_is : row.reporter.id ≡ row.report.reporter_id

pub find_report-IsJoined :
    (id : ℕ) (s : Db) (row : ReportRow)
    → find_report id s ≡ some row
    → (row.report.id ≡ id) × IsJoined s row
unfolding find_report joined with_reporter with_owner find_user find_any_listing
find_report-IsJoined id s row h = elim (Option-cases (find_first (has_id id) s.reports)) [
  | inl n ↦ ground arith
  | inr (r, e) ↦ elim (Option-cases (find_first (λ u. u.id == r.reporter_id) s.users)) [
    | inl n ↦ ground arith
    | inr (b, f) ↦ elim (Option-cases (find_first (λ l. l.id == r.listing_id) s.listings)) [
      | inl n ↦ ground arith
      | inr (l, g) ↦ elim (Option-cases (find_first (λ u. u.id == l.owner_id) s.users)) [
        | inl n ↦ ground arith
        | inr (o, k) ↦
            let k_is : r.id ≡ id = ground (arith, find_first_holds (has_id id) s.reports {x = r}) in
            let q : record { report = r; reporter = b; listing = l; owner = o } ≡ row =
              ground arith in
            rw (← q) (
              k_is,
              record {
                report_found = ap (λ m. find_first (has_id m) s.reports) k_is ∙ e;
                listing_found = g;
                owner_is =
                    ground (arith, find_first_holds (λ u. u.id == l.owner_id) s.users {x = o});
                owner_found = k;
                reporter_is =
                    ground (arith, find_first_holds (λ u. u.id == r.reporter_id) s.users {x = b});
              },
            )
      ]
    ]
  ]
]
