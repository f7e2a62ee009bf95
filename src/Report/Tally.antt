-- ===== src/Report/Tally.antt =====
-- The strikes of an account are the reports that were decided against it
-- (backend/src/modules/report).
use havale_khodro.Prelude.{
  ◌==◌, find_first, count_where, update_where, count_where-update_where, find_first-update_where,
  count_where_ext, ℕ, String, ◌≡◌, refl, sym, ap, ◌∙◌, Bool, false, ◌&&◌, Option, none, some, List,
  arith, if◌then◌else◌, count_where-update_one, ◌+◌, true, IsKeyed, IsKeyed-update_where,
}
use havale_khodro.Schema.Entities.{Listing, Report, Db, Env, User}
use havale_khodro.Report.Store.{
  update_report, hide_listing, suspend_account, has_id, hidden_listing, suspended_user, decided,
  confirm_against_owner, mark_abusive, fake_strike, false_report_strike, rejection,
}
use havale_khodro.Schema.Enums.{is_confirmed, is_abusive, is_pending, ReportStatus}
use havale_khodro.Activity.{user_before}

abbrev pub owned_by : ℕ → Option Listing → Bool
owned_by v none = false
owned_by v (some l) = l.owner_id == v

-- Upheld, against a listing of the account.
abbrev pub upheld_against : ℕ → List Listing → Report → Bool
upheld_against v listings r =
    is_confirmed r.status && owned_by v (find_first (λ l. l.id == r.listing_id) listings)

-- Found abusive, and filed by the account.
abbrev pub abusive_by : ℕ → Report → Bool
abusive_by v r = is_abusive r.status && r.reporter_id == v

pub record IsTallied (s : Db) : Type 0 where
  pub keyed : IsKeyed (λ r. r.id) s.next_id s.reports
  pub fake :
      (v : ℕ) (u : User)
      → find_first (λ x. x.id == v) s.users ≡ some u
      → u.fake_strikes ≡ count_where (upheld_against v s.listings) s.reports
  pub false_reports :
      (v : ℕ) (u : User)
      → find_first (λ x. x.id == v) s.users ≡ some u
      → u.false_report_strikes ≡ count_where (abusive_by v) s.reports

-- A write to a report that leaves its id, its status and what it is about.
pub record IsQuiet (f : Report → Report) : Type 0 where
  pub id : (r : Report) → (f r).id ≡ r.id
  pub status : (r : Report) → (f r).status ≡ r.status
  pub about : (r : Report) → (f r).listing_id ≡ r.listing_id
  pub by : (r : Report) → (f r).reporter_id ≡ r.reporter_id

pub update_report-IsTallied :
    (k : ℕ) (f : Report → Report) (s : Db)
    → IsQuiet f
    → IsTallied s
    → IsTallied (update_report k f s)
unfolding update_report
update_report-IsTallied k f s q t = record {
  keyed = IsKeyed-update_where (λ r. r.id) s.next_id (has_id k) f s.reports q.id t.keyed;
  fake = λ v u e.
      t.fake v u e
      ∙ sym (
          count_where-update_where (upheld_against v s.listings) (has_id k) f s.reports
            (λ r. ground (arith, q.status r, q.about r)));
  false_reports = λ v u e.
      t.false_reports v u e
      ∙ sym (
          count_where-update_where (abusive_by v) (has_id k) f s.reports
            (λ r. ground (arith, q.status r, q.by r)));
}

hide_listing-owner :
    (env : Env) (reason : String) (k v i : ℕ) (xs : List Listing)
    → owned_by v
        (find_first (λ l. l.id == i) (update_where (λ l. l.id == k) (hidden_listing env reason) xs))
      ≡ owned_by v (find_first (λ l. l.id == i) xs)
hide_listing-owner env reason k v i xs = ground (
  arith,
  find_first-update_where (λ l. l.id == i) (λ l. l.id == k) (hidden_listing env reason) xs
      (λ x. refl),
)

pub hide_listing-IsTallied :
    (env : Env) (k : ℕ) (reason : String) (s : Db)
    → IsTallied s
    → IsTallied (hide_listing env k reason s)
unfolding hide_listing
hide_listing-IsTallied env k reason s t = record {
  keyed = t.keyed;
  fake = λ v u e.
      t.fake v u e
      ∙ sym (
          count_where_ext _ _ s.reports (λ r.
            ap (λ b. is_confirmed r.status && b)
              (hide_listing-owner env reason k v r.listing_id s.listings)));
  false_reports = t.false_reports;
}

pub suspend_account-IsTallied :
    (env : Env) (k : ℕ) (s : Db) → IsTallied s → IsTallied (suspend_account env k s)
unfolding suspend_account
suspend_account-IsTallied env k s t = record {
  keyed = t.keyed;
  fake = λ v u e.
      let (w, n, i, q) = user_before k v (suspended_user env) s.users u (λ x. refl) e in
      ground (arith, t.fake v w n);
  false_reports = λ v u e.
      let (w, n, i, q) = user_before k v (suspended_user env) s.users u (λ x. refl) e in
      ground (arith, t.false_reports v w n);
}

-- The verdict and the strike together.
module _ (env : Env) (k by : ℕ) (n : Option String) (needs : Bool) (s : Db) (t : IsTallied s)
    (r : Report) (found : find_first (has_id k) s.reports ≡ some r)
    (open_report : is_pending r.status ≡ true) where
  confirmed_one :
      (v : ℕ)
      → count_where
          (upheld_against v s.listings)
          (update_where (has_id k) (decided env ReportStatus.confirmed by n needs) s.reports)
        ≡ count_where (upheld_against v s.listings) s.reports
          + (if owned_by v (find_first (λ l. l.id == r.listing_id) s.listings) then 1 else 0)
  confirmed_one v = ground (
    arith,
    count_where-update_one (upheld_against v s.listings) (has_id k)
        (decided env ReportStatus.confirmed by n needs) s.reports r found (t.keyed.single k),
  )

  confirmed_none :
      (v : ℕ)
      → count_where
          (abusive_by v)
          (update_where (has_id k) (decided env ReportStatus.confirmed by n needs) s.reports)
        ≡ count_where (abusive_by v) s.reports
  confirmed_none v = ground (
    arith,
    count_where-update_one (abusive_by v) (has_id k) (decided env ReportStatus.confirmed by n needs)
        s.reports r found (t.keyed.single k),
  )

  abusive_one :
      (v : ℕ)
      → count_where
          (abusive_by v)
          (update_where (has_id k) (decided env ReportStatus.abusive by n needs) s.reports)
        ≡ count_where (abusive_by v) s.reports + (if r.reporter_id == v then 1 else 0)
  abusive_one v = ground (
    arith,
    count_where-update_one (abusive_by v) (has_id k) (decided env ReportStatus.abusive by n needs)
        s.reports r found (t.keyed.single k),
  )

  abusive_none :
      (v : ℕ)
      → count_where
          (upheld_against v s.listings)
          (update_where (has_id k) (decided env ReportStatus.abusive by n needs) s.reports)
        ≡ count_where (upheld_against v s.listings) s.reports
  abusive_none v = ground (
    arith,
    count_where-update_one (upheld_against v s.listings) (has_id k)
        (decided env ReportStatus.abusive by n needs) s.reports r found (t.keyed.single k),
  )

  -- The listing is the reported one, and the strike its owner's.
  pub confirm_against_owner-IsTallied :
      (l : Listing)
      → find_first (λ x. x.id == r.listing_id) s.listings ≡ some l
      → IsTallied (confirm_against_owner env k by n l.owner_id r.listing_id needs s)
  unfolding confirm_against_owner
  confirm_against_owner-IsTallied l e = record {
    keyed =
        IsKeyed-update_where (λ r. r.id) s.next_id (has_id k)
          (decided env ReportStatus.confirmed by n needs) s.reports (λ x. refl) t.keyed;
    fake = λ v u h.
        let (w, m, i, q) = user_before l.owner_id v fake_strike s.users u (λ x. refl) h in
        ground (
          arith,
          t.fake v w m,
          confirmed_one v,
          e,
          count_where_ext
              (upheld_against v (
                update_where (λ x. x.id == r.listing_id)
                  (hidden_listing env env.texts.report_upheld) s.listings))
              (upheld_against v s.listings)
              (update_where (has_id k) (decided env ReportStatus.confirmed by n needs) s.reports)
              (λ x.
                ap (λ b. is_confirmed x.status && b)
                  (hide_listing-owner env env.texts.report_upheld r.listing_id v x.listing_id
                    s.listings)),
        );
    false_reports = λ v u h.
        let (w, m, i, q) = user_before l.owner_id v fake_strike s.users u (λ x. refl) h in
        ground (arith, t.false_reports v w m, confirmed_none v);
  }

  pub mark_abusive-IsTallied : IsTallied (mark_abusive env k by n r.reporter_id needs s)
  unfolding mark_abusive
  mark_abusive-IsTallied = record {
    keyed =
        IsKeyed-update_where (λ r. r.id) s.next_id (has_id k)
          (decided env ReportStatus.abusive by n needs) s.reports (λ x. refl) t.keyed;
    fake = λ v u h.
        let (w, m, i, q) =
          user_before r.reporter_id v false_report_strike s.users u (λ x. refl) h in
        ground (arith, t.fake v w m, abusive_none v);
    false_reports = λ v u h.
        let (w, m, i, q) =
          user_before r.reporter_id v false_report_strike s.users u (λ x. refl) h in
        ground (arith, t.false_reports v w m, abusive_one v);
  }

  pub rejection-IsTallied : IsTallied (update_report k (rejection env by n) s)
  unfolding update_report
  rejection-IsTallied = record {
    keyed =
        IsKeyed-update_where (λ r. r.id) s.next_id (has_id k) (rejection env by n) s.reports
          (λ x. refl) t.keyed;
    fake = λ v u h. ground (
      arith,
      t.fake v u h,
      count_where-update_one (upheld_against v s.listings) (has_id k) (rejection env by n) s.reports
          r found (t.keyed.single k),
    );
    false_reports = λ v u h. ground (
      arith,
      t.false_reports v u h,
      count_where-update_one (abusive_by v) (has_id k) (rejection env by n) s.reports r found
          (t.keyed.single k),
    );
  }
