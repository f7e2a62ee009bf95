-- ===== src/Report/Histories/Served.antt =====
-- Histories of requests of the report service
-- (backend/src/modules/report/report.service.js).
use havale_khodro.Prelude.{
  ◌≡◌, arith, ◌==◌, find_first, count_where, update_where, count_where-append,
  find_first-update_where, ℕ, ◌+◌, String, refl, List, [], ◌∷◌, count_where_ext, ap, ◌&&◌, Option,
  IsKeyed-append,
}
use havale_khodro.Schema.Entities.{Listing, Env, Db, User}
use havale_khodro.Report.Store.{create_report, new_report}
use havale_khodro.Schema.Enums.{Reason, is_confirmed, ReportStatus}
use havale_khodro.Report.Tally.{IsTallied, abusive_by, owned_by, upheld_against}
use havale_khodro.Report.Filing.{file_report}
use havale_khodro.Exec.{Exec, after}
use havale_khodro.Exec.Laws.{Keeps}
use havale_khodro.Report.Review.{review, hold, approve_suspension}
use havale_khodro.Report.Histories.Tallies.{
  review-IsTallied, hold-IsTallied, approve_suspension-IsTallied, record_activity-IsTallied,
}
use havale_khodro.Report.Histories.Filed.{file_report-Keeps}

counted_listing : ℕ → List Listing → List Listing
unfolding update_where
counted_listing k xs =
    update_where (λ l. l.id == k) (λ l. record l { report_count = l.report_count + 1 }) xs

counted_listing-owner :
    (k v i : ℕ) (xs : List Listing)
    → owned_by v (find_first (λ l. l.id == i) (counted_listing k xs))
      ≡ owned_by v (find_first (λ l. l.id == i) xs)
unfolding counted_listing
counted_listing-owner k v i xs = ground (
  arith,
  find_first-update_where (λ l. l.id == i) (λ l. l.id == k)
      (λ l. record l { report_count = l.report_count + 1 }) xs (λ x. refl),
)

pub create_report-IsTallied :
    (env : Env) (listing_id reporter_id : ℕ) (reason : Reason) (text : String) (s : Db)
    → IsTallied s
    → IsTallied (create_report env listing_id reporter_id reason text s)
unfolding create_report count_where counted_listing
create_report-IsTallied env listing_id reporter_id reason text s t =
    let row = new_report env s.next_id listing_id reporter_id reason text in
    record {
      keyed = IsKeyed-append (λ r. r.id) s.next_id s.reports row refl t.keyed;
      fake = λ v u e. ground (
        arith,
        t.fake v u e,
        count_where-append (upheld_against v (counted_listing listing_id s.listings)) s.reports
            (row ∷ []),
        count_where_ext (upheld_against v (counted_listing listing_id s.listings))
            (upheld_against v s.listings) s.reports
            (λ r.
              ap (λ b. is_confirmed r.status && b)
                (counted_listing-owner listing_id v r.listing_id s.listings)),
      );
      false_reports = λ v u e.
          ground
            (arith, t.false_reports v u e, count_where-append (abusive_by v) s.reports (row ∷ []));
    }

-- A request of the service, with the moment that it is served at.
pub data Request : Type 0 where
  file_it : Env → User → ℕ → Reason → String → Request
  review_it : Env → User → ℕ → ReportStatus → Option String → Request
  hold_it : Env → User → ℕ → Option String → Request
  approve_it : Env → User → ℕ → Request

unfoldable pub handle : Request → Exec ℕ
handle (file_it env user id reason text) = file_report env user id reason text
handle (review_it env actor id verdict n) = review env actor id verdict n
handle (hold_it env actor id n) = hold env actor id n
handle (approve_it env actor id) = approve_suspension env actor id

-- The database after a history of requests, the refused ones included.
unfoldable pub serve : Db → List Request → Db
unfolding handle
serve s [] = s
serve s (q ∷ rest) = serve (after (handle q s)) rest

handle-IsTallied : (q : Request) → Keeps IsTallied (handle q)
unfolding handle
handle-IsTallied (file_it env user id reason text) =
    file_report-Keeps IsTallied create_report-IsTallied record_activity-IsTallied env user id reason
      text
handle-IsTallied (review_it env actor id verdict n) = review-IsTallied env actor id verdict n
handle-IsTallied (hold_it env actor id n) = hold-IsTallied env actor id n
handle-IsTallied (approve_it env actor id) = approve_suspension-IsTallied env actor id

-- Whatever reports are filed, reviewed, held and escalated, one request finished before the next one
-- begins and refused requests included, every account's strikes stay what the decided reports say: one for each upheld report against a listing
-- of the account, and one for each report of the account that was found abusive.
serve-IsTallied : (s : Db) (requests : List Request) → IsTallied s → IsTallied (serve s requests)
unfolding serve
serve-IsTallied s [] t = t
serve-IsTallied s (q ∷ rest) t = serve-IsTallied (after (handle q s)) rest (handle-IsTallied q s t)
