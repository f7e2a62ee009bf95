-- ===== src/Report/Limits.antt =====
-- Who may file a report, and how often (`create` of backend/src/modules/report/report.service.js).
use havale_khodro.Prelude.{
  ◌≡◌, arith, ◌==◌, ℕ, ◌-◌, ◌*◌, ◌<◌, String, true, false, not, ◌||◌, none, some, [], ◌∷◌, ◌++◌,
  present, ltb, ap, ◌∙◌,
}
use havale_khodro.Report.Filing.{
  file_report, too_old_at, closed_at, requires_contact, daily_report_limit, file, is_storable,
}
use havale_khodro.Schema.Entities.{Env, User, Db, Listing}
use havale_khodro.Schema.Enums.{Reason, report_filed, Target}
use havale_khodro.Exec.{
  done, not_found, listing_row, bad_request, own_listing, too_old, conflict, already_reported,
  needs_contact_first, forbidden, report_daily_limit, internal, unknown_enum_value,
}
use havale_khodro.Exec.Laws.{found-done, require-done, transaction-done}
use havale_khodro.Report.Store.{
  find_any_listing, find_by_listing_and_reporter, has_revealed, count_recent_by_reporter,
  create_report, new_report,
}
use havale_khodro.Activity.{record_activity-last}

-- What a report that was accepted has met.
pub record IsAccepted (env : Env) (user : User) (listing_id : ℕ) (reason : Reason) (text : String)
    (s t : Db) : Type 0 where
  pub listing :
      (l : Listing) × (find_any_listing listing_id s ≡ some l)
      × ((l.owner_id == user.id) ≡ false)
      × (too_old_at env.now (closed_at l) ≡ false)
  pub first : find_by_listing_and_reporter listing_id user.id s ≡ none
  pub contact : (not (requires_contact reason) || has_revealed listing_id user.id s) ≡ true
  pub recent :
      count_recent_by_reporter user.id (env.now - 24 * 60 * 60 * 1000) s < daily_report_limit s
  pub storable : is_storable reason ≡ true
  pub one_more :
      t.reports ≡ s.reports ++ new_report env s.next_id listing_id user.id reason text ∷ []

file-done :
    (env : Env) (id by : ℕ) (reason : Reason) (text : String) (limit : ℕ) (s t : Db) (k : ℕ)
    → file env id by reason text limit s ≡ done k t
    → (count_recent_by_reporter by (env.now - 24 * 60 * 60 * 1000) s < limit)
      × (is_storable reason ≡ true)
      × (t ≡ create_report env id by reason text s)
unfolding file
file-done env id by reason text limit s t k h =
    let recent = count_recent_by_reporter by (env.now - 24 * 60 * 60 * 1000) s in
    let (few, h1) = require-done (ltb recent limit) (forbidden report_daily_limit) _ s t k h in
    let (ok, h2) = require-done (is_storable reason) (internal unknown_enum_value) _ s t k h1 in
    (ground arith, ok, ground arith)

-- A report is accepted only where the listing exists, is another account's and closed or was taken
-- down no longer than thirty days ago; where the reporter has not reported it before, has opened
-- its contact if the reason asks for that, and has filed fewer reports than the daily limit within
-- a day; and where the table can hold the reason. It then adds one row.
pub file_report_lem :
    (env : Env) (user : User) (id : ℕ) (reason : Reason) (text : String) (s t : Db) (k : ℕ)
    → file_report env user id reason text s ≡ done k t
    → IsAccepted env user id reason text s t
unfolding file_report create_report
file_report_lem env user id reason text s t k h =
    let (l, e, h1) = found-done (find_any_listing id s) (not_found listing_row) _ s t k h in
    let (own, h2) =
      require-done (not (l.owner_id == user.id)) (bad_request own_listing) _ s t k h1 in
    let (old, h3) =
      require-done (not (too_old_at env.now (closed_at l))) (bad_request too_old) _ s t k h2 in
    let (one, h4) =
      require-done (not (present (find_by_listing_and_reporter id user.id s)))
        (conflict already_reported) _ s t k h3 in
    let (seen, h5) =
      require-done (not (requires_contact reason) || has_revealed id user.id s)
        (bad_request needs_contact_first) _ s t k h4 in
    let limit = daily_report_limit s in
    let (made, u, h6, h7) = transaction-done (file env id user.id reason text limit) _ s t k h5 in
    let (few, ok, made_db) = file-done env id user.id reason text limit s u made h6 in
    let (rows, q) = record_activity-last env user.id report_filed Target.havale id made k u t h7 in
    record {
      listing = (l, e, ground arith, ground arith);
      first = ground arith;
      contact = seen;
      recent = few;
      storable = ok;
      one_more = ap (λ d. d.reports) q ∙ ap (λ d. d.reports) made_db;
    }
