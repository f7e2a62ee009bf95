-- ===== src/Examples/Reports.antt =====
-- The theorems on reports at the example database, with one pending report.
use havale_khodro.Report.Overlaps.{
  Step, Desk, run, step, take_up, finish, file_one, approve_one, IsApart, IsAlone,
}
use havale_khodro.Report.Overlaps.Tallied.{run-IsTallied, IsReady}
use havale_khodro.Prelude.{
  ◌≡◌, arith, find_first, count_where, ℕ, refl, true, false, none, some, List, [], ◌∷◌,
}
use havale_khodro.Schema.Entities.{Report, User, Db}
use havale_khodro.Report.Store.{ReportRow, new_report, find_report, fake_strike}
use havale_khodro.Report.Tally.{IsTallied}
use havale_khodro.Exec.{Exec, after, done, succeeded}
use havale_khodro.Report.Limits.{IsAccepted, file_report_lem}
use havale_khodro.Examples.Fixtures.{
  independent, market, child, noon, parent, advertisement, chief, officer,
}
use havale_khodro.Report.Review.{review, hold, suspend_if, by_verdict}
use havale_khodro.Report.Filing.{file_report}
use havale_khodro.Schema.Enums.{Reason, ReportStatus}
use havale_khodro.Report.Verdicts.{IsUpheld, review-IsUpheld}
use havale_khodro.Roles.{can}
use havale_khodro.Report.Histories.Served.{Request, serve, file_it, hold_it, review_it}
use havale_khodro.Activity.{find_user}
use havale_khodro.Report.Histories.Decided.{review-serve}

-- Account 2 has reported listing 40, whose owner has two strikes.
abbrev complaint : Report
complaint = new_report noon 50 40 2 Reason.fake_listing "no such car"

abbrev repeat_offender : User
repeat_offender = record independent { fake_strikes = 2 }

abbrev disputed : Db
disputed = record market {
  users = parent ∷ child ∷ repeat_offender ∷ officer ∷ chief ∷ [];
  reports = complaint ∷ [];
}

abbrev complaint_row : ReportRow
complaint_row = record {
  report = complaint;
  reporter = child;
  listing = advertisement 40 3;
  owner = repeat_offender;
}

review-IsUpheld_example :
    (t : Db) × (review noon chief 50 ReportStatus.confirmed none disputed ≡ done 50 t)
    × IsUpheld noon complaint_row false true disputed t
unfolding find_report can
review-IsUpheld_example = review-IsUpheld noon chief 50 none disputed complaint_row refl refl

-- A history in which the report is filed, held, and upheld.
abbrev history : List Request
history =
    file_it noon child 40 Reason.fake_listing "no such car"
    ∷ hold_it noon officer 100 none
    ∷ review_it noon officer 100 ReportStatus.confirmed none
    ∷ []

market-IsTallied : IsTallied market
unfolding find_first count_where
market-IsTallied = record {
  keyed = record { single = λ id. ground arith; fresh = tt };
  fake = λ v u e. ground arith;
  false_reports = λ v u e. ground arith;
}

-- While the report is under review others are filed; it is held first, and then upheld.
abbrev steps : List Step
steps =
    file_one noon child 40 Reason.fake_listing "no such car"
    ∷ take_up 100
    ∷ file_one noon parent 40 Reason.fake_listing "sold"
    ∷ finish none noon officer 100 none
    ∷ take_up 100
    ∷ take_up 101
    ∷ approve_one noon chief 101
    ∷ finish (some ReportStatus.confirmed) noon officer 100 none
    ∷ []

abbrev empty_desk : Desk
empty_desk = record { db = market; in_review = [] }

steps-IsApart : IsApart empty_desk steps
unfolding IsApart IsAlone step
steps-IsApart = (tt, (refl, (tt, (tt, (refl, (refl, (tt, (tt, tt))))))))

empty_desk-IsReady : IsReady empty_desk
unfolding find_first count_where
empty_desk-IsReady = record { alone = λ id. ground arith; waiting = λ id row e. ground arith }

run-IsTallied_example : IsTallied (run empty_desk steps).db
run-IsTallied_example =
    run-IsTallied empty_desk steps steps-IsApart empty_desk-IsReady market-IsTallied

-- The overlapping steps are carried out in full.
steps_strikes : find_user 3 (run empty_desk steps).db ≡ some (fake_strike independent)
unfolding find_user run step suspend_if
steps_strikes = refl

-- The history is served in full: the owner has a strike at its end.
history_strikes : find_user 3 (serve market history) ≡ some (fake_strike independent)
unfolding find_user serve review hold file_report suspend_if
history_strikes = refl

abbrev filed : Exec ℕ
filed = file_report noon child 40 Reason.fake_listing "no such car"

file_report_lem_example :
    IsAccepted noon child 40 Reason.fake_listing "no such car" market (after (filed market))
unfolding file_report
file_report_lem_example =
    file_report_lem noon child 40 Reason.fake_listing "no such car" market (after (filed market))
      100 refl

-- The report of the example is upheld; another is filed; then it is reviewed and held again.
abbrev upheld : Exec ℕ
upheld = review noon officer 50 ReportStatus.confirmed none

-- Two officers read one pending report of an owner without a strike, and both uphold it: one report is
-- decided, and the owner has two strikes.
abbrev first_offence : ReportRow
first_offence = record complaint_row { owner = independent }

abbrev read_twice : Db
read_twice = record disputed { users = parent ∷ child ∷ independent ∷ officer ∷ chief ∷ [] }

overlapping_reviews :
    find_user 3 (
      after (
        by_verdict ReportStatus.confirmed noon chief first_offence none
          (after (by_verdict ReportStatus.confirmed noon officer first_offence none read_twice))))
    ≡ some (fake_strike (fake_strike independent))
unfolding find_user by_verdict suspend_if
overlapping_reviews = refl

review-serve_example :
    (succeeded
        (review noon chief 50 ReportStatus.abusive none (serve (after (upheld disputed)) history))
      ≡ false)
    × (succeeded (hold noon chief 50 none (serve (after (upheld disputed)) history)) ≡ false)
unfolding review suspend_if
review-serve_example =
    review-serve noon noon officer chief 50 50 ReportStatus.confirmed ReportStatus.abusive none none
      disputed (after (upheld disputed)) history refl
