-- ===== src/Report/Histories/Filed.antt =====
-- Filing a report keeps what its two writes keep
-- (backend/src/modules/report/report.service.js).
use havale_khodro.Exec.{
  forbidden, not_found, report_daily_limit, listing_row, internal, unknown_enum_value, transaction,
  pure,
}
use havale_khodro.Prelude.{ltb, ◌==◌, present, ℕ, ◌-◌, ◌*◌, String, not, ◌||◌}
use havale_khodro.Schema.Entities.{Db, Env, User}
use havale_khodro.Schema.Enums.{Reason, Action, Target, report_filed}
use havale_khodro.Report.Store.{
  create_report, count_recent_by_reporter, find_any_listing, find_by_listing_and_reporter,
  has_revealed,
}
use havale_khodro.Exec.Laws.{
  Keeps, require-after, found-after, Keeps-bind, Keeps-transaction, Keeps-then,
}
use havale_khodro.Activity.{record_activity}
use havale_khodro.Report.Filing.{
  file, file_report, is_storable, too_old_at, closed_at, requires_contact, daily_report_limit,
}

module _ (P : Db → Type 0)
    (created : (env : Env) (listing_id reporter_id : ℕ) (reason : Reason) (text : String) (s : Db)
      → P s
      → P (create_report env listing_id reporter_id reason text s))
    (logged : (env : Env) (user_id : ℕ) (action : Action) (target : Target) (id : ℕ)
      → Keeps P (record_activity env user_id action target id)) where
  file-Keeps :
      (env : Env) (listing_id reporter_id : ℕ) (reason : Reason) (text : String) (limit : ℕ)
      → Keeps P (file env listing_id reporter_id reason text limit)
  unfolding file
  file-Keeps env listing_id reporter_id reason text limit s t =
      let recent = count_recent_by_reporter reporter_id (env.now - 24 * 60 * 60 * 1000) s in
      require-after P (ltb recent limit) (forbidden report_daily_limit) _ s t (λ p.
        require-after P (is_storable reason) (internal unknown_enum_value) _ s t
          (λ q. created env listing_id reporter_id reason text s t))

  pub file_report-Keeps :
      (env : Env) (user : User) (id : ℕ) (reason : Reason) (text : String)
      → Keeps P (file_report env user id reason text)
  unfolding file_report
  file_report-Keeps env user id reason text s t =
      found-after P (find_any_listing id s) (not_found listing_row) _ s t (λ l e.
        require-after P (not (l.owner_id == user.id)) _ _ s t (λ a.
          require-after P (not (too_old_at env.now (closed_at l))) _ _ s t (λ b.
            require-after P (not (present (find_by_listing_and_reporter id user.id s))) _ _ s t
              (λ c.
                require-after P (not (requires_contact reason) || has_revealed id user.id s) _ _ s t
                  (λ d.
                    let limit = daily_report_limit s in
                    Keeps-bind P (transaction (file env id user.id reason text limit)) _
                      (Keeps-transaction P (file env id user.id reason text limit)
                        (file-Keeps env id user.id reason text limit))
                      (λ made.
                        Keeps-then P (record_activity env user.id report_filed Target.havale id)
                          (pure made) (logged env user.id report_filed Target.havale id) (λ _ h. h))
                      s t)))))
