-- ===== src/SignIn/Sessions.antt =====
-- The handlers of backend/src/modules/auth/auth.service.js and the sessions of an agency.
use havale_khodro.Prelude.{
  ℕ, ◌==◌, Bool-cases, ◌≡◌, refl, inl, inr, true, not, ◌||◌, Option, some, Option-cases, present,
  All-found, none, ltb,
}
use havale_khodro.Schema.Entities.{Session, Env, User}
use havale_khodro.SignIn.{
  is_agent_role, Keyring, open_session, log_in, find_live_session, locked_out_now, forbidden,
  unauthorized, find_by_username, end_session,
}
use havale_khodro.Schema.Enums.{
  EndReason, Target, account_active, logged_out, password_changed, login,
}
use havale_khodro.Exec.Laws.{Keeps, require-after, found-after, Keeps-then}
use havale_khodro.Activity.{record_activity, find_user}
use havale_khodro.SignIn.Tokens.{
  log_out, resolve_session, change_password, with_password, refuse_ended, refuse_expired,
}
use havale_khodro.Exec.{account_suspended, locked_out, account_row, pure, ◌>>◌}
use havale_khodro.SignIn.Single.{
  IsSingle, agency_or_other, end-IsSingle, user-IsSingle, log-IsSingle, refuse-IsSingle,
  opened-IsSingle,
}

module _ (id : ℕ) where
  open_session-IsSingle :
      (env : Env) (keys : Keyring) (token : ℕ) (user : User)
      → agency_or_other id user ≡ true
      → Keeps (IsSingle id) (open_session env keys token user)
  unfolding open_session
  open_session-IsSingle env keys token user q s h =
      require-after (IsSingle id) (account_active user.status || is_agent_role user.role)
        (forbidden account_suspended) _ s h
        λ _.
          Keeps-then {A = ℕ × User} (IsSingle id)
            (record_activity env user.id login Target.no_row 0) (pure (token, user))
            (log-IsSingle id env user.id login Target.no_row 0) (λ t c. c) _
            (user-IsSingle id user.id (λ u. record u { last_login_at = some env.now }) _
              (λ u. (refl, refl)) (opened-IsSingle id env keys user token s q h))

  pub log_in-IsSingle :
      (env : Env) (keys : Keyring) (token username password : ℕ) (ip : Option ℕ)
      → Keeps (IsSingle id) (log_in env keys token username password ip)
  unfolding log_in
  log_in-IsSingle env keys token username password ip s h =
      require-after (IsSingle id) (not (locked_out_now env username ip s)) (unauthorized locked_out)
        _ s h
        λ _. elim (Option-cases (find_by_username username s)) [
          | inl e ↦ rw e (refuse-IsSingle id env none username ip s h)
          | inr (u, e) ↦ elim (Bool-cases (keys.compare_hash password u.password_hash)) [
            | inl ok ↦
                rw (e, ok)
                  (open_session-IsSingle env keys token u (All-found _ _ s.users u h.agency e) s h)
            | inr wrong ↦ rw (e, wrong) (refuse-IsSingle id env (some u) username ip s h)
          ]
        ]

  pub log_out-IsSingle :
      (env : Env) (keys : Keyring) (token : Option ℕ) → Keeps (IsSingle id) (log_out env keys token)
  unfolding log_out
  log_out-IsSingle env keys none s h = h
  log_out-IsSingle env keys (some token) s h =
      elim (Option-cases (find_live_session (keys.hash_token token) s)) [
        | inl e ↦ rw e h
        | inr (x, e) ↦ elim (Bool-cases (present x.ended_at)) [
          | inl f ↦ rw (e, f) h
          | inr f ↦
              rw (e, f)
                (log-IsSingle id env x.user_id logged_out Target.no_row 0 _
                  (end-IsSingle id (λ y. y.id == x.id) env EndReason.logout s h))
        ]
      ]

  refused-IsSingle :
      (env : Env) (x : Session) (u : User)
      → Keeps {A = Session × User}
          (IsSingle id)
          (refuse_ended x >> (refuse_expired env x >> pure (x, u)))
  unfolding refuse_ended refuse_expired end_session
  refused-IsSingle env x u s h = elim (Option-cases x.ended_at) [
    | inr (t, e) ↦ rw e h
    | inl e ↦ elim (Bool-cases (ltb x.expires_at env.now)) [
      | inl f ↦ rw (e, f) (end-IsSingle id (λ y. y.id == x.id) env EndReason.expired s h)
      | inr f ↦ rw (e, f) h
    ]
  ]

  pub resolve_session-IsSingle :
      (env : Env) (keys : Keyring) (token : Option ℕ)
      → Keeps (IsSingle id) (resolve_session env keys token)
  unfolding resolve_session
  resolve_session-IsSingle env keys none s h = h
  resolve_session-IsSingle env keys (some token) s h =
      found-after (IsSingle id) (find_live_session (keys.hash_token token) s) _ _ s h λ x e.
        found-after (IsSingle id) (find_user x.user_id s) _ _ s h λ u f.
          require-after (IsSingle id) (account_active u.status || is_agent_role u.role) _ _ s h
            λ _. refused-IsSingle env x u s h

  pub change_password-IsSingle :
      (env : Env) (keys : Keyring) (user_id current new : ℕ) (token : Option ℕ)
      → Keeps (IsSingle id) (change_password env keys user_id current new token)
  unfolding change_password
  change_password-IsSingle env keys user_id current new token s h =
      found-after (IsSingle id) (find_user user_id s) (unauthorized account_row) _ s h λ u e.
        require-after (IsSingle id) (keys.compare_hash current u.password_hash) _ _ s h λ _.
          require-after (IsSingle id) (not (current == new)) _ _ s h λ _.
            log-IsSingle id env u.id password_changed Target.no_row 0 _ (
              end-IsSingle id _ env EndReason.admin_revoked _
                (user-IsSingle id u.id (with_password (keys.hash new)) s (λ x. (refl, refl)) h))
