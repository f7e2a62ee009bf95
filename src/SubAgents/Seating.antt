-- ===== src/SubAgents/Seating.antt =====
-- What a change of a sub-agency's status does (backend/src/modules/subagent/subagent.service.js).
use havale_khodro.Prelude.{
  ◌≡◌, arith, ◌==◌, if◌then◌else◌, Bool-cases, count_where, find_first-update_where, ℕ, refl, ap,
  inl, inr, true, false, ◌||◌, some,
}
use havale_khodro.Schema.Entities.{User, Env, Db}
use havale_khodro.Schema.Enums.{
  UserStatus, account_active, subagent_activated, Target, subagent_suspended,
}
use havale_khodro.SubAgents.Status.{
  set_status, same_status, require_child, find_child, unless_same, set_status_row, change_status,
  with_status, end_sessions, is_child_row,
}
use havale_khodro.Report.Store.{is_open_session}
use havale_khodro.Exec.{done, continue, pure}
use havale_khodro.Activity.{record_activity-eq}
use havale_khodro.Report.Verdicts.{revoked_none}

-- The child's account and its sessions after the request.
pub record HasStatus (user : User) (id : ℕ) (child : User) (status : UserStatus) (s t : Db)
    : Type 0 where
  pub after_it :
      (c : User) × (find_child user.id id t ≡ some c)
      × (c.status ≡ status)
      × (c.seat_credits ≡ child.seat_credits)
  pub sessions : count_where (is_open_session child.id) t.sessions ≡ (
      if account_active status || same_status child.status status
      then count_where (is_open_session child.id) s.sessions
      else 0)
  pub listings : t.listings ≡ s.listings

same_status-eq : (a b : UserStatus) → same_status a b ≡ true → a ≡ b
same_status-eq UserStatus.active UserStatus.active h = refl
same_status-eq UserStatus.active UserStatus.suspended h = ground arith
same_status-eq UserStatus.suspended UserStatus.active h = ground arith
same_status-eq UserStatus.suspended UserStatus.suspended h = refl

module _ (env : Env) (user : User) (id : ℕ) (child : User) (s : Db)
    (found_it : find_child user.id id s ≡ some child) where
  find_child-set_status_row :
      (status : UserStatus)
      → find_child user.id id (set_status_row env child.id status s)
        ≡ some (with_status env status child)
  unfolding find_child set_status_row
  find_child-set_status_row status = ground (
    arith,
    find_first-update_where (is_child_row user.id id) (λ u. u.id == child.id)
        (with_status env status) s.users (λ x. refl),
  )

  change_status-HasStatus :
      (status : UserStatus)
      → same_status child.status status ≡ false
      → (t : Db) × (change_status env user child status s ≡ done child.id t)
        × HasStatus user id child status s t
  unfolding change_status set_status_row end_sessions find_child
  change_status-HasStatus UserStatus.active d =
      let base = set_status_row env child.id UserStatus.active s in
      let (rows, e) = record_activity-eq env user.id subagent_activated Target.user child.id base in
      (
        record base { activity = rows },
        ap (λ o. continue o (λ _. pure child.id)) e,
        record {
          after_it = (
            with_status env UserStatus.active child,
            find_child-set_status_row UserStatus.active,
            refl,
            refl,
          );
          sessions = refl;
          listings = refl;
        },
      )
  change_status-HasStatus UserStatus.suspended d =
      let base = end_sessions env child.id (set_status_row env child.id UserStatus.suspended s) in
      let (rows, e) = record_activity-eq env user.id subagent_suspended Target.user child.id base in
      (
        record base { activity = rows },
        ap (λ o. continue o (λ _. pure child.id)) e,
        record {
          after_it = (
            with_status env UserStatus.suspended child,
            find_child-set_status_row UserStatus.suspended,
            refl,
            refl,
          );
          sessions = rw d (revoked_none env child.id s.sessions);
          listings = refl;
        },
      )

-- A reseller who suspends or reactivates one of its sub-agencies always succeeds, however many
-- seats are in use: the account has the status that was asked for, its credits and every listing
-- stay, and its open sessions end exactly when it goes from active to suspended.
pub set_status-HasStatus :
    (env : Env) (user : User) (id : ℕ) (status : UserStatus) (s : Db) (child : User)
    → find_child user.id id s ≡ some child
    → (t : Db) × (set_status env user id status s ≡ done child.id t)
      × HasStatus user id child status s t
unfolding set_status require_child unless_same
set_status-HasStatus env user id status s child f =
    elim (Bool-cases (same_status child.status status)) [
      | inl e ↦ (
        s,
        rw (f, e) refl,
        record {
          after_it = (child, f, same_status-eq child.status status e, refl);
          sessions = ground arith;
          listings = refl;
        },
      )
      | inr e ↦
          let (t, q, k) = change_status-HasStatus env user id child s f status e in
          (t, rw (f, e) q, k)
    ]
