-- ===== src/SignIn/Single.antt =====
-- At most one open session of an agency, and the writes of backend/src/modules/auth/auth.service.js.
use havale_khodro.Prelude.{
  ℕ, ◌==◌, if◌then◌else◌, Bool-cases, count_where, update_where, All, ◌≤◌, ◌<◌, ◌≡◌, refl, inl, inr,
  Bool, true, false, not, ◌&&◌, ◌||◌, Option, some, List, [], ◌∷◌, ◌++◌, arith, All-update_where,
  All-weaken, All-append, update_where-append, ◌+◌, ==_refl, count_where-snoc,
}
use havale_khodro.Schema.Entities.{Session, Env, User, Db}
use havale_khodro.Report.Store.{update_user, is_open_session}
use havale_khodro.SignIn.{
  refuse_login, revoke_other_sessions, create_session, is_agent_role, record_failure, Keyring,
  ended, is_kept, session_row,
}
use havale_khodro.Schema.Enums.{EndReason, Action, Target}
use havale_khodro.Exec.Laws.{Keeps}
use havale_khodro.Activity.{record_activity, record_activity-eq}
use havale_khodro.SignIn.Lockout.{threat_apart}

-- Ending sessions opens none.
count_where-ended :
    (id : ℕ) (p : Session → Bool) (env : Env) (reason : EndReason) (xs : List Session)
    → count_where (is_open_session id) (update_where p (ended env reason) xs)
      ≤ count_where (is_open_session id) xs
unfolding count_where update_where
count_where-ended id p env reason [] = omega arith
count_where-ended id p env reason (x ∷ xs) = ground (arith, count_where-ended id p env reason xs)

-- The older sessions of an account, when a new one is to be kept.
pub count_where-kicked :
    (id keep : ℕ) (env : Env) (reason : EndReason) (xs : List Session)
    → All (λ x. x.id < keep) xs
    → count_where (is_open_session id) (
        update_where
          (λ x. is_open_session id x && not (is_kept (some keep) x))
          (ended env reason)
          xs)
      ≡ 0
unfolding count_where update_where
count_where-kicked id keep env reason [] h = refl
count_where-kicked id keep env reason (x ∷ xs) h =
    ground (arith, h.0, count_where-kicked id keep env reason xs h.1)

count_where-others :
    (id user_id keep : ℕ) (env : Env) (reason : EndReason) (xs : List Session)
    → (user_id == id) ≡ false
    → count_where (is_open_session id) (
        update_where
          (λ x. is_open_session user_id x && not (is_kept (some keep) x))
          (ended env reason)
          xs)
      ≡ count_where (is_open_session id) xs
unfolding count_where update_where
count_where-others id user_id keep env reason [] h = refl
count_where-others id user_id keep env reason (x ∷ xs) h =
    ground (arith, count_where-others id user_id keep env reason xs h)

-- An account with the identifier is an agency's, at most one of its sessions is open, and the next
-- identifier is taken by none.
abbrev pub agency_or_other : ℕ → User → Bool
agency_or_other id u = not (u.id == id) || is_agent_role u.role

pub record IsSingle (id : ℕ) (s : Db) : Type 0 where
  pub agency : All (λ u. agency_or_other id u ≡ true) s.users
  pub one : count_where (is_open_session id) s.sessions ≤ 1
  pub fresh : All (λ x. x.id < s.next_id) s.sessions

module _ (id : ℕ) where
  pub end-IsSingle :
      (p : Session → Bool) (env : Env) (reason : EndReason) (s : Db)
      → IsSingle id s
      → IsSingle id (record s { sessions = update_where p (ended env reason) s.sessions })
  end-IsSingle p env reason s h = record {
    agency = h.agency;
    one = omega (arith, h.one, count_where-ended id p env reason s.sessions);
    fresh = All-update_where _ p (ended env reason) s.sessions (λ x q. q) h.fresh;
  }

  pub user-IsSingle :
      (k : ℕ) (f : User → User) (s : Db)
      → ((u : User) → ((f u).id ≡ u.id) × ((f u).role ≡ u.role))
      → IsSingle id s
      → IsSingle id (update_user k f s)
  unfolding update_user
  user-IsSingle k f s q h = record {
    agency =
        All-update_where (λ u. agency_or_other id u ≡ true) _ f s.users
          (λ u e. let (a, b) = q u in rw (a, b) e) h.agency;
    one = h.one;
    fresh = h.fresh;
  }

  pub log-IsSingle :
      (env : Env) (user_id : ℕ) (action : Action) (target : Target) (target_id : ℕ)
      → Keeps (IsSingle id) (record_activity env user_id action target target_id)
  log-IsSingle env user_id action target target_id s h =
      let (rows, e) = record_activity-eq env user_id action target target_id s in
      rw e (record { agency = h.agency; one = h.one; fresh = h.fresh })

  pub refuse-IsSingle :
      (env : Env) (user : Option User) (username : ℕ) (ip : Option ℕ)
      → Keeps (IsSingle id) (refuse_login env user username ip)
  unfolding refuse_login record_failure
  refuse-IsSingle env user username ip s h =
      let (f, users, sessions, next) =
        threat_apart env username ip (record_failure env user username ip s) in
      record {
        agency = rw users h.agency;
        one = rw sessions h.one;
        fresh = rw (sessions, next) h.fresh;
      }

  grown :
      (s : Db) (x : Session)
      → x.id ≡ s.next_id
      → All (λ y. y.id < s.next_id) s.sessions
      → All (λ y. y.id < s.next_id + 1) (s.sessions ++ x ∷ [])
  grown s x e h =
      All-append _ s.sessions x (All-weaken _ _ s.sessions (λ y q. omega arith) h) (omega arith)

  -- A new session of an agency ends its others.
  agent_session-IsSingle :
      (env : Env) (keys : Keyring) (user_id token : ℕ) (s : Db)
      → IsSingle id s
      → IsSingle id (
          revoke_other_sessions env user_id
            (some s.next_id)
            EndReason.kicked
            (create_session env keys user_id token s))
  unfolding revoke_other_sessions create_session
  agent_session-IsSingle env keys user_id token s h =
      let new = session_row env keys user_id token s in
      let ends : Session → Bool =
        λ x. is_open_session user_id x && not (is_kept (some s.next_id) x) in
      let split = update_where-append ends (ended env EndReason.kicked) s.sessions new in
      let whole =
        count_where-snoc (is_open_session id)
          (update_where ends (ended env EndReason.kicked) s.sessions)
          (if ends new then ended env EndReason.kicked new else new) in
      record {
        agency = h.agency;
        one = elim (Bool-cases (user_id == id)) [
          | inl q ↦
              let i : id ≡ user_id = ground arith in
              let old : count_where (is_open_session id)
                    (update_where ends (ended env EndReason.kicked) s.sessions)
                  ≡ 0 =
                rw i
                  (count_where-kicked user_id s.next_id env EndReason.kicked s.sessions h.fresh) in
              rw (split, whole) (ground (arith, old, ==_refl s.next_id))
          | inr q ↦
              let old = count_where-others id user_id s.next_id env EndReason.kicked s.sessions q in
              rw (split, whole) (ground (arith, h.one, old, ==_refl s.next_id))
        ];
        fresh =
            All-update_where _ ends (ended env EndReason.kicked) _ (λ x r. r)
              (grown s new refl h.fresh);
      }

  -- A new session of somebody else.
  other_session-IsSingle :
      (env : Env) (keys : Keyring) (user_id token : ℕ) (s : Db)
      → (user_id == id) ≡ false
      → IsSingle id s
      → IsSingle id (create_session env keys user_id token s)
  unfolding create_session
  other_session-IsSingle env keys user_id token s q h =
      let new = session_row env keys user_id token s in
      record {
        agency = h.agency;
        one = rw (count_where-snoc (is_open_session id) s.sessions new) (ground (arith, h.one));
        fresh = grown s new refl h.fresh;
      }

  pub opened-IsSingle :
      (env : Env) (keys : Keyring) (user : User) (token : ℕ) (s : Db)
      → agency_or_other id user ≡ true
      → IsSingle id s
      → let t = create_session env keys user.id token s in
        IsSingle id (
          if is_agent_role user.role
          then revoke_other_sessions env user.id (some s.next_id) EndReason.kicked t
          else t)
  opened-IsSingle env keys user token s q h = elim (Bool-cases (is_agent_role user.role)) [
    | inl r ↦ rw r (agent_session-IsSingle env keys user.id token s h)
    | inr r ↦ rw r (other_session-IsSingle env keys user.id token s (ground arith) h)
  ]
