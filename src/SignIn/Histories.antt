-- ===== src/SignIn/Histories.antt =====
-- Sequences of requests to backend/src/modules/auth/auth.service.js.
use havale_khodro.Prelude.{
  ℕ, Bool-cases, Option-cases, ◌≡◌, inl, inr, Option, some, List, [], ◌∷◌, arith, ◌==◌, All-found,
  find_first, All, find_first-update_where, find_first-append, find_first-updated, ◌<◌, refl, sym,
  Bool, true, false, not, ◌&&◌, ◌++◌,
}
use havale_khodro.SignIn.{
  log_in, Keyring, refuse_login, find_by_username, open_session, locked_out_now, create_session,
  is_agent_role, find_live_session, revoke_other_sessions, touch_login, has_token, ended,
  session_row, is_kept,
}
use havale_khodro.SignIn.Tokens.{log_out, resolve_session, change_password, refuse_ended}
use havale_khodro.Schema.Entities.{Env, Db, User, Session}
use havale_khodro.SignIn.Single.{IsSingle}
use havale_khodro.SignIn.Sessions.{
  log_in-IsSingle, log_out-IsSingle, resolve_session-IsSingle, change_password-IsSingle,
}
use havale_khodro.Exec.{after, done, thrown, unauthorized, session_kicked}
use havale_khodro.Activity.{record_activity-eq, find_user}
use havale_khodro.Schema.Enums.{login, EndReason, Target}
use havale_khodro.Report.Store.{update_user, is_open_session}

pub data Request : Type 0 where
  logs_in : (token username password : ℕ) → Option ℕ → Request
  logs_out : Option ℕ → Request
  resolves : Option ℕ → Request
  changes : (user_id current_password new_password : ℕ) → Option ℕ → Request

unfoldable pub answer : Env → Keyring → Request → Db → Db
unfolding log_in log_out resolve_session change_password
answer env keys (logs_in token username password ip) s =
    after (log_in env keys token username password ip s)
answer env keys (logs_out token) s = after (log_out env keys token s)
answer env keys (resolves token) s = after (resolve_session env keys token s)
answer env keys (changes user_id current_password new_password token) s =
    after (change_password env keys user_id current_password new_password token s)

-- The requests in the order in which they are served, each at its own time.
unfoldable pub serve : Keyring → List (Env × Request) → Db → Db
unfolding answer
serve keys [] s = s
serve keys ((env, r) ∷ rest) s = serve keys rest (answer env keys r s)

-- Over any history of sign-ins, sign-outs, uses of tokens and changes of passwords, of anybody, an agency
-- never has more than one open session.
pub serve-IsSingle :
    (id : ℕ) (keys : Keyring) (rs : List (Env × Request)) (s : Db)
    → IsSingle id s
    → IsSingle id (serve keys rs s)
unfolding serve answer
serve-IsSingle id keys [] s h = h
serve-IsSingle id keys ((env, logs_in token username password ip) ∷ rs) s h =
    serve-IsSingle id keys rs _ (log_in-IsSingle id env keys token username password ip s h)
serve-IsSingle id keys ((env, logs_out token) ∷ rs) s h =
    serve-IsSingle id keys rs _ (log_out-IsSingle id env keys token s h)
serve-IsSingle id keys ((env, resolves token) ∷ rs) s h =
    serve-IsSingle id keys rs _ (resolve_session-IsSingle id env keys token s h)
serve-IsSingle id keys ((env, changes user_id current new token) ∷ rs) s h =
    serve-IsSingle id keys rs _ (change_password-IsSingle id env keys user_id current new token s h)

-- A successful sign-in.
log_in_done :
    (env : Env) (keys : Keyring) (token username password : ℕ) (ip : Option ℕ) (s t : Db)
    (shown : ℕ × User)
    → log_in env keys token username password ip s ≡ done shown t
    → (u : User) × (find_by_username username s ≡ some u)
      × (open_session env keys token u s ≡ done shown t)
unfolding log_in refuse_login
log_in_done env keys token username password ip s t shown h =
    elim (Bool-cases (locked_out_now env username ip s)) [
      | inl e ↦ absurd (ground arith)
      | inr e ↦ elim (Option-cases (find_by_username username s)) [
        | inl f ↦ absurd (ground arith)
        | inr (u, f) ↦ elim (Bool-cases (keys.compare_hash password u.password_hash)) [
          | inl ok ↦ (u, f, ground arith)
          | inr wrong ↦ absurd (ground arith)
        ]
      ]
    ]

-- What is left after a successful sign-in of an agency, but for the audit trail.
signed_in : Env → Keyring → ℕ → User → Db → Db
unfolding create_session revoke_other_sessions touch_login
signed_in env keys token u s = touch_login env u.id (
    revoke_other_sessions env u.id (some s.next_id) EndReason.kicked
      (create_session env keys u.id token s))

open_session_done :
    (env : Env) (keys : Keyring) (token : ℕ) (u : User) (s t : Db) (shown : ℕ × User)
    → is_agent_role u.role ≡ true
    → open_session env keys token u s ≡ done shown t
    → (t.sessions ≡ (signed_in env keys token u s).sessions)
      × (t.users ≡ (signed_in env keys token u s).users)
      × (shown ≡ (token, u))
unfolding open_session signed_in
open_session_done env keys token u s t shown r h =
    let (rows, e) =
      record_activity-eq env u.id login Target.no_row 0 (signed_in env keys token u s) in
    ground (arith, e)

-- The session of another token, found after the sign-in.
other_token :
    (env : Env) (keys : Keyring) (token old : ℕ) (u : User) (x : Session) (s : Db)
    → (keys.hash_token token == keys.hash_token old) ≡ false
    → find_first (has_token (keys.hash_token old)) s.sessions ≡ some x
    → is_open_session u.id x ≡ true
    → x.id < s.next_id
    → find_first (has_token (keys.hash_token old)) (signed_in env keys token u s).sessions
      ≡ some (ended env EndReason.kicked x)
unfolding signed_in create_session revoke_other_sessions touch_login update_user
other_token env keys token old u x s q e f g =
    let p = has_token (keys.hash_token old) in
    let new = session_row env keys u.id token s in
    let ends : Session → Bool = λ y. is_open_session u.id y && not (is_kept (some s.next_id) y) in
    ground (
      arith,
      e,
      f,
      find_first-append p s.sessions (new ∷ []),
      find_first-update_where p ends (ended env EndReason.kicked) (s.sessions ++ new ∷ [])
          (λ y. refl),
    )

resolve_kicked :
    (later : Env) (keys : Keyring) (old : ℕ) (x : Session) (u : User) (t : Db) (at_time : ℕ)
    → find_live_session (keys.hash_token old) t ≡ some x
    → find_user x.user_id t ≡ some u
    → is_agent_role u.role ≡ true
    → x.ended_at ≡ some at_time
    → x.end_reason ≡ some EndReason.kicked
    → resolve_session later keys (some old) t ≡ thrown (unauthorized session_kicked) t
unfolding resolve_session refuse_ended
resolve_kicked later keys old x u t at_time there owner agent time reason = ground arith

-- When an agency signs in again, whoever holds the token of its open session is told at the next use of it
-- that somebody signed in elsewhere, and the token opens nothing any more.
pub resolve_session-log_in :
    (env later : Env) (keys : Keyring) (token old username password : ℕ) (ip : Option ℕ) (u : User)
    (x : Session) (s t : Db) (shown : ℕ × User)
    → find_by_username username s ≡ some u
    → is_agent_role u.role ≡ true
    → find_user u.id s ≡ some u
    → find_live_session (keys.hash_token old) s ≡ some x
    → is_open_session u.id x ≡ true
    → All (λ y. y.id < s.next_id) s.sessions
    → (keys.hash_token token == keys.hash_token old) ≡ false
    → log_in env keys token username password ip s ≡ done shown t
    → resolve_session later keys (some old) t ≡ thrown (unauthorized session_kicked) t
unfolding find_live_session find_user signed_in touch_login update_user
resolve_session-log_in env later keys token old username password ip u x s t shown named agent mine
      there going fresh apart h =
    let (v, found_u, opened) = log_in_done env keys token username password ip s t shown h in
    let i : v ≡ u = ground arith in
    let (sessions, users, _) =
      open_session_done env keys token u s t shown agent (rw (sym i) opened) in
    let older =
      All-found (λ y. y.id < s.next_id) (has_token (keys.hash_token old)) s.sessions x fresh
        there in
    let same = other_token env keys token old u x s apart there going older in
    let touched =
      find_first-updated (λ w. w.id == u.id) (λ w. record w { last_login_at = some env.now })
        s.users (λ w. refl) mine in
    let owner : x.user_id ≡ u.id = ground arith in
    resolve_kicked later keys old (ended env EndReason.kicked x)
      (record u { last_login_at = some env.now }) t env.now (rw sessions same)
      (rw (owner, users) touched) agent refl refl
