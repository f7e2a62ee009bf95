-- ===== src/SignIn.antt =====
-- backend/src/modules/auth/auth.service.js with the queries of auth.repository.js: the lockout, the
-- sessions and the passwords. Hashing (bcrypt, and the digests and random bytes of
-- backend/src/utils/token.js) is an argument; `toPublicUser`, which lays out the account, is left out.
pub mod Tokens
pub mod Lockout
pub mod Guesses
pub mod Single
pub mod Sessions
pub mod Histories
use havale_khodro.Prelude.{
  ℕ, ltb, leb, ◌==◌, if◌then◌else◌, is_id, find_first, count_where, update_where, ◌+◌, ◌-◌, ◌*◌,
  Bool, true, false, not, ◌&&◌, ◌||◌, Option, none, some, [], ◌∷◌, ◌++◌,
}
use havale_khodro.Exec.{
  ◌>>=◌, ◌>>◌, Exec, writes, require, reads, throw, unauthorized, invalid_credentials, forbidden,
  locked_out, account_suspended, pure,
}
use havale_khodro.Schema.Entities.{Db, Session, LoginFailure, Env, User}
use havale_khodro.Roles.{is_hidden}
use havale_khodro.Schema.Enums.{Role, EndReason, account_active, login, Target}
use havale_khodro.Report.Store.{update_user, is_open_session}
use havale_khodro.Security.Threats.{login_failed_threat}
use havale_khodro.Activity.{record_activity}

-- What the service takes from bcrypt, from node's crypto and from the configuration.
pub record Keyring : Type 0 where
  pub compare_hash : ℕ → ℕ → Bool
  pub hash : ℕ → ℕ
  pub hash_token : ℕ → ℕ
  pub ttl_ms : ℕ

abbrev pub lockout_window_ms : ℕ
lockout_window_ms = 15 * 60 * 1000

abbrev pub lockout_threshold : ℕ
lockout_threshold = 5

abbrev pub lockout_threshold_anywhere : ℕ
lockout_threshold_anywhere = 25

unfoldable pub find_by_username : ℕ → Db → Option User
unfolding find_first
find_by_username username s = find_first (λ u. u.username == username) s.users

abbrev pub has_token : ℕ → Session → Bool
has_token token_hash x = x.token_hash == token_hash

unfoldable pub find_live_session : ℕ → Db → Option Session
unfolding find_first
find_live_session token_hash s = find_first (has_token token_hash) s.sessions

-- `ip ? { ip } : {}`
abbrev pub from_ip : Option ℕ → LoginFailure → Bool
from_ip none f = true
from_ip (some ip) f = is_id f.ip ip

abbrev pub counts : ℕ → ℕ → Option ℕ → LoginFailure → Bool
counts username since ip f = f.summary == username && leb since f.created_at && from_ip ip f

unfoldable pub count_recent_failures : ℕ → ℕ → Option ℕ → Db → ℕ
unfolding count_where
count_recent_failures username since ip s = count_where (counts username since ip) s.login_failures

abbrev pub later_of : Option ℕ → ℕ → ℕ
later_of none since = since
later_of (some t) since = if ltb since t then t else since

-- The start of the window, or the last sign-in if that is later.
unfoldable pub failures_since : Env → Option User → ℕ
failures_since env none = env.now - lockout_window_ms
failures_since env (some u) = later_of u.last_login_at (env.now - lockout_window_ms)

unfoldable pub locked_out_now : Env → ℕ → Option ℕ → Db → Bool
unfolding find_by_username count_recent_failures failures_since
locked_out_now env username ip s =
    let since = failures_since env (find_by_username username s) in
    leb lockout_threshold (count_recent_failures username since ip s)
    || leb lockout_threshold_anywhere (count_recent_failures username since none s)

-- Who an entry of a failed sign-in names: nobody where the account leaves no trace.
abbrev pub failed_as : Option User → Option ℕ
failed_as none = none
failed_as (some u) = if is_hidden u.role then none else some u.id

unfoldable pub record_failure : Env → Option User → ℕ → Option ℕ → Db → Db
unfolding is_hidden
record_failure env user username ip s = record s {
  login_failures =
      s.login_failures
      ++ record { user_id = failed_as user; summary = username; ip = ip; created_at = env.now }
        ∷ [];
}

abbrev pub session_row : Env → Keyring → ℕ → ℕ → Db → Session
session_row env keys user_id token s = record {
  id = s.next_id;
  token_hash = keys.hash_token token;
  user_id = user_id;
  expires_at = env.now + keys.ttl_ms;
  ended_at = none;
  end_reason = none;
}

unfoldable pub create_session : Env → Keyring → ℕ → ℕ → Db → Db
create_session env keys user_id token s = record s {
  sessions = s.sessions ++ session_row env keys user_id token s ∷ [];
  next_id = s.next_id + 1;
}

abbrev pub is_kept : Option ℕ → Session → Bool
is_kept none x = false
is_kept (some id) x = x.id == id

abbrev pub ended : Env → EndReason → Session → Session
ended env reason x = record x { ended_at = some env.now; end_reason = some reason }

-- Every other live session of the account, in one statement.
unfoldable pub revoke_other_sessions : Env → ℕ → Option ℕ → EndReason → Db → Db
unfolding update_where
revoke_other_sessions env user_id keep reason s = record s {
  sessions =
      update_where (λ x. is_open_session user_id x && not (is_kept keep x)) (ended env reason)
        s.sessions;
}

unfoldable pub end_session : Env → ℕ → EndReason → Db → Db
unfolding update_where
end_session env id reason s = record s {
  sessions = update_where (λ x. x.id == id) (ended env reason) s.sessions;
}

abbrev pub is_agent_role : Role → Bool
is_agent_role Role.agent = true
is_agent_role _ = false

unfoldable pub touch_login : Env → ℕ → Db → Db
unfolding update_user update_where
touch_login env user_id s = update_user user_id (λ u. record u { last_login_at = some env.now }) s

-- A wrong password, or a user name that nobody has: one answer for both.
unfoldable pub refuse_login : Env → Option User → ℕ → Option ℕ → Exec (ℕ × User)
unfolding record_failure login_failed_threat
refuse_login env user username ip = do
  writes (record_failure env user username ip)
  writes (login_failed_threat env username ip)
  throw (unauthorized invalid_credentials)

-- The rest of `login` for an account whose password was right. The result is the token with the account.
unfoldable pub open_session : Env → Keyring → ℕ → User → Exec (ℕ × User)
unfolding create_session revoke_other_sessions touch_login record_activity
open_session env keys token user = do
  require (account_active user.status || is_agent_role user.role) (forbidden account_suspended)
  session ← reads (λ s. s.next_id)
  writes (create_session env keys user.id token)
  writes (λ s.
      if is_agent_role user.role
      then revoke_other_sessions env user.id (some session) EndReason.kicked s
      else s)
  writes (touch_login env user.id)
  record_activity env user.id login Target.no_row 0
  pure (token, user)

-- The failures are counted and recorded without a lock: this is a sign-in that no other one overlaps.
unfoldable pub log_in : Env → Keyring → ℕ → ℕ → ℕ → Option ℕ → Exec (ℕ × User)
unfolding find_by_username locked_out_now refuse_login open_session
log_in env keys token username password ip = do
  user ← reads (find_by_username username)
  locked ← reads (locked_out_now env username ip)
  require (not locked) (unauthorized locked_out)
  elim user [
    | none ↦ refuse_login env none username ip
    | some u ↦
        if keys.compare_hash password u.password_hash
        then open_session env keys token u
        else refuse_login env (some u) username ip
  ]
