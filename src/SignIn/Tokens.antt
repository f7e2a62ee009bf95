-- ===== src/SignIn/Tokens.antt =====
-- What backend/src/modules/auth/auth.service.js does with a session token and with a password, and
-- the guards of backend/src/middlewares/auth.js.
use havale_khodro.Prelude.{
  ℕ, ltb, ◌==◌, if◌then◌else◌, present, update_where, Bool, true, false, not, ◌||◌, Option, none,
  some,
}
use havale_khodro.Exec.{
  ◌>>=◌, ◌>>◌, Exec, pure, writes, throw, reads, unauthorized, found, require, session_kicked,
  session_invalid, account_row, forbidden, internal, bad_request, must_change, invalid_credentials,
  password_unchanged, account_suspended,
}
use havale_khodro.Schema.Enums.{
  EndReason, Permission, logged_out, Target, account_active, password_changed,
}
use havale_khodro.Schema.Entities.{Session, User, Env, Db}
use havale_khodro.SignIn.{
  end_session, find_live_session, Keyring, revoke_other_sessions, is_agent_role,
}
use havale_khodro.Report.Store.{update_user}
use havale_khodro.Activity.{find_user, record_activity}
use havale_khodro.Roles.{is_admin, user_can}

abbrev is_kicked : Option EndReason → Bool
is_kicked (some EndReason.kicked) = true
is_kicked _ = false

-- `if (session.endedAt) …`, which tells a session that another sign-in ended from the others.
unfoldable pub refuse_ended : Session → Exec (Unit {0})
refuse_ended x = elim x.ended_at [
  | none ↦ pure tt
  | some t ↦
      throw (unauthorized (if is_kicked x.end_reason then session_kicked else session_invalid))
]

unfoldable pub refuse_expired : Env → Session → Exec (Unit {0})
unfolding end_session
refuse_expired env x =
    if ltb x.expires_at env.now
    then (writes (end_session env x.id EndReason.expired) >> throw (unauthorized session_invalid))
    else pure tt

-- The account of a session, which the query joins, is there by the foreign key of the table. The
-- status of the account is checked first, so that a suspended officer is told of the suspension.
unfoldable pub resolve_session : Env → Keyring → Option ℕ → Exec (Session × User)
unfolding find_live_session find_user refuse_ended refuse_expired
resolve_session env keys none = throw (unauthorized session_invalid)
resolve_session env keys (some token) = do
  row ← reads (find_live_session (keys.hash_token token))
  x ← found row (unauthorized session_invalid)
  owner ← reads (find_user x.user_id)
  user ← found owner (internal account_row)
  require (account_active user.status || is_agent_role user.role) (forbidden account_suspended)
  refuse_ended x
  refuse_expired env x
  pure (x, user)

unfoldable pub log_out : Env → Keyring → Option ℕ → Exec (Unit {0})
unfolding find_live_session end_session record_activity
log_out env keys none = pure tt
log_out env keys (some token) = do
  row ← reads (find_live_session (keys.hash_token token))
  elim row [
    | none ↦ pure tt
    | some x ↦ if present x.ended_at then pure tt else (do
      writes (end_session env x.id EndReason.logout)
      record_activity env x.user_id logged_out Target.no_row 0)
  ]

abbrev pub with_password : ℕ → User → User
with_password password_hash u = record u {
  password_hash = password_hash;
  must_change_password = false;
}

unfoldable pub update_password : ℕ → ℕ → Db → Db
unfolding update_user update_where
update_password user_id password_hash s = update_user user_id (with_password password_hash) s

abbrev pub session_id : Option Session → Option ℕ
session_id none = none
session_id (some x) = some x.id

-- `currentToken ? await findLiveSession(…) : null`
unfoldable pub current_session : Keyring → Option ℕ → Db → Option Session
unfolding find_live_session
current_session keys none s = none
current_session keys (some token) s = find_live_session (keys.hash_token token) s

unfoldable pub change_password : Env → Keyring → ℕ → ℕ → ℕ → Option ℕ → Exec (Unit {0})
unfolding find_user update_password current_session revoke_other_sessions record_activity
change_password env keys user_id current_password new_password current_token = do
  row ← reads (find_user user_id)
  user ← found row (unauthorized account_row)
  require (keys.compare_hash current_password user.password_hash) (bad_request invalid_credentials)
  require (not (current_password == new_password)) (bad_request password_unchanged)
  writes (update_password user.id (keys.hash new_password))
  current ← reads (current_session keys current_token)
  writes (revoke_other_sessions env user.id (session_id current) EndReason.admin_revoked)
  record_activity env user.id password_changed Target.no_row 0

unfoldable pub mark_guide_seen : Env → ℕ → Db → Db
unfolding update_user update_where
mark_guide_seen env user_id s =
    update_user user_id (λ u. record u { guide_seen_at = some env.now }) s

-- `requirePasswordChanged`
unfoldable pub require_password_changed : Option User → Exec (Unit {0})
require_password_changed none = pure tt
require_password_changed (some u) = require (not u.must_change_password) (forbidden must_change)

-- `requireAdmin` and `requirePermission`
unfoldable pub require_admin : Option User → Exec (Unit {0})
unfolding is_admin
require_admin none = throw (unauthorized account_row)
require_admin (some u) = require (is_admin u.role) (forbidden account_row)

unfoldable pub require_permission : Permission → Option User → Exec (Unit {0})
unfolding user_can
require_permission permission none = throw (unauthorized account_row)
require_permission permission (some u) =
    require (user_can (some u) permission) (forbidden account_row)
