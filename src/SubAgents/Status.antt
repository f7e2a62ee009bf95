-- ===== src/SubAgents/Status.antt =====
-- `requireChild` and `setStatus` of backend/src/modules/subagent/subagent.service.js, with the
-- queries and writes of subagent.repository.js. A result is the child's id, by which the caller can
-- read the row.
use havale_khodro.Prelude.{
  ◌==◌, if◌then◌else◌, is_id, find_first, update_where, ℕ, Bool, true, false, not, ◌&&◌, Option,
  none, some,
}
use havale_khodro.Exec.{◌>>=◌, ◌>>◌, Exec, reads, writes, pure, found, not_found, child_row}
use havale_khodro.Schema.Entities.{User, Db, Env}
use havale_khodro.Schema.Enums.{
  UserStatus, account_active, subagent_suspended, Target, subagent_activated,
}
use havale_khodro.Activity.{record_activity}
use havale_khodro.Report.Store.{is_open_session, revoked_session}

abbrev pub is_child_row : ℕ → ℕ → User → Bool
is_child_row parent_id id u = u.id == id && is_id u.parent_id parent_id

-- Scoped by the parent in the query.
unfoldable pub find_child : ℕ → ℕ → Db → Option User
unfolding find_first
find_child parent_id id s = find_first (is_child_row parent_id id) s.users

abbrev pub with_status : Env → UserStatus → User → User
with_status env status u = record u {
  status = status;
  suspended_at = if account_active status then none else some env.now;
}

unfoldable pub set_status_row : Env → ℕ → UserStatus → Db → Db
unfolding update_where
set_status_row env id status s = record s {
  users = update_where (λ u. u.id == id) (with_status env status) s.users;
}

unfoldable pub end_sessions : Env → ℕ → Db → Db
unfolding update_where
end_sessions env user_id s = record s {
  sessions = update_where (is_open_session user_id) (revoked_session env) s.sessions;
}

unfoldable pub require_child : User → ℕ → Exec User
unfolding find_child
require_child user id = do child ← reads (find_child user.id id); found child (not_found child_row)

abbrev pub same_status : UserStatus → UserStatus → Bool
same_status UserStatus.active b = account_active b
same_status UserStatus.suspended b = not (account_active b)

-- What is written when the status changes.
unfoldable pub change_status : Env → User → User → UserStatus → Exec ℕ
unfolding set_status_row end_sessions record_activity
change_status env user child UserStatus.suspended = do
  writes (set_status_row env child.id UserStatus.suspended)
  writes (end_sessions env child.id)
  record_activity env user.id subagent_suspended Target.user child.id
  pure child.id
change_status env user child UserStatus.active = do
  writes (set_status_row env child.id UserStatus.active)
  record_activity env user.id subagent_activated Target.user child.id
  pure child.id

-- `if (child.status === status) return child;`
unfoldable pub unless_same : Bool → Env → User → User → UserStatus → Exec ℕ
unfolding change_status
unless_same true env user child status = pure child.id
unless_same false env user child status = change_status env user child status

unfoldable pub set_status : Env → User → ℕ → UserStatus → Exec ℕ
unfolding require_child unless_same
set_status env user id status = do
  child ← require_child user id
  unless_same (same_status child.status status) env user child status
