-- ===== src/Activity.antt =====
-- The audit trail: `recordActivity` of backend/src/modules/auth/auth.repository.js. The memo of
-- roles, which is cleared whenever a role is written, is read as the role itself, and the address,
-- device, summary and differences of an entry are left out.
use havale_khodro.Prelude.{
  ℕ, Bool, true, false, Option, none, some, List, [], ◌∷◌, ◌++◌, ◌==◌, if◌then◌else◌, find_first,
  Option-cases, inl, inr, ◌≡◌, arith, update_where, find_first_holds, find_first-update_where, ap,
}
use havale_khodro.Schema.Enums.{Action, Target, is_login_failed}
use havale_khodro.Schema.Entities.{User, Activity, Db, Env}
use havale_khodro.Roles.{is_hidden}
use havale_khodro.Exec.{Exec, done, writes, ◌>>◌, pure}

unfoldable pub find_user : ℕ → Db → Option User
unfolding find_first
find_user id s = find_first (λ u. u.id == id) s.users

hidden_user : Option User → Bool
unfolding is_hidden
hidden_user none = false
hidden_user (some u) = is_hidden u.role

unfoldable pub is_hidden_actor : ℕ → Db → Bool
unfolding find_user hidden_user
is_hidden_actor id s = hidden_user (find_user id s)

log_row : Env → Option ℕ → Action → Target → ℕ → Activity
log_row env user_id action target_type target_id = record {
  user_id = user_id;
  action = action;
  target_type = target_type;
  target_id = target_id;
  created_at = env.now;
}

-- Where a hidden account acts, only the actions that the lockout counts are written, and those
-- without the account.
logged_as : Bool → ℕ → Action → Option (Option ℕ)
logged_as true user_id action = if is_login_failed action then some none else none
logged_as false user_id action = some (some user_id)

unfoldable pub record_activity : Env → ℕ → Action → Target → ℕ → Exec (Unit {0})
unfolding is_hidden_actor log_row logged_as
record_activity env user_id action target_type target_id = writes λ s.
    elim (logged_as (is_hidden_actor user_id s) user_id action) [
      | none ↦ s
      | some shown ↦ record s {
        activity = s.activity ++ log_row env shown action target_type target_id ∷ [];
      }
    ]

-- Writing to the audit trail touches nothing else.
pub record_activity-eq :
    (env : Env) (user_id : ℕ) (action : Action) (target_type : Target) (target_id : ℕ) (s : Db)
    → (rows : List Activity) × (record_activity env user_id action target_type target_id s
        ≡ done tt (record s { activity = rows }))
unfolding record_activity
record_activity-eq env user_id action target_type target_id s =
    elim (Option-cases (logged_as (is_hidden_actor user_id s) user_id action)) [
      | inl e ↦ (s.activity, ground arith)
      | inr (shown, e) ↦
          (s.activity ++ log_row env shown action target_type target_id ∷ [], ground arith)
    ]

-- A handler that ends with an entry in the audit trail.
pub record_activity-last {ℓ} :
    {A : Type ℓ} (env : Env) (user_id : ℕ) (action : Action) (target_type : Target) (target_id : ℕ)
    (a b : A) (s t : Db)
    → (record_activity env user_id action target_type target_id >> pure a) s ≡ done b t
    → (rows : List Activity) × (t ≡ record s { activity = rows })
record_activity-last env user_id action target_type target_id a b s t h =
    let (rows, e) = record_activity-eq env user_id action target_type target_id s in
    (rows, ground arith)

-- The account that is found after a write to one account, and the account that it was.
pub user_before :
    (k v : ℕ) (f : User → User) (xs : List User) (u : User)
    → ((x : User) → (f x).id ≡ x.id)
    → find_first (λ x. x.id == v) (update_where (λ x. x.id == k) f xs) ≡ some u
    → (w : User) × (find_first (λ x. x.id == v) xs ≡ some w)
      × (w.id ≡ v)
      × (u ≡ (if w.id == k then f w else w))
user_before k v f xs u q e = elim (Option-cases (find_first (λ x. x.id == v) xs)) [
  | inl n ↦ ground (
    arith,
    find_first-update_where (λ x. x.id == v) (λ x. x.id == k) f xs (λ x. ap (λ n. n == v) (q x)),
  )
  | inr (w, n) ↦ (
    w,
    n,
    ground (arith, find_first_holds (λ x. x.id == v) xs {x = w}),
    ground (
      arith,
      find_first-update_where (λ x. x.id == v) (λ x. x.id == k) f xs (λ x. ap (λ n. n == v) (q x)),
    ),
  )
]
