-- ===== src/Subscription/Store.antt =====
-- backend/src/modules/subscription/subscription.repository.js: the queries and writes on plans and
-- subscriptions. Where two live rows end at one moment, the first of the table stands for the one
-- that the database returns first.
use havale_khodro.Prelude.{
  ltb, ◌==◌, if◌then◌else◌, find_first, find_many, update_where, ℕ, ◌+◌, String, Bool, ◌&&◌, Option,
  none, some, List, [], ◌∷◌, ◌++◌,
}
use havale_khodro.Schema.Entities.{Env, Subscription, Db, Plan}
use havale_khodro.Schema.Enums.{Origin, period_active, SubscriptionStatus}

abbrev pub is_live : Env → ℕ → Subscription → Bool
is_live env user_id x = x.user_id == user_id && period_active x.status && ltb env.now x.expires_at

-- `orderBy: { expiresAt: 'desc' }`, and the first row.
abbrev later_of : Subscription → Option Subscription → Subscription
later_of x none = x
later_of x (some y) = if ltb x.expires_at y.expires_at then y else x

unfoldable pub last_to_expire : List Subscription → Option Subscription
last_to_expire [] = none
last_to_expire (x ∷ xs) = some (later_of x (last_to_expire xs))

unfoldable pub find_live : Env → ℕ → Db → Option Subscription
unfolding last_to_expire find_many
find_live env user_id s = last_to_expire (find_many (is_live env user_id) s.subscriptions)

-- `include: { plan: true }`
unfoldable pub plan_of : Subscription → Db → Option Plan
plan_of x s = find_first (λ p. p.id == x.plan_id) s.plans

-- A plan that can be sold.
unfoldable pub find_plan : ℕ → Db → Option Plan
find_plan id s = find_first (λ p. p.id == id && p.is_active) s.plans

unfoldable pub list_for_user : ℕ → Db → List Subscription
list_for_user user_id s = find_many (λ x. x.user_id == user_id) s.subscriptions

-- The columns of a subscription that a caller gives.
pub record NewSubscription : Type 0 where
  pub plan_id : ℕ
  pub starts_at : ℕ
  pub expires_at : ℕ
  pub price_toman : ℕ
  pub origin : Origin
  pub created_by : ℕ
  pub note : Option String

abbrev pub subscription_row : Env → ℕ → ℕ → NewSubscription → Subscription
subscription_row env id user_id d = record {
  id = id;
  user_id = user_id;
  plan_id = d.plan_id;
  starts_at = d.starts_at;
  expires_at = d.expires_at;
  status = SubscriptionStatus.active;
  price_toman = d.price_toman;
  origin = d.origin;
  created_by = some d.created_by;
  note = d.note;
  created_at = env.now;
}

unfoldable pub create : Env → ℕ → NewSubscription → Db → Db
create env user_id d s = record s {
  subscriptions = s.subscriptions ++ subscription_row env s.next_id user_id d ∷ [];
  next_id = s.next_id + 1;
}

abbrev pub is_active_row : ℕ → Subscription → Bool
is_active_row user_id x = x.user_id == user_id && period_active x.status

abbrev pub end_row : Subscription → Subscription
end_row x = record x { status = SubscriptionStatus.expired }

unfoldable pub end_active : ℕ → Db → Db
end_active user_id s = record s {
  subscriptions = update_where (is_active_row user_id) end_row s.subscriptions;
}

-- The new row replaces every other that counts, in one transaction.
unfoldable pub replace_live : Env → ℕ → NewSubscription → Db → Db
unfolding create end_active
replace_live env user_id d s = create env user_id d (end_active user_id s)

-- `...(note ? { note } : {})`: a given note replaces the old one.
abbrev pub or_else : Option String → Option String → Option String
or_else none old = old
or_else (some n) old = some n

unfoldable pub set_expiry_row : ℕ → ℕ → Option String → Db → Db
set_expiry_row id expires_at note s = record s {
  subscriptions =
      update_where (λ x. x.id == id)
        (λ x. record x { expires_at = expires_at; note = or_else note x.note }) s.subscriptions;
}

unfoldable pub cancel_row : ℕ → Option String → Db → Db
cancel_row id note s = record s {
  subscriptions =
      update_where (λ x. x.id == id)
        (λ x. record x { status = SubscriptionStatus.cancelled; note = or_else note x.note })
        s.subscriptions;
}
