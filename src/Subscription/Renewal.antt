-- ===== src/Subscription/Renewal.antt =====
-- What granting a plan does to the granted account and to its sub-agencies.
use havale_khodro.Prelude.{
  find_many, count_where, update_where, count_where-append, ℕ, ◌<◌, ◌≡◌, refl, ◌≢◌, Bool, some,
  List, [], ◌∷◌, ◌++◌, arith, String, ap, ◌∙◌, false, Option, Option-cases, sym, inl, inr,
}
use havale_khodro.Schema.Entities.{Env, Subscription, Db, User, Plan, Activity}
use havale_khodro.Subscription.Store.{
  NewSubscription, is_live, is_active_row, end_row, subscription_row, find_live, replace_live,
  last_to_expire, find_plan,
}
use havale_khodro.Subscription.Grants.{grant, Granted, period_of}
use havale_khodro.Exec.{done}
use havale_khodro.Schema.Enums.{admin, subscription_granted, user}
use havale_khodro.Time.{add_days}
use havale_khodro.Activity.{record_activity-eq}

find_many-joined {ℓ} :
    {A : Type ℓ} (p : A → Bool) (xs ys : List A)
    → find_many p (xs ++ ys) ≡ find_many p xs ++ find_many p ys
unfolding find_many
find_many-joined p [] ys = refl
find_many-joined p (x ∷ xs) ys = ground (arith, find_many-joined p xs ys)

-- A row that fails the test adds nothing to what is found.
find_many-append_failing {ℓ} :
    {A : Type ℓ} (p : A → Bool) (xs : List A) (x : A)
    → p x ≡ false
    → find_many p (xs ++ x ∷ []) ≡ find_many p xs
unfolding find_many
find_many-append_failing p [] x h = ground arith
find_many-append_failing p (y ∷ ys) x h = ground (arith, find_many-append_failing p ys x h)

module _ (env : Env) (user_id : ℕ) where
  -- Rows that were ended are not live.
  ended_dead :
      (xs : List Subscription)
      → find_many (is_live env user_id) (update_where (is_active_row user_id) end_row xs) ≡ []
  unfolding find_many update_where
  ended_dead [] = refl
  ended_dead (x ∷ xs) = ground (arith, ended_dead xs)

  ended_uncounted :
      (xs : List Subscription)
      → count_where (is_active_row user_id) (update_where (is_active_row user_id) end_row xs) ≡ 0
  unfolding count_where update_where
  ended_uncounted [] = refl
  ended_uncounted (x ∷ xs) = ground (arith, ended_uncounted xs)

  -- The rows of another account are untouched.
  ended_others :
      (v : ℕ) (xs : List Subscription)
      → v ≢ user_id
      → find_many (is_live env v) (update_where (is_active_row user_id) end_row xs)
        ≡ find_many (is_live env v) xs
  unfolding find_many update_where
  ended_others v [] h = refl
  ended_others v (x ∷ xs) h = ground (arith, ended_others v xs h)

  module _ (d : NewSubscription) (s : Db) where
    abbrev new_row : Subscription
    new_row = subscription_row env s.next_id user_id d

    find_live-replace_live :
        env.now < d.expires_at → find_live env user_id (replace_live env user_id d s) ≡ some new_row
    unfolding find_live replace_live find_many last_to_expire
    find_live-replace_live h =
        rw (find_many-joined (is_live env user_id)) (rw (ended_dead s.subscriptions) (ground arith))

    count-replace_live :
        count_where (is_active_row user_id) (replace_live env user_id d s).subscriptions ≡ 1
    unfolding replace_live count_where
    count-replace_live =
        rw (count_where-append (is_active_row user_id))
          (rw (ended_uncounted s.subscriptions) (ground arith))

    find_live-replace_live_ne :
        (v : ℕ) → v ≢ user_id → find_live env v (replace_live env user_id d s) ≡ find_live env v s
    unfolding find_live replace_live
    find_live-replace_live_ne v h = ap last_to_expire (
        find_many-append_failing (is_live env v)
          (update_where (is_active_row user_id) end_row s.subscriptions) new_row (ground arith)
        ∙ ended_others v s.subscriptions h)

pub grant_cases :
    (env : Env) (actor : User) (user_id plan_id : ℕ) (n : Option String) (s t : Db) (r : Granted)
    → grant env actor user_id plan_id n s ≡ done r t
    → (p : Plan) × (rows : List Activity) × (t
        ≡ record (replace_live env user_id (period_of env actor.id p n) s) { activity = rows })
      × (r.id ≡ s.next_id)
      × (r.expires_at ≡ add_days env.now p.duration_days)
unfolding grant
grant_cases env actor user_id plan_id n s t r h = elim (Option-cases (find_plan plan_id s)) [
  | inl e ↦ ground arith
  | inr (p, e) ↦
      let (rows, q) =
        record_activity-eq env actor.id subscription_granted user user_id
          (replace_live env user_id (period_of env actor.id p n) s) in
      (p, rows, ground arith, ground arith, ground arith)
]

-- When a plan that does not end at once is granted, the new period is the account's live
-- subscription, it runs from now, it is the account's only row that counts, and the live
-- subscription of any other account is the one that it was.
pub grant_lem :
    (env : Env) (actor : User) (user_id plan_id : ℕ) (n : Option String) (s t : Db) (r : Granted)
    (other : ℕ)
    → grant env actor user_id plan_id n s ≡ done r t
    → env.now < r.expires_at
    → other ≢ user_id
    → ((x : Subscription) × (find_live env user_id t ≡ some x)
        × (x.id ≡ r.id)
        × (x.starts_at ≡ env.now)
        × (x.expires_at ≡ r.expires_at)
        × (x.origin ≡ admin))
      × (count_where (is_active_row user_id) t.subscriptions ≡ 1)
      × (find_live env other t ≡ find_live env other s)
unfolding find_live
grant_lem env actor user_id plan_id n s t r other h k w =
    let (p, rows, e, i, x) = grant_cases env actor user_id plan_id n s t r h in
    let d : NewSubscription = period_of env actor.id p n in
    rw e (
      (
        new_row env user_id d s,
        find_live-replace_live env user_id d s (rw x at k),
        sym i,
        refl,
        sym x,
        refl,
      ),
      count-replace_live env user_id d s,
      find_live-replace_live_ne env user_id d s other w,
    )

-- The period that was granted is the live one until it ends, and the live subscription of any other
-- account is at any moment the one that it would have been.
pub find_live-grant :
    (env later : Env) (actor : User) (user_id plan_id : ℕ) (n : Option String) (s t : Db)
    (r : Granted) (other : ℕ)
    → grant env actor user_id plan_id n s ≡ done r t
    → later.now < r.expires_at
    → other ≢ user_id
    → ((x : Subscription) × (find_live later user_id t ≡ some x) × (x.expires_at ≡ r.expires_at))
      × (find_live later other t ≡ find_live later other s)
unfolding find_live replace_live find_many last_to_expire
find_live-grant env later actor user_id plan_id n s t r other h k w =
    let (p, rows, e, i, x) = grant_cases env actor user_id plan_id n s t r h in
    let row = subscription_row env s.next_id user_id (period_of env actor.id p n) in
    let ends : later.now < row.expires_at = rw x at k in
    rw e (
      (
        row,
        rw (find_many-joined (is_live later user_id))
            (rw (ended_dead later user_id s.subscriptions) (ground arith)),
        sym x,
      ),
      ap last_to_expire (
          find_many-append_failing (is_live later other)
            (update_where (is_active_row user_id) end_row s.subscriptions) row (ground arith)
          ∙ ended_others later user_id other s.subscriptions w),
    )
