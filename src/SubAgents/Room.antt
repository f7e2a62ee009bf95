-- ===== src/SubAgents/Room.antt =====
-- The capacity of a parent when it opens a sub-agency
-- (backend/src/modules/subagent/subagent.service.js).
use havale_khodro.Prelude.{
  ℕ, ◌≤◌, String, ◌≡◌, Option, [], ◌∷◌, ◌++◌, arith, ltb, get_or, count_where-snoc, ◌∙◌, false, not,
  some, ==_refl, count_where, ◌-◌,
}
use havale_khodro.Brands.{set_brands, validate_grants, replace_grants, Sets}
use havale_khodro.Schema.Entities.{Env, User, Db, Subscription}
use havale_khodro.SubAgents.Creation.{
  create_child, Payload, child_account, insert_user, wanted_grants,
}
use havale_khodro.Subscription.Seats.{seat_summary, count_seats_used, holds_seat}
use havale_khodro.Exec.{
  done, transaction, Exec, ◌>>◌, pure, forbidden, no_capacity, internal, plan_row,
}
use havale_khodro.Subscription.Entitlement.{resolve_access}
use havale_khodro.Subscription.Grants.{issue_seat_subscription}
use havale_khodro.Exec.Laws.{require-done, bind-done, found-done}

-- Setting brands leaves the accounts alone.
set_brands-users :
    (user_id k : ℕ) (wanted : Sets) (limit : Option Sets) (s t : Db)
    → set_brands user_id wanted limit s ≡ done k t
    → t.users ≡ s.users
unfolding set_brands validate_grants replace_grants
set_brands-users user_id k wanted limit s t h = ground arith

-- What a sub-agency that was opened has taken up.
pub record IsOpened (env : Env) (user : User) (password_hash : ℕ) (code : String) (p : Payload)
    (id : ℕ) (s t : Db) : Type 0 where
  pub room : count_seats_used user.id (resolve_access env user s).period_start t ≤ user.seat_credits
  pub row : t.users ≡ s.users ++ child_account id user.id password_hash code p ∷ []

transaction_done : (m : Exec ℕ) (s t : Db) (id : ℕ) → transaction m s ≡ done id t → m s ≡ done id t
unfolding transaction
transaction_done m s t id h = ground arith

issued-users :
    (env : Env) (user_id plan_id price by id k : ℕ) (s t : Db)
    → (issue_seat_subscription env user_id plan_id price by >> pure k) s ≡ done id t
    → (t.users ≡ s.users) × (id ≡ k)
unfolding issue_seat_subscription
issued-users env user_id plan_id price by id k s t h = ground arith

-- The steps of `create_child` that succeeded.
create_child_steps :
    (env : Env) (user : User) (paid : Option Subscription) (password_hash : ℕ) (code : String)
    (p : Payload) (mine : Sets) (s t : Db) (id : ℕ)
    → create_child env user paid password_hash code p mine s ≡ done id t
    → (ltb (seat_summary env user s).available 1 ≡ false)
      × (t.users ≡ s.users ++ child_account s.next_id user.id password_hash code p ∷ [])
      × (id ≡ s.next_id)
unfolding create_child insert_user
create_child_steps env user paid password_hash code p mine s t id h =
    let (room, rest) =
      require-done (not (ltb (seat_summary env user s).available 1)) (forbidden no_capacity) _ s t
        id (transaction_done _ s t id h) in
    let (granted, u, set, rest2) =
      bind-done (set_brands s.next_id (wanted_grants p mine) (some mine)) _ _ t id rest in
    let (plan, found_plan, rest3) = found-done paid (internal plan_row) _ u t id rest2 in
    let (a, b) =
      issued-users env s.next_id plan.plan_id (seat_summary env user s).unit_price_toman user.id id
        s.next_id u t rest3 in
    (
      ground arith,
      a ∙ set_brands-users s.next_id granted (wanted_grants p mine) (some mine) _ u set,
      b,
    )

-- When the locked part of a creation succeeds, from whatever database it finds behind the lock: the
-- new account is the only change among the accounts, it is an active agency's under the parent,
-- and the seats in use, counted for the parent's current period, do not exceed its credits.
pub create_child-IsOpened :
    (env : Env) (user : User) (paid : Option Subscription) (password_hash : ℕ) (code : String)
    (p : Payload) (mine : Sets) (s t : Db) (id : ℕ)
    → create_child env user paid password_hash code p mine s ≡ done id t
    → IsOpened env user password_hash code p id s t
unfolding create_child seat_summary count_seats_used
create_child-IsOpened env user paid password_hash code p mine s t id h =
    let (room, rows, i) = create_child_steps env user paid password_hash code p mine s t id h in
    let row = child_account s.next_id user.id password_hash code p in
    let start = get_or (resolve_access env user s).period_start 0 in
    let r : ltb (user.seat_credits - count_where (holds_seat user.id start) s.users) 1 ≡ false =
      room in
    record {
      room = rw rows (
          rw (count_where-snoc (holds_seat user.id start) s.users row)
            (ground (arith, ==_refl user.id, r)));
      row = rw i rows;
    }
