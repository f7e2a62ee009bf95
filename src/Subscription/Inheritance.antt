-- ===== src/Subscription/Inheritance.antt =====
-- A seat lives as long as the parent's subscription
-- (backend/src/modules/subscription/subscription.service.js).
use havale_khodro.Prelude.{◌≡◌, ℕ, String, ◌≢◌, true, false, Option, some, ◌<◌, ◌∙◌, refl, ap}
use havale_khodro.Subscription.Entitlement.{resolve_access, access_from}
use havale_khodro.Schema.Entities.{Env, User, Db, Subscription}
use havale_khodro.Subscription.Grants.{Granted, grant}
use havale_khodro.Exec.{done}
use havale_khodro.Roles.{is_admin}
use havale_khodro.Schema.Enums.{account_active, is_seat}
use havale_khodro.Subscription.Store.{find_live}
use havale_khodro.Subscription.Renewal.{find_live-grant}

-- When a plan is granted to an agency, each of its sub-agencies that is active and holds a seat has
-- access at every moment before the period that the agency was granted is over, and its access ends
-- with that period, as long as its own seat is live at the moment and nothing else is written.
pub resolve_access-grant :
    (env later : Env) (actor : User) (parent_id plan_id : ℕ) (n : Option String) (s t : Db)
    (r : Granted) (child : User) (own : Subscription)
    → grant env actor parent_id plan_id n s ≡ done r t
    → later.now < r.expires_at
    → child.parent_id ≡ some parent_id
    → child.id ≢ parent_id
    → is_admin child.role ≡ false
    → account_active child.status ≡ true
    → find_live later child.id s ≡ some own
    → is_seat own.origin ≡ true
    → ((resolve_access later child t).active ≡ true)
      × ((resolve_access later child t).expires_at ≡ some r.expires_at)
unfolding resolve_access access_from
resolve_access-grant env later actor parent_id plan_id n s t r child own h d p ne a act live seat =
    let ((x, f, q), same) =
      find_live-grant env later actor parent_id plan_id n s t r child.id h d ne in
    let live_after : find_live later child.id t ≡ some own = same ∙ live in
    let e : resolve_access later child t ≡ access_from later child own x t =
      rw (a, act, live_after, seat, p, f) refl in
    (ap (λ y. y.active) e, ap (λ y. y.expires_at) e ∙ ap some q)
