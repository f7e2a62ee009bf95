-- ===== src/Roles/Policy.antt =====
-- What the permission table guarantees.
use havale_khodro.Prelude.{◌≡◌, refl, true, false, Option, none, some, arith, All}
use havale_khodro.Schema.Enums.{
  Role, owner, developer, super_admin, support, finance, agent, Permission, tickets, staff,
  system_alerts, error_log,
}
use havale_khodro.Schema.Entities.{User}
use havale_khodro.Roles.{can, user_can, effective_permissions, assignable_roles, override_for}

-- For every account and every permission, the object that the interface receives has an entry for
-- that permission, and the entry is the answer that the middleware gives.
pub effective_permissions-user_can :
    (u : Option User) (p : Permission)
    → override_for p (effective_permissions u) ≡ some (user_can u p)
unfolding override_for effective_permissions user_can
effective_permissions-user_can none tickets = refl
effective_permissions-user_can none _ = refl
effective_permissions-user_can (some u) tickets = refl
effective_permissions-user_can (some u) _ = refl

-- Whatever role the actor has, every role that the actor may hand out lacks the permissions
-- `staff`, `system_alerts` and `error_log` by default, and handing out is refused to every role
-- but the owner's, which alone has `staff`.
pub assignable_roles_powerless :
    (actor : Role)
    → All
        (λ r.
          (can r staff ≡ false)
          × (can r system_alerts ≡ false)
          × (can r error_log ≡ false)
          × (can actor staff ≡ true))
        (assignable_roles actor)
unfolding assignable_roles can
assignable_roles_powerless owner = ground arith
assignable_roles_powerless _ = tt

-- Support and finance staff have by default only permissions that a super administrator has, and
-- a super administrator only ones that the owner has; a developer and an agent have none.
pub can_mono :
    (p : Permission)
    → (can support p ≡ true → can super_admin p ≡ true)
      × (can finance p ≡ true → can super_admin p ≡ true)
      × (can super_admin p ≡ true → can owner p ≡ true)
      × (can developer p ≡ false)
      × (can agent p ≡ false)
unfolding can
can_mono p = ground arith
