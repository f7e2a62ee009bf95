-- ===== src/Roles.antt =====
-- backend/src/constants/roles.js: the permission table and the checks on it.
pub mod Policy
use havale_khodro.Prelude.{
  ℕ, Bool, true, false, Option, none, some, List, [], ◌∷◌, map, ◌==◌, if◌then◌else◌, get_or,
}
use havale_khodro.Schema.Enums.{
  Role, owner, developer, super_admin, support, finance, agent, Permission, tickets, reports,
  listings, contact_edit, third_strike, subscriptions, seats, agents, monitoring, export,
  bulk_contacts, settings, catalog, staff, system_alerts, error_log,
}
use havale_khodro.Schema.Entities.{User}

unfoldable pub is_hidden : Role → Bool
is_hidden owner = true
is_hidden developer = true
is_hidden _ = false

unfoldable pub is_admin : Role → Bool
is_admin owner = true
is_admin super_admin = true
is_admin support = true
is_admin finance = true
is_admin _ = false

unfoldable pub is_owner : Role → Bool
is_owner owner = true
is_owner _ = false

-- What the object of a role says of a key; `none` where the key is absent.
super_admin_table : Permission → Bool
super_admin_table staff = false
super_admin_table system_alerts = false
super_admin_table error_log = false
super_admin_table _ = true

support_table : Permission → Bool
support_table tickets = true
support_table reports = true
support_table listings = true
support_table contact_edit = true
support_table _ = false

finance_table : Permission → Bool
finance_table subscriptions = true
finance_table seats = true
finance_table _ = false

unfoldable pub permissions_of : Role → Permission → Option Bool
unfolding super_admin_table support_table finance_table
permissions_of owner p = some true
permissions_of developer p = none
permissions_of super_admin p = some (super_admin_table p)
permissions_of support p = some (support_table p)
permissions_of finance p = some (finance_table p)
permissions_of agent p = none

-- `Boolean(PERMISSIONS[role] && PERMISSIONS[role][permission])`
unfoldable pub can : Role → Permission → Bool
unfolding permissions_of
can role p = get_or (permissions_of role p) false

-- The keys of PERMISSION_GROUPS, in their order.
abbrev pub permission_keys : List Permission
permission_keys =
    agents ∷ contact_edit ∷ bulk_contacts ∷ export ∷ tickets ∷ reports ∷ listings ∷ third_strike
    ∷ subscriptions ∷ seats ∷ monitoring ∷ catalog ∷ settings ∷ staff ∷ system_alerts ∷ error_log
    ∷ []

-- The place of a key, to compare two of them.
abbrev pub key_index : Permission → ℕ
key_index tickets = 0
key_index reports = 1
key_index listings = 2
key_index contact_edit = 3
key_index third_strike = 4
key_index subscriptions = 5
key_index seats = 6
key_index agents = 7
key_index monitoring = 8
key_index export = 9
key_index bulk_contacts = 10
key_index settings = 11
key_index catalog = 12
key_index staff = 13
key_index system_alerts = 14
key_index error_log = 15

-- `overrides[permission]`: keys of an object are unique, so the first entry is the entry.
unfoldable pub override_for : Permission → List (Permission × Bool) → Option Bool
override_for p [] = none
override_for p ((q, b) ∷ rest) = if key_index p == key_index q then some b else override_for p rest

-- The per-user map, or an empty object.
abbrev pub overrides_of : User → List (Permission × Bool)
overrides_of u = get_or u.permissions []

unfoldable pub user_can : Option User → Permission → Bool
unfolding override_for can
user_can none p = false
user_can (some u) p = get_or (override_for p (overrides_of u)) (can u.role p)

-- What one entry of the object that the interface receives says.
effective : Option User → Permission → Bool
unfolding override_for permissions_of
effective none p = false
effective (some u) p =
    get_or (override_for p (overrides_of u)) (get_or (permissions_of u.role p) false)

unfoldable pub effective_permissions : Option User → List (Permission × Bool)
unfolding effective
effective_permissions u = map (λ key. (key, effective u key)) permission_keys

unfoldable pub assignable_roles : Role → List Role
unfolding is_owner
assignable_roles actor_role =
    if is_owner actor_role then developer ∷ super_admin ∷ support ∷ finance ∷ [] else []
