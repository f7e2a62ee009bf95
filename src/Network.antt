-- ===== src/Network.antt =====
-- backend/src/modules/listing/network.js: who sees an advertisement that is for a network only.
pub mod Agreement
use havale_khodro.Prelude.{
  ℕ, Option, find_many, List, Bool, get_or, some, if◌then◌else◌, ◌==◌, map, false, not, ◌||◌, is_id,
  ◌&&◌, true, present, none, [], ◌∷◌,
}
use havale_khodro.Schema.Entities.{User, Listing, Db}
use havale_khodro.Schema.Enums.{Visibility, network_only, public, network}
use havale_khodro.Exec.{Exec, pure, ◌>>=◌, ◌>>◌, require, bad_request, no_network}

-- The root account of a user's network: `user.parentId || (user.isReseller ? user.id : null)`.
unfoldable pub network_root_of : Option User → Option ℕ
network_root_of none = none
network_root_of (some u) = elim u.parent_id [
  | some parent ↦ some parent
  | none ↦ if u.is_reseller then some u.id else none
]

abbrev pub in_network : ℕ → User → Bool
in_network root u = u.id == root || is_id u.parent_id root

unfoldable pub network_member_ids : ℕ → Db → List ℕ
unfolding find_many
network_member_ids root s = map (λ u. u.id) (find_many (in_network root) s.users)

-- The two clauses that a list query may be narrowed by.
pub data Clause : Type 0 where
  public_rows : Clause
  public_or_owned_by : List ℕ → Clause

unfoldable pub visibility_clause : Option User → Db → Clause
unfolding network_root_of network_member_ids
visibility_clause user s = elim (network_root_of user) [
  | none ↦ public_rows
  | some root ↦ public_or_owned_by (network_member_ids root s)
]

unfoldable pub contains : ℕ → List ℕ → Bool
contains k [] = false
contains k (x ∷ xs) = x == k || contains k xs

-- Whether a row satisfies a clause.
unfoldable pub satisfies : Clause → Listing → Bool
unfolding contains
satisfies public_rows l = not (network_only l.visibility)
satisfies (public_or_owned_by members) l =
    not (network_only l.visibility) || (network_only l.visibility && contains l.owner_id members)

-- `row.owner?.parentId || row.ownerId`
abbrev owner_root : Listing → User → ℕ
owner_root l owner = get_or owner.parent_id l.owner_id

-- Whether a viewer may see a row that was fetched by its id, with its owner.
unfoldable pub may_view : Option User → Listing → User → Bool
unfolding network_root_of
may_view user l owner =
    if not (network_only l.visibility)
    then true
    else is_id (network_root_of user) (owner_root l owner)

abbrev asks_network : Option Visibility → Bool
asks_network none = false
asks_network (some v) = network_only v

unfoldable pub resolve_visibility : Option User → Option Visibility → Exec Visibility
unfolding network_root_of
resolve_visibility user requested =
    if not (asks_network requested)
    then pure public
    else do require (present (network_root_of user)) (bad_request no_network); pure network

-- The viewer's own network's rows, whatever their visibility; `none` filters nothing.
unfoldable pub network_filter : Option User → Db → Option (List ℕ)
unfolding network_root_of network_member_ids
network_filter user s = elim (network_root_of user) [
  | none ↦ none
  | some root ↦ some (network_member_ids root s)
]
