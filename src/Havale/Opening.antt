-- ===== src/Havale/Opening.antt =====
-- `getById` of backend/src/modules/havale/havale.service.js.
use havale_khodro.Prelude.{◌==◌, if◌then◌else◌, present, is_id, ℕ, Bool, false, ◌&&◌, some}
use havale_khodro.Exec.{◌>>=◌, ◌>>◌, Exec, pure, reads, require, found, not_found, havale_row}
use havale_khodro.Havale.Cards.{to_own_havale, to_havale_card, Card}
use havale_khodro.Havale.Store.{find_by_id}
use havale_khodro.Reveal.{find_reveal}
use havale_khodro.Network.{may_view}
use havale_khodro.Schema.Entities.{User, Listing}
use havale_khodro.Access.{Access}
use havale_khodro.Schema.Enums.{account_active, listing_active}

-- The row that was found, for a viewer who has opened its contact or has not.
unfoldable pub opened : User → Access → Listing → User → Bool → Exec Card
unfolding to_own_havale to_havale_card may_view
opened user access l owner revealed =
    if l.owner_id == user.id
    then pure (to_own_havale l owner)
    else if user.is_reseller && is_id owner.parent_id user.id
    then pure (record (to_own_havale l owner) { is_own = false })
    else (do
      require (account_active owner.status && listing_active l.status) (not_found havale_row)
      require (may_view (some user) l owner) (not_found havale_row)
      pure (to_havale_card l owner access.active revealed))

unfoldable pub get_by_id : User → Access → ℕ → Exec Card
unfolding find_by_id opened find_reveal
get_by_id user access id = do
  it ← reads (find_by_id id)
  row ← found it (not_found havale_row)
  revealed ← reads (λ s. access.active && present (find_reveal id user.id s))
  opened user access row.0 row.1 revealed
