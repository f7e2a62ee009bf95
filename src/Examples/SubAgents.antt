-- ===== src/Examples/SubAgents.antt =====
-- A reseller with one seat, which an active sub-agency holds, and a sub-agency that has been
-- suspended since an earlier period.
use havale_khodro.Prelude.{◌≡◌, refl, false, some, [], ◌∷◌, count_where, none}
use havale_khodro.Schema.Entities.{User, Db}
use havale_khodro.SubAgents.Status.{find_child, set_status}
use havale_khodro.Subscription.Seats.{seat_summary, count_seats_used}
use havale_khodro.Examples.Fixtures.{parent, child, market, noon, account, period}
use havale_khodro.Exec.{after, done, transaction}
use havale_khodro.Schema.Enums.{UserStatus, Role, admin}
use havale_khodro.SubAgents.Seating.{set_status-HasStatus, HasStatus}
use havale_khodro.Subscription.Entitlement.{resolve_access}
use havale_khodro.Subscription.Store.{find_live}
use havale_khodro.SubAgents.Creation.{Payload, create_child}
use havale_khodro.SubAgents.Room.{IsOpened, create_child-IsOpened}

abbrev reseller : User
reseller = record parent { seat_credits = 1 }

abbrev dormant : User
dormant = record child { status = UserStatus.suspended; suspended_at = some 1 }

abbrev full : Db
full = record market { users = reseller ∷ dormant ∷ account 6 Role.agent (some 1) false ∷ [] }

set_status-HasStatus_example :
    (t : Db) × (set_status noon reseller 2 UserStatus.active full ≡ done 2 t)
    × HasStatus reseller 2 dormant UserStatus.active full t
unfolding find_child
set_status-HasStatus_example =
    set_status-HasStatus noon reseller 2 UserStatus.active full dormant refl

-- Before the reactivation the one seat is in use; after it, two are.
seats_before : (seat_summary noon reseller full).used ≡ 1
unfolding seat_summary count_seats_used count_where resolve_access find_live
seats_before = refl

seats_after :
    (seat_summary noon reseller (after (set_status noon reseller 2 UserStatus.active full))).used
    ≡ 2
unfolding seat_summary count_seats_used count_where set_status
seats_after = refl

abbrev newcomer : Payload
newcomer = record {
  username = 900;
  password = 5;
  phone = "02111111111";
  agency_name = some "Shahr";
  city = none;
  coordinator_name = none;
  coordinator_phone = none;
  brand_ids = some [];
  model_ids = none;
}

abbrev roomy : Db
roomy = record market { users = reseller ∷ [] }

abbrev opened_db : Db
unfolding create_child
opened_db = after (
    create_child noon reseller (some (period 30 1 admin)) 1005 "G-1001-01" newcomer
      (record { brand_ids = []; model_ids = [] }) roomy)

create_child-IsOpened_example : IsOpened noon reseller 1005 "G-1001-01" newcomer 100 roomy opened_db
unfolding create_child seat_summary count_seats_used count_where resolve_access find_live
    transaction
create_child-IsOpened_example =
    create_child-IsOpened noon reseller (some (period 30 1 admin)) 1005 "G-1001-01" newcomer
      (record { brand_ids = []; model_ids = [] }) roomy opened_db 100 refl
