-- ===== src/Reveal.antt =====
-- backend/src/modules/listing/reveal.service.js and reveal.dto.js: showing a contact, and what it
-- costs. The lock of backend/src/utils/serialize.js makes the requests of one viewer follow one
-- another, so a request is one action on the database.
pub mod Charging
pub mod Allowance
pub mod Ledger
use havale_khodro.Prelude.{
  ℕ, suc, ◌+◌, String, Bool, true, false, Option, none, some, List, [], ◌∷◌, ◌++◌, ◌==◌, leb, ◌&&◌,
  not, present, if◌then◌else◌, find_first, count_where, update_where,
}
use havale_khodro.Schema.Enums.{Market, Target, same_market, account_active, contact_revealed}
use havale_khodro.Schema.Entities.{User, Listing, Reveal, Db, Env}
use havale_khodro.Exec.{
  Exec, pure, reads, writes, found, require, transaction, ◌>>=◌, ◌>>◌, not_found, bad_request,
  reveal_limit_reached, gone, own_contact, owner_inactive, daily_limit, monthly_limit, after,
}
use havale_khodro.Time.{start_of_tehran_day}
use havale_khodro.Access.{Access, Limit, limit_reached}
use havale_khodro.Activity.{find_user, record_activity}

pub record Usage : Type 0 where
  pub daily_used : ℕ
  pub daily_limit : Limit
  pub monthly_used : ℕ
  pub monthly_limit : Limit

pub record Contact : Type 0 where
  pub coordinator_name : Option String
  pub coordinator_phone : Option String
  pub phone : String

pub record Agency : Type 0 where
  pub code : Option String
  pub name : Option String
  pub city : Option String

pub record RevealResult : Type 0 where
  pub contact : Contact
  pub agency : Agency
  pub usage : Usage

abbrev pub contact_of : User → Contact
contact_of o = record {
  coordinator_name = o.coordinator_name;
  coordinator_phone = o.coordinator_phone;
  phone = o.phone;
}

abbrev pub agency_of : User → Agency
agency_of o = record { code = o.agency_code; name = o.agency_name; city = o.city }

abbrev pub to_reveal_result : User → Usage → RevealResult
to_reveal_result o usage = record { contact = contact_of o; agency = agency_of o; usage = usage }

-- `...(market ? { market } : {})`
abbrev pub in_market : Option Market → Market → Bool
in_market none m = true
in_market (some n) m = same_market m n

-- The listing with its owner, whom the foreign key provides.
abbrev pub with_owner : Db → Option Listing → Option (Listing × User)
with_owner s none = none
with_owner s (some l) = elim (find_user l.owner_id s) [ none ↦ none | some o ↦ some (l, o) ]

abbrev pub is_listing : ℕ → Option Market → Listing → Bool
is_listing id market l = l.id == id && not (present l.deleted_at) && in_market market l.market

unfoldable pub find_listing : ℕ → Option Market → Db → Option (Listing × User)
find_listing id market s = with_owner s (find_first (is_listing id market) s.listings)

-- The unique key of a reveal.
abbrev pub is_reveal_of : ℕ → ℕ → Reveal → Bool
is_reveal_of listing_id viewer_id r = r.listing_id == listing_id && r.viewer_id == viewer_id

unfoldable pub find_reveal : ℕ → ℕ → Db → Option Reveal
find_reveal listing_id viewer_id s = find_first (is_reveal_of listing_id viewer_id) s.reveals

abbrev pub revealed_since : ℕ → ℕ → Reveal → Bool
revealed_since viewer_id since r = r.viewer_id == viewer_id && leb since r.created_at

unfoldable pub count_since : ℕ → ℕ → Db → ℕ
count_since viewer_id since s = count_where (revealed_since viewer_id since) s.reveals

abbrev pub reveal_row : Env → ℕ → ℕ → ℕ → Option String → Option String → Option String → Reveal
reveal_row env id listing_id viewer_id ip phone_shown agency_code_shown = record {
  id = id;
  listing_id = listing_id;
  viewer_id = viewer_id;
  ip = ip;
  phone_shown = phone_shown;
  agency_code_shown = agency_code_shown;
  created_at = env.now;
}

abbrev pub bump_reveal_count : Listing → Listing
bump_reveal_count l = record l { reveal_count = l.reveal_count + 1 }

-- The row, and the owner's visible counter, in one write.
unfoldable pub record_reveal : Env → ℕ → ℕ → Option String → Option String → Option String → Db → Db
record_reveal env listing_id viewer_id ip phone_shown agency_code_shown s = record s {
  reveals =
      s.reveals
      ++ reveal_row env s.next_id listing_id viewer_id ip phone_shown agency_code_shown ∷ [];
  listings = update_where (λ l. l.id == listing_id) bump_reveal_count s.listings;
  next_id = s.next_id + 1;
}

used_in_period : ℕ → Option ℕ → Db → ℕ
unfolding count_since
used_in_period viewer_id none s = 0
used_in_period viewer_id (some start) s = count_since viewer_id start s

unfoldable pub usage_for : Env → ℕ → Access → Db → Usage
unfolding count_since used_in_period
usage_for env user_id access s = record {
  daily_used = count_since user_id (start_of_tehran_day env.offset_ms env.now) s;
  daily_limit = access.daily_limit;
  monthly_used = used_in_period user_id access.period_start s;
  monthly_limit = access.monthly_limit;
}

-- One view charged: count, compare, write.
charge : Env → User → Access → ℕ → Option String → User → Exec (Usage × Bool)
unfolding usage_for record_reveal
charge env user access id ip owner = do
  used ← reads (usage_for env user.id access)
  require (not (limit_reached used.daily_used used.daily_limit)) (reveal_limit_reached daily_limit)
  require (not (limit_reached used.monthly_used used.monthly_limit))
      (reveal_limit_reached monthly_limit)
  writes (record_reveal env id user.id ip owner.coordinator_phone owner.agency_code)
  pure
      (record used { daily_used = used.daily_used + 1; monthly_used = used.monthly_used + 1 }, true)

-- What is already open is handed back uncharged.
spend : Env → User → Access → ℕ → Option String → User → Option Reveal → Exec (Usage × Bool)
unfolding charge usage_for
spend env user access id ip owner (some r) = do
  usage ← reads (usage_for env user.id access)
  pure (usage, false)
spend env user access id ip owner none = charge env user access id ip owner

log_charge : Bool → Env → ℕ → Target → ℕ → Exec (Unit {0})
unfolding record_activity
log_charge true env user_id target_type id =
    record_activity env user_id contact_revealed target_type id
log_charge false env user_id target_type id = pure tt

unfoldable pub reveal :
    Env → User → Access → ℕ → Option String → Target → Option Market → Exec RevealResult
unfolding find_listing find_reveal spend log_charge transaction
reveal env user access id ip target_type market = do
  row ← reads (find_listing id market)
  listing ← found row (not_found gone)
  require (not (listing.0.owner_id == user.id)) (bad_request own_contact)
  require (account_active listing.1.status) (not_found owner_inactive)
  spent ←
      transaction (do
        existing ← reads (find_reveal id user.id)
        spend env user access id ip listing.1 existing)
  log_charge spent.1 env user.id target_type id
  pure (to_reveal_result listing.1 spent.0)

-- A request to the reveal route, and a sequence of them as the locks let them through.
pub record Request : Type 0 where
  pub env : Env
  pub user : User
  pub access : Access
  pub id : ℕ
  pub ip : Option String
  pub target : Target
  pub market : Option Market

unfoldable pub handle : Request → Exec RevealResult
handle q = reveal q.env q.user q.access q.id q.ip q.target q.market

unfoldable pub serve : Db → List Request → Db
serve s [] = s
serve s (q ∷ rest) = serve (after (handle q s)) rest
