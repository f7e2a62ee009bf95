-- ===== src/Havale/Ownership.antt =====
-- Who may renew, close and delete a listing, and what a renewal does
-- (backend/src/modules/havale/havale.service.js).
use havale_khodro.Prelude.{
  ◌≡◌, arith, ◌==◌, Option-cases, find_first, update_where, find_first-update_where, ℕ, refl, ap,
  inl, inr, Bool, true, false, Option, none, some, List, ◌∙◌,
}
use havale_khodro.Havale.Store.{find_by_id, update_listing, is_havale, find_by_id_found}
use havale_khodro.Havale.Lifecycle.{
  renew, mark_fulfilled, remove, require_own, renewed_listing, closing_date, given_or,
}
use havale_khodro.Schema.Entities.{User, Db, Env, Listing, Activity}
use havale_khodro.Activity.{find_user, record_activity-eq}
use havale_khodro.Exec.{thrown, not_found, havale_row, done, continue, pure}
use havale_khodro.Schema.Enums.{
  listing_suspended, ListingStatus, havale_renewed, havale_fulfilled, Target,
}

-- The listing exists, is not deleted and is the account's.
unfoldable pub owns : User → ℕ → Db → Bool
unfolding find_by_id
owns user id s = elim (find_by_id id s) [ none ↦ false | some row ↦ row.0.owner_id == user.id ]

-- Nobody but the owner renews, closes or deletes a listing, and a listing of another account is
-- refused with the error for one that does not exist.
pub renew-owns :
    (env : Env) (user : User) (id : ℕ) (delivery deposit : Option ℕ) (s : Db)
    → owns user id s ≡ false
    → (renew env user id delivery deposit s ≡ thrown (not_found havale_row) s)
      × (mark_fulfilled env user id s ≡ thrown (not_found havale_row) s)
      × (remove env user id s ≡ thrown (not_found havale_row) s)
unfolding owns renew mark_fulfilled remove require_own
renew-owns env user id delivery deposit s h = elim (Option-cases (find_by_id id s)) [
  | inl n ↦ (rw n refl, rw n refl, rw n refl)
  | inr (row, e) ↦
      let o : (row.0.owner_id == user.id) ≡ false = ground arith in
      (rw (e, o) refl, rw (e, o) refl, rw (e, o) refl)
]

-- A write that keeps a listing where it is found.
find_by_id-update_listing :
    (id : ℕ) (f : Listing → Listing) (s : Db) (l : Listing) (o : User)
    → ((x : Listing) → is_havale id (f x) ≡ is_havale id x)
    → (f l).owner_id ≡ l.owner_id
    → find_by_id id s ≡ some (l, o)
    → find_by_id id (update_listing id f s) ≡ some (f l, o)
unfolding find_by_id update_listing find_user
find_by_id-update_listing id f s l o q w h =
    let (e, i, u) = find_by_id_found id s (l, o) h in
    let k : find_first (is_havale id) (update_where (λ x. x.id == id) f s.listings) ≡ some (f l) =
      ground (arith, find_first-update_where (is_havale id) (λ x. x.id == id) f s.listings q) in
    ground arith

-- What the owner's renewal of a listing that is not suspended writes.
renew-eq :
    (env : Env) (user : User) (id : ℕ) (delivery deposit : Option ℕ) (s : Db) (l : Listing)
    (o : User)
    → find_by_id id s ≡ some (l, o)
    → (l.owner_id == user.id) ≡ true
    → listing_suspended l.status ≡ false
    → (rows : List Activity) × (renew env user id delivery deposit s
        ≡ done id (record (update_listing id (renewed_listing env delivery deposit l) s) {
          activity = rows;
        }))
unfolding renew require_own
renew-eq env user id delivery deposit s l o e w p =
    let base = update_listing id (renewed_listing env delivery deposit l) s in
    let (rows, q) = record_activity-eq env user.id havale_renewed Target.havale id base in
    (rows, rw (e, w, p) (ap (λ x. continue x (λ _. pure id)) q))

mark_fulfilled-eq :
    (env : Env) (user : User) (id : ℕ) (s : Db) (l : Listing) (o : User)
    → find_by_id id s ≡ some (l, o)
    → (l.owner_id == user.id) ≡ true
    → (rows : List Activity) × (mark_fulfilled env user id s
        ≡ done id
            (record (update_listing id (λ x. record x { status = ListingStatus.fulfilled }) s) {
              activity = rows;
            }))
unfolding mark_fulfilled require_own
mark_fulfilled-eq env user id s l o e w =
    let base = update_listing id (λ x. record x { status = ListingStatus.fulfilled }) s in
    let (rows, q) = record_activity-eq env user.id havale_fulfilled Target.havale id base in
    (rows, rw (e, w) (ap (λ x. continue x (λ _. pure id)) q))

-- The audit trail holds no listing.
find_by_id-activity :
    (id : ℕ) (s : Db) (rows : List Activity)
    → find_by_id id (record s { activity = rows }) ≡ find_by_id id s
unfolding find_by_id find_user
find_by_id-activity id s rows = refl

-- An owner who marks a listing as sold and then renews it succeeds both times, whatever the status
-- of the listing was, `SUSPENDED` included: the listing ends up active, and closes when the renewed
-- deposit window is over, at once if it never had one, or a week later if it is a request.
pub renew-mark_fulfilled :
    (env later : Env) (user : User) (id : ℕ) (delivery deposit : Option ℕ) (s : Db) (l : Listing)
    (o : User)
    → find_by_id id s ≡ some (l, o)
    → (l.owner_id == user.id) ≡ true
    → (t u : Db) × (m : Listing) × (mark_fulfilled env user id s ≡ done id t)
      × (renew later user id delivery deposit t ≡ done id u)
      × (find_by_id id u ≡ some (m, o))
      × (m.status ≡ ListingStatus.active)
      × (m.closes_at ≡ closing_date l.kind (given_or deposit l.deposit_days) later.now)
renew-mark_fulfilled env later user id delivery deposit s l o e w =
    let sold : Listing → Listing = λ x. record x { status = ListingStatus.fulfilled } in
    let (rows, p) = mark_fulfilled-eq env user id s l o e w in
    let closed = update_listing id sold s in
    let t = record closed { activity = rows } in
    let f : find_by_id id t ≡ some (sold l, o) =
      find_by_id-activity id closed rows
      ∙ find_by_id-update_listing id sold s l o (λ x. refl) refl e in
    let (logged, q) = renew-eq later user id delivery deposit t (sold l) o f w refl in
    let again = renewed_listing later delivery deposit (sold l) in
    let open_db = update_listing id again t in
    (
      t,
      record open_db { activity = logged },
      again (sold l),
      p,
      q,
      find_by_id-activity id open_db logged
          ∙ find_by_id-update_listing id again t (sold l) o (λ x. refl) refl f,
      refl,
      refl,
    )
