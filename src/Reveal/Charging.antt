-- ===== src/Reveal/Charging.antt =====
-- What one call of `reveal` of backend/src/modules/listing/reveal.service.js does.
use havale_khodro.Prelude.{
  ℕ, String, true, false, Option, none, some, ◌≡◌, ◌⊎◌, inl, inr, refl, arith, List, Option-cases,
  find_first, find_first-append, find_first-update_where, find_first_holds, ==_refl, ◌==◌, ◌∷◌, [],
}
use havale_khodro.Schema.Enums.{Market, Target, account_active, contact_revealed}
use havale_khodro.Schema.Entities.{User, Listing, Reveal, Activity, Db, Env}
use havale_khodro.Exec.{AppError, done, thrown}
use havale_khodro.Access.{Access, limit_reached}
use havale_khodro.Activity.{record_activity, record_activity-eq, find_user}
use havale_khodro.Reveal.{
  RevealResult, reveal, find_reveal, record_reveal, find_listing, usage_for, to_reveal_result,
  contact_of, agency_of, is_listing, is_reveal_of, bump_reveal_count, reveal_row,
}

module _ (env : Env) (user : User) (access : Access) (id : ℕ) (ip : Option String) (target : Target)
    (market : Option Market) where
  -- A call that is refused, for whatever reason, leaves the database as it was.
  pub reveal-thrown :
      (s t : Db) (e : AppError) → reveal env user access id ip target market s ≡ thrown e t → t ≡ s
  unfolding reveal
  reveal-thrown s t e h = ground arith

  -- The write of a call that is charged.
  abbrev pub charged_db : User → Db → Db
  charged_db o s = record_reveal env id user.id ip o.coordinator_phone o.agency_code s

  abbrev pub Answered : Listing → User → RevealResult → Db → Db → Type 0
  Answered l o r s t =
      (find_listing id market s ≡ some (l, o))
      × ((l.owner_id == user.id) ≡ false)
      × (account_active o.status ≡ true)
      × (r.contact ≡ contact_of o)
      × (r.agency ≡ agency_of o)

  abbrev pub Charged : User → Db → Db → Type 0
  Charged o s t =
      (find_reveal id user.id s ≡ none)
      × (limit_reached (usage_for env user.id access s).daily_used access.daily_limit ≡ false)
      × (limit_reached (usage_for env user.id access s).monthly_used access.monthly_limit ≡ false)
      × (record_activity env user.id contact_revealed target id (charged_db o s) ≡ done tt t)

  abbrev pub Free : Db → Db → Type 0
  Free s t = (row : Reveal) × (find_reveal id user.id s ≡ some row) × (t ≡ s)

  -- A call that succeeds hands back the owner's contact, and is free or charged.
  pub reveal_cases :
      (s t : Db) (r : RevealResult)
      → reveal env user access id ip target market s ≡ done r t
      → (l : Listing) × (o : User) × Answered l o r s t × (Free s t ⊎ Charged o s t)
  unfolding reveal
  reveal_cases s t r h = elim (Option-cases (find_listing id market s)) [
    | inl e ↦ ground arith
    | inr ((l, o), e) ↦ (
      l,
      o,
      (e, ground arith, ground arith, ground arith, ground arith),
      elim (Option-cases (find_reveal id user.id s)) [
        | inl n ↦
            let (rows, p) =
              record_activity-eq env user.id contact_revealed target id (charged_db o s) in
            inr (n, ground arith, ground arith, ground arith)
        | inr (row, p) ↦ inl (row, p, ground arith)
      ],
    )
  ]

  -- What is open stays open: the contact is handed back, and nothing is written.
  reopen :
      (t : Db) (l : Listing) (o : User) (row : Reveal)
      → find_listing id market t ≡ some (l, o)
      → (l.owner_id == user.id) ≡ false
      → account_active o.status ≡ true
      → find_reveal id user.id t ≡ some row
      → reveal env user access id ip target market t
        ≡ done (to_reveal_result o (usage_for env user.id access t)) t
  unfolding reveal
  reopen t l o row e own live f = ground arith

module _ (env : Env) (id viewer_id : ℕ) (ip phone code : Option String) (s : Db)
    (rows : List Activity) where
  abbrev pub recorded : Db
  recorded = record (record_reveal env id viewer_id ip phone code s) { activity = rows }

  -- A listing that is found is still found, with its owner, after its counter has been moved.
  find_listing-recorded :
      (market : Option Market) (l : Listing) (o : User)
      → find_listing id market s ≡ some (l, o)
      → find_listing id market recorded ≡ some (bump_reveal_count l, o)
  unfolding find_listing record_reveal find_user
  find_listing-recorded market l o h = ground (
    arith,
    find_first-update_where (is_listing id market) (λ x. x.id == id) bump_reveal_count s.listings
        (λ x. refl),
    find_first_holds (is_listing id market) s.listings {x = l},
  )

  abbrev new_row : Reveal
  new_row = reveal_row env s.next_id id viewer_id ip phone code

  find_reveal-recorded :
      find_reveal id viewer_id s ≡ none → find_reveal id viewer_id recorded ≡ some new_row
  unfolding find_reveal record_reveal find_first
  find_reveal-recorded h =
      ground
        (arith, find_first-append (is_reveal_of id viewer_id) s.reveals (new_row ∷ []), ==_refl id)

-- After a call that succeeds, the listing is there with its owner, and the reveal is recorded.
abbrev pub IsOpen : ℕ → User → Option Market → User → Db → Type 0
IsOpen id user market o t =
    (l : Listing) × (row : Reveal) × (find_listing id market t ≡ some (l, o))
    × ((l.owner_id == user.id) ≡ false)
    × (find_reveal id user.id t ≡ some row)

module _ (env : Env) (user : User) (access : Access) (id : ℕ) (ip : Option String) (target : Target)
    (market : Option Market) where
  reveal-IsOpen :
      (s t : Db) (l : Listing) (o : User)
      → find_listing id market s ≡ some (l, o)
      → (l.owner_id == user.id) ≡ false
      → Free env user access id ip target market s t
        ⊎ Charged env user access id ip target market o s t
      → IsOpen id user market o t
  reveal-IsOpen s t l o e own (inl (row, f, same)) = rw same (l, row, e, own, f)
  reveal-IsOpen s t l o e own (inr (n, _, _, w)) =
      let (rows, p) =
        record_activity-eq env user.id contact_revealed target id
          (charged_db env user access id ip target market o s) in
      let q : t ≡ recorded env id user.id ip o.coordinator_phone o.agency_code s rows = cc in
      rw q (
        bump_reveal_count l,
        new_row env id user.id ip o.coordinator_phone o.agency_code s rows,
        find_listing-recorded env id user.id ip o.coordinator_phone o.agency_code s rows market l o
            e,
        own,
        find_reveal-recorded env id user.id ip o.coordinator_phone o.agency_code s rows n,
      )

-- An agency that has opened a contact can open it again, with any access and even when its allowance is
-- used up, on any later database in which the listing is found, is not its own and has an owner that
-- is active, and its reveal is still recorded: it is handed the contact and the agency of that owner,
-- and nothing is written. The database that the first call leaves is one, unless something else is
-- written, and there the contact and the agency are the same as before.
pub reveal_again :
    (env : Env) (user : User) (access : Access) (id : ℕ) (ip : Option String) (target : Target)
    (market : Option Market) (s t : Db) (r : RevealResult) (later : Env) (access' : Access)
    (ip' : Option String) (target' : Target) (u : Db) (owner : User)
    → reveal env user access id ip target market s ≡ done r t
    → IsOpen id user market owner u
    → account_active owner.status ≡ true
    → ((r' : RevealResult) × (reveal later user access' id ip' target' market u ≡ done r' u)
        × (r'.contact ≡ contact_of owner)
        × (r'.agency ≡ agency_of owner))
      × ((o : User) × IsOpen id user market o t
          × (r.contact ≡ contact_of o)
          × (r.agency ≡ agency_of o)
          × (account_active o.status ≡ true))
reveal_again env user access id ip target market s t r later access' ip' target' u owner h open_u
      live =
    let (l, o, a, c) = reveal_cases env user access id ip target market s t r h in
    let (l', row, e, own, f) = open_u in
    (
      (
        to_reveal_result owner (usage_for later user.id access' u),
        reopen later user access' id ip' target' market u l' owner row e own live f,
        refl,
        refl,
      ),
      (o, reveal-IsOpen env user access id ip target market s t l o a.0 a.1 c, a.3, a.4, a.2),
    )
