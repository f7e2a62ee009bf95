-- ===== src/Reveal/Allowance.antt =====
-- The allowance of backend/src/modules/listing/reveal.service.js is never overrun.
use havale_khodro.Prelude.{
  ℕ, count_where, ◌≤◌, ◌⊎◌, Option, ◌≡◌, String, ◌+◌, if◌then◌else◌, ◌==◌, false, arith,
  count_where-append, ◌∷◌, [], inl, inr, refl, List, some, All,
}
use havale_khodro.Reveal.{
  count_since, Request, record_reveal, handle, usage_for, RevealResult, revealed_since, reveal_row,
  serve,
}
use havale_khodro.Schema.Entities.{Db, Env, User}
use havale_khodro.Exec.{after, Outcome, thrown, done}
use havale_khodro.Access.{limit_reached, upto}
use havale_khodro.Reveal.Charging.{Free, Charged, reveal-thrown, reveal_cases, charged_db}
use havale_khodro.Activity.{record_activity-eq}
use havale_khodro.Schema.Enums.{contact_revealed}
use havale_khodro.Time.{start_of_tehran_day}

module _ (viewer since : ℕ) where
  -- The rows of one viewer since one moment, with one row more.
  count-row :
      (env : Env) (s : Db) (id user_id : ℕ) (ip phone code : Option String)
      → count_since viewer since (record_reveal env id user_id ip phone code s)
        ≤ count_since viewer since s + (if user_id == viewer then 1 else 0)
  unfolding count_since record_reveal count_where
  count-row env s id user_id ip phone code = ground (
    arith,
    count_where-append (revealed_since viewer since) s.reveals
        (reveal_row env s.next_id id user_id ip phone code ∷ []),
  )

  -- A request leaves the count as it is, or adds one to the count of its own viewer, whose limits
  -- were not reached.
  abbrev Grows : Request → Db → Db → Type 0
  Grows q s t =
      (count_since viewer since t ≤ count_since viewer since s)
      ⊎ ((q.user.id ≡ viewer)
          × (count_since viewer since t ≤ count_since viewer since s + 1)
          × (limit_reached (usage_for q.env q.user.id q.access s).daily_used q.access.daily_limit
              ≡ false)
          × (limit_reached (usage_for q.env q.user.id q.access s).monthly_used
                q.access.monthly_limit
              ≡ false))

  answer-Grows :
      (q : Request) (s t : Db)
      → (o : User)
      → Free q.env q.user q.access q.id q.ip q.target q.market s t
        ⊎ Charged q.env q.user q.access q.id q.ip q.target q.market o s t
      → Grows q s t
  unfolding count_since
  answer-Grows q s t o (inl (row, f, same)) = inl (rw same (omega arith))
  answer-Grows q s t o (inr (n, d, m, w)) =
      let (rows, p) =
        record_activity-eq q.env q.user.id contact_revealed q.target q.id
          (charged_db q.env q.user q.access q.id q.ip q.target q.market o s) in
      ground (arith, count-row q.env s q.id q.user.id q.ip o.coordinator_phone o.agency_code)

  handle-Grows : (q : Request) (s : Db) → Grows q s (after (handle q s))
  unfolding handle
  handle-Grows q s = by_outcome (handle q s) refl
    where
      by_outcome : (o : Outcome RevealResult) → handle q s ≡ o → Grows q s (after o)
      by_outcome (thrown e t) h = inl (
          rw (reveal-thrown q.env q.user q.access q.id q.ip q.target q.market s t e h)
            (omega arith))
      by_outcome (done r t) h =
          let (l, x, a, c) =
            reveal_cases q.env q.user q.access q.id q.ip q.target q.market s t r h in
          answer-Grows q s t x c

-- What the viewer's requests carry: limits and the moments since which they count.
abbrev pub Carries : ℕ → ℕ → ℕ → ℕ → ℕ → Request → Type 0
Carries viewer day n period m q =
    q.user.id ≡ viewer
    → (start_of_tehran_day q.env.offset_ms q.env.now ≡ day)
      × (q.access.daily_limit ≡ upto n)
      × (q.access.period_start ≡ some period)
      × (q.access.monthly_limit ≡ upto m)

handle-allowance :
    (viewer day n period m : ℕ) (q : Request) (s : Db)
    → Carries viewer day n period m q
    → count_since viewer day s ≤ n
    → count_since viewer period s ≤ m
    → (count_since viewer day (after (handle q s)) ≤ n)
      × (count_since viewer period (after (handle q s)) ≤ m)
unfolding usage_for
handle-allowance viewer day n period m q s c h k =
    (ground (arith, handle-Grows viewer day q s), ground (arith, handle-Grows viewer period q s))

-- However many reveal requests are served, by whomever and in whatever order: if the requests of
-- one viewer carry a daily limit `n` and a limit `m` for its period, and fall into one Tehran day
-- and one period, then its reveals of the day stay within `n` and those of the period within `m`.
pub serve_allowance :
    (viewer day n period m : ℕ) (s : Db) (requests : List Request)
    → All (Carries viewer day n period m) requests
    → count_since viewer day s ≤ n
    → count_since viewer period s ≤ m
    → (count_since viewer day (serve s requests) ≤ n)
      × (count_since viewer period (serve s requests) ≤ m)
unfolding serve
serve_allowance viewer day n period m s [] c h k = (h, k)
serve_allowance viewer day n period m s (q ∷ rest) c h k =
    let now = handle-allowance viewer day n period m q s c.0 h k in
    serve_allowance viewer day n period m (after (handle q s)) rest c.1 now.0 now.1
