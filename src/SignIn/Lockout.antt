-- ===== src/SignIn/Lockout.antt =====
-- How many failed sign-ins the lockout of backend/src/modules/auth/auth.service.js lets be recorded.
use havale_khodro.Prelude.{
  ℕ, Bool-cases, Option-cases, ◌+◌, ◌≤◌, ◌≡◌, ◌⊎◌, inl, inr, false, Option, none, some, List, [],
  ◌∷◌, arith, ◌==◌, count_where, All, count_where-append, ◌<◌, sym, if◌then◌else◌, is_id,
}
use havale_khodro.Schema.Entities.{Env, Db, LoginFailure, User}
use havale_khodro.SignIn.{
  log_in, Keyring, failures_since, locked_out_now, record_failure, find_by_username,
  lockout_window_ms, count_recent_failures, refuse_login, counts, later_of, lockout_threshold,
  failed_as, lockout_threshold_anywhere,
}
use havale_khodro.Security.Threats.{login_failed_threat, count_brute_force, count_spray}
use havale_khodro.Roles.{is_hidden}
use havale_khodro.Exec.{after}
use havale_khodro.Security.Events.{record_event, maybe_alert, upsert_event}

-- An attempt to sign in: the moment, the token that a success would give, the user name, the password
-- and the address.
pub record Attempt : Type 0 where
  pub env : Env
  pub token : ℕ
  pub username : ℕ
  pub password : ℕ
  pub ip : Option ℕ

unfoldable pub attempt : Keyring → Attempt → Db → Db
unfolding log_in
attempt keys a s = after (log_in a.env keys a.token a.username a.password a.ip s)

unfoldable pub attempts : Keyring → List Attempt → Db → Db
unfolding attempt
attempts keys [] s = s
attempts keys (a ∷ rest) s = attempts keys rest (attempt keys a s)

-- A wrong guess within a window that starts at `w`.
abbrev pub IsGuess : Keyring → ℕ → Attempt → Type 0
IsGuess keys w a =
    (w ≤ a.env.now)
    × (a.env.now ≤ w + lockout_window_ms)
    × ((password_hash : ℕ) → keys.compare_hash a.password password_hash ≡ false)

-- The account of the user name, if there is one, has not signed in since `w`.
abbrev IsAway : ℕ → ℕ → Db → Type 0
IsAway w username s =
    (u : User) → find_by_username username s ≡ some u → later_of u.last_login_at w ≡ w

pub record IsLimited (w username ip : ℕ) (s : Db) : Type 0 where
  pub away : IsAway w username s
  pub here : count_recent_failures username w (some ip) s ≤ lockout_threshold
  pub anywhere : count_recent_failures username w none s ≤ lockout_threshold_anywhere

-- A wrong guess is refused by the lockout, or is recorded.
attempt_cases :
    (keys : Keyring) (a : Attempt) (s : Db)
    → ((password_hash : ℕ) → keys.compare_hash a.password password_hash ≡ false)
    → (attempt keys a s ≡ s)
      ⊎ ((locked_out_now a.env a.username a.ip s ≡ false)
          × (attempt keys a s
              ≡ login_failed_threat a.env a.username a.ip
                  (record_failure a.env (find_by_username a.username s) a.username a.ip s)))
unfolding attempt log_in refuse_login
attempt_cases keys a s wrong = elim (Bool-cases (locked_out_now a.env a.username a.ip s)) [
  | inl e ↦ inl (ground arith)
  | inr e ↦ elim (Option-cases (find_by_username a.username s)) [
    | inl f ↦ inr (e, ground arith)
    | inr (u, f) ↦ inr (e, ground (arith, wrong u.password_hash))
  ]
]

-- Counting for the detector touches none of what the sign-in reads.
pub threat_apart :
    (env : Env) (username : ℕ) (ip : Option ℕ) (s : Db)
    → ((login_failed_threat env username ip s).login_failures ≡ s.login_failures)
      × ((login_failed_threat env username ip s).users ≡ s.users)
      × ((login_failed_threat env username ip s).sessions ≡ s.sessions)
      × ((login_failed_threat env username ip s).next_id ≡ s.next_id)
unfolding login_failed_threat count_brute_force count_spray record_event maybe_alert upsert_event
threat_apart env username ip s = ground arith

counts_since :
    (username since w : ℕ) (ip : Option ℕ) (fs : List LoginFailure)
    → since ≤ w
    → count_where (counts username w ip) fs ≤ count_where (counts username since ip) fs
unfolding count_where
counts_since username since w ip [] h = omega arith
counts_since username since w ip (f ∷ fs) h = ground (arith, counts_since username since w ip fs h)

-- The lockout looks at least as far back as the window does.
since_le :
    (env : Env) (w username : ℕ) (s : Db)
    → env.now ≤ w + lockout_window_ms
    → IsAway w username s
    → failures_since env (find_by_username username s) ≤ w
unfolding failures_since
since_le env w username s h away = elim (Option-cases (find_by_username username s)) [
  | inl e ↦ ground arith
  | inr (u, e) ↦ elim (Option-cases u.last_login_at) [
    | inl f ↦ ground arith
    | inr (t, f) ↦ ground (arith, away u e)
  ]
]

-- A guess that is tested leaves room under both thresholds.
room :
    (env : Env) (w username : ℕ) (ip : Option ℕ) (s : Db)
    → env.now ≤ w + lockout_window_ms
    → IsAway w username s
    → locked_out_now env username ip s ≡ false
    → (count_recent_failures username w ip s < lockout_threshold)
      × (count_recent_failures username w none s < lockout_threshold_anywhere)
unfolding locked_out_now count_recent_failures
room env w username ip s h away passed =
    let since = failures_since env (find_by_username username s) in
    let le = since_le env w username s h away in
    ground (
      arith,
      counts_since username since w ip s.login_failures le,
      counts_since username since w none s.login_failures le,
    )

unfoldable pub failure_row : Env → Option User → ℕ → Option ℕ → LoginFailure
unfolding is_hidden
failure_row env user username ip = record {
  user_id = failed_as user;
  summary = username;
  ip = ip;
  created_at = env.now;
}

-- A failure from the address itself was let through under the threshold of the address.
one_more :
    (w username ip : ℕ) (from : Option ℕ) (fs : List LoginFailure)
    → count_where (counts username w from) fs < lockout_threshold
    → count_where (counts username w (some ip)) fs ≤ lockout_threshold
    → count_where (counts username w (some ip)) fs + (if is_id from ip then 1 else 0)
      ≤ lockout_threshold
one_more w username ip none fs h l = ground arith
one_more w username ip (some k) fs h l = elim (Bool-cases (k == ip)) [
  | inl q ↦
      let i : k ≡ ip = ground arith in
      let g : count_where (counts username w (some ip)) fs < lockout_threshold = rw (sym i) h in
      ground arith
  | inr q ↦ ground arith
]

failed-IsLimited :
    (env : Env) (user : Option User) (w username ip tried : ℕ) (from : Option ℕ) (s : Db)
    → env.now ≤ w + lockout_window_ms
    → IsLimited w username ip s
    → locked_out_now env tried from s ≡ false
    → IsLimited w username ip (record_failure env user tried from s)
unfolding record_failure find_by_username count_recent_failures count_where failure_row
failed-IsLimited env user w username ip tried from s h l passed =
    let row = failure_row env user tried from in
    let here = count_where-append (counts username w (some ip)) s.login_failures (row ∷ []) in
    let anywhere = count_where-append (counts username w none) s.login_failures (row ∷ []) in
    elim (Bool-cases (tried == username)) [
      | inl q ↦
          let i : tried ≡ username = ground arith in
          let p : locked_out_now env username from s ≡ false = rw (sym i) passed in
          let (a, b) = room env w username from s h l.away p in
          record {
            away = l.away;
            here =
                ground (arith, l.here, here, one_more w username ip from s.login_failures a l.here);
            anywhere = ground (arith, b, anywhere);
          }
      | inr q ↦ record {
        away = l.away;
        here = ground (arith, here, l.here);
        anywhere = ground (arith, anywhere, l.anywhere);
      }
    ]

attempt-IsLimited :
    (keys : Keyring) (w username ip : ℕ) (a : Attempt) (s : Db)
    → IsGuess keys w a
    → IsLimited w username ip s
    → IsLimited w username ip (attempt keys a s)
unfolding find_by_username count_recent_failures
attempt-IsLimited keys w username ip a s g l = elim (attempt_cases keys a s g.2) [
  | inl e ↦ rw e l
  | inr (passed, e) ↦
      let f =
        failed-IsLimited a.env (find_by_username a.username s) w username ip a.username a.ip s g.1 l
          passed in
      let (same_failures, same_users, _, _) =
        threat_apart a.env a.username a.ip
          (record_failure a.env (find_by_username a.username s) a.username a.ip s) in
      rw e (record {
        away = rw same_users f.away;
        here = rw same_failures f.here;
        anywhere = rw same_failures f.anywhere;
      })
]

pub attempts-IsLimited :
    (keys : Keyring) (w username ip : ℕ) (guesses : List Attempt) (s : Db)
    → All (IsGuess keys w) guesses
    → IsLimited w username ip s
    → IsLimited w username ip (attempts keys guesses s)
unfolding attempts
attempts-IsLimited keys w username ip [] s g l = l
attempts-IsLimited keys w username ip (a ∷ rest) s g l =
    attempts-IsLimited keys w username ip rest (attempt keys a s) g.1
      (attempt-IsLimited keys w username ip a s g.0 l)
