-- ===== src/Examples/SignIn.antt =====
-- Guesses at the password of the child account, and a second sign-in of it.
use havale_khodro.SignIn.Histories.{
  Request, serve, logs_in, logs_out, resolves, changes, serve-IsSingle, resolve_session-log_in,
}
use havale_khodro.Prelude.{
  ℕ, ◌==◌, find_first, count_where, false, none, some, List, [], ◌∷◌, ◌≡◌, refl, arith,
}
use havale_khodro.SignIn.{Keyring, find_by_username, log_in, session_row, find_live_session}
use havale_khodro.SignIn.Lockout.{Attempt, attempt}
use havale_khodro.SignIn.Guesses.{comparisons, compared}
use havale_khodro.Schema.Entities.{Db, Env, User, Session}
use havale_khodro.SignIn.Single.{IsSingle}
use havale_khodro.Examples.Fixtures.{noon, market, child, independent}
use havale_khodro.Activity.{find_user}
use havale_khodro.Exec.{after, thrown, unauthorized, session_kicked}
use havale_khodro.SignIn.Tokens.{resolve_session}

-- A password opens the account whose hash is the password itself.
abbrev keys : Keyring
keys = record {
  compare_hash = λ p h. p == h;
  hash = λ p. p;
  hash_token = λ t. t;
  ttl_ms = 86400000;
}

-- Nothing opens.
abbrev closed_keys : Keyring
closed_keys = record keys { compare_hash = λ p h. false }

abbrev guess : ℕ → ℕ → Attempt
guess username ip = record {
  env = noon;
  token = 1;
  username = username;
  password = 5;
  ip = some ip;
}

abbrev guesses : List Attempt
guesses =
    guess 102 9
    ∷ guess 102 9
    ∷ guess 103 9
    ∷ guess 102 8
    ∷ guess 102 9
    ∷ guess 102 9
    ∷ guess 102 9
    ∷ []

-- Six guesses for the account are made, five of them from one address.
compared_guesses :
    (comparisons closed_keys 102 (some 9) guesses market ≡ 5)
    × (comparisons closed_keys 102 none guesses market ≡ 6)
unfolding comparisons compared attempt log_in
compared_guesses = (refl, refl)

abbrev agencies : Db
agencies = record market { users = child ∷ independent ∷ [] }

abbrev day : List (Env × Request)
day =
    (noon, logs_in 71 102 1002 none)
    ∷ (noon, resolves (some 71))
    ∷ (noon, logs_in 72 102 1002 none)
    ∷ (noon, changes 2 1002 1009 (some 72))
    ∷ (noon, logs_out (some 72))
    ∷ []

serve-IsSingle_example : IsSingle 2 (serve keys day agencies)
unfolding count_where
serve-IsSingle_example =
    serve-IsSingle 2 keys day agencies
      (record { agency = (refl, (refl, tt)); one = omega arith; fresh = tt })

abbrev back : User
back = record child { last_login_at = some noon.now }

abbrev first_session : Session
first_session = session_row noon keys 2 71 market

abbrev signed_in_once : Db
signed_in_once = record agencies {
  users = back ∷ independent ∷ [];
  sessions = first_session ∷ [];
  next_id = 101;
}

abbrev signed_in_twice : Db
unfolding log_in
signed_in_twice = after (log_in noon keys 72 102 1002 none signed_in_once)

resolve_session-log_in_example :
    resolve_session noon keys (some 71) signed_in_twice
    ≡ thrown (unauthorized session_kicked) signed_in_twice
unfolding find_by_username find_first find_user find_live_session log_in count_where
resolve_session-log_in_example =
    resolve_session-log_in noon noon keys 72 71 102 1002 none back first_session signed_in_once
      signed_in_twice (72, back) refl refl refl refl refl (omega arith, tt) refl refl
