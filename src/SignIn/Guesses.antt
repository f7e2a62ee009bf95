-- ===== src/SignIn/Guesses.antt =====
-- How many guesses the lockout of backend/src/modules/auth/auth.service.js lets be compared with a
-- password: each leaves a row, and SignIn.Lockout bounds the rows.
use havale_khodro.Prelude.{
  ℕ, ◌+◌, false, Option, none, some, List, [], ◌∷◌, ◌==◌, if◌then◌else◌, is_id, Bool, true, ◌&&◌,
}
use havale_khodro.Schema.Entities.{Db}
use havale_khodro.SignIn.{log_in, Keyring}
use havale_khodro.Exec.{Outcome, done, thrown, unauthorized, Message}
use havale_khodro.SignIn.Lockout.{Attempt, attempt}

-- The answer after a password that was compared and was wrong; an attempt that is locked out has another.
abbrev pub tells_wrong {ℓ} : {A : Type ℓ} → Outcome A → Bool
tells_wrong (done x t) = false
tells_wrong (thrown (unauthorized Message.invalid_credentials) t) = true
tells_wrong (thrown e t) = false

unfoldable pub compared : Keyring → Attempt → Db → Bool
unfolding log_in
compared keys a s = tells_wrong (log_in a.env keys a.token a.username a.password a.ip s)

-- The attempts for the user name, of all or of one address.
abbrev pub is_for : ℕ → Option ℕ → Attempt → Bool
is_for username none a = a.username == username
is_for username (some ip) a = a.username == username && is_id a.ip ip

-- How many of the attempts for the user name have their password compared.
unfoldable pub comparisons : Keyring → ℕ → Option ℕ → List Attempt → Db → ℕ
unfolding compared attempt
comparisons keys username ip [] s = 0
comparisons keys username ip (a ∷ rest) s =
    (if is_for username ip a && compared keys a s then 1 else 0)
    + comparisons keys username ip rest (attempt keys a s)
