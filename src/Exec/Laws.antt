-- ===== src/Exec/Laws.antt =====
-- Transactions are all or nothing.
use havale_khodro.Prelude.{◌≡◌, arith, Bool, Option, true, false, some, none, refl}
use havale_khodro.Schema.Entities.{Db}
use havale_khodro.Exec.Defs.{AppError, thrown, Exec, transaction}
use havale_khodro.Exec.{after, ◌>>=◌, Outcome, continue, done, ◌>>◌, require, found, rolled_back}

-- A transaction that throws leaves the database as it found it.
pub transaction-thrown {ℓ} :
    {A : Type ℓ} (m : Exec A) (s t : Db) (e : AppError) → transaction m s ≡ thrown e t → t ≡ s
unfolding transaction
transaction-thrown m s t e h = ground arith

-- Whatever the action does and returns, what holds before it holds after it.
abbrev pub Keeps {ℓ κ} : {A : Type ℓ} → (Db → Type κ) → Exec A → Type κ
Keeps P m = (s : Db) → P s → P (after (m s))

pub Keeps-bind {ℓ κ ι} :
    {A : Type ℓ} {B : Type κ} (P : Db → Type ι) (m : Exec A) (f : A → Exec B)
    → Keeps P m
    → ((a : A) → Keeps P (f a))
    → Keeps P (m >>= f)
Keeps-bind P m f h g s p = by_outcome (m s) (h s p)
  where
    by_outcome : (o : Outcome _) → P (after o) → P (after (continue o f))
    by_outcome (done a t) q = g a t q
    by_outcome (thrown e t) q = q

pub Keeps-then {ℓ κ} :
    {A : Type ℓ} (P : Db → Type κ) (m : Exec (Unit {0})) (n : Exec A)
    → Keeps P m
    → Keeps P n
    → Keeps P (m >> n)
Keeps-then P m n h g = Keeps-bind P m (λ _. n) h (λ _. g)

-- What comes after a guard may rely on it.
pub require-after {ℓ κ} :
    {A : Type ℓ} (P : Db → Type κ) (b : Bool) (e : AppError) (m : Exec A) (s : Db)
    → P s
    → (b ≡ true → P (after (m s)))
    → P (after ((require b e >> m) s))
require-after P true e m s p h = h refl
require-after P false e m s p h = p

-- What comes after a look-up may rely on what was found.
pub found-after {ℓ κ ι} :
    {A : Type ℓ} {B : Type κ} (P : Db → Type ι) (o : Option A) (e : AppError) (f : A → Exec B)
    (s : Db)
    → P s
    → ((a : A) → o ≡ some a → P (after (f a s)))
    → P (after ((found o e >>= f) s))
found-after P none e f s p h = p
found-after P (some a) e f s p h = h a refl

pub Keeps-transaction {ℓ κ} :
    {A : Type ℓ} (P : Db → Type κ) (m : Exec A) → Keeps P m → Keeps P (transaction m)
unfolding transaction
Keeps-transaction {A = A} P m h s p = by_outcome (m s) (h s p)
  where
    by_outcome : (o : Outcome A) → P (after o) → P (after (rolled_back s o))
    by_outcome (done a t) q = q
    by_outcome (thrown e t) q = p

-- An action that succeeded has passed its guard, found its row, committed its transaction.
pub require-done {ℓ} :
    {A : Type ℓ} (b : Bool) (e : AppError) (m : Exec A) (s t : Db) (a : A)
    → (require b e >> m) s ≡ done a t
    → (b ≡ true) × (m s ≡ done a t)
require-done true e m s t a h = (refl, h)
require-done false e m s t a h = ground arith

pub found-done {ℓ κ} :
    {A : Type ℓ} {B : Type κ} (o : Option A) (e : AppError) (f : A → Exec B) (s t : Db) (b : B)
    → (found o e >>= f) s ≡ done b t
    → (a : A) × (o ≡ some a) × (f a s ≡ done b t)
found-done none e f s t b h = ground arith
found-done (some a) e f s t b h = (a, refl, h)

pub transaction-done {ℓ κ} :
    {A : Type ℓ} {B : Type κ} (m : Exec A) (f : A → Exec B) (s t : Db) (b : B)
    → (transaction m >>= f) s ≡ done b t
    → (a : A) × (u : Db) × (m s ≡ done a u) × (f a u ≡ done b t)
unfolding transaction
transaction-done {A = A} {B = B} m f s t b h = by_outcome (m s) h
  where
    by_outcome :
        (o : Outcome A)
        → continue (rolled_back s o) f ≡ done b t
        → (a : A) × (u : Db) × (o ≡ done a u) × (f a u ≡ done b t)
    by_outcome (done a u) q = (a, u, refl, q)
    by_outcome (thrown e u) q = ground arith

-- What holds after the first action, and is kept by the second, holds after both.
pub then-after {ℓ κ} :
    {A : Type ℓ} (P : Db → Type κ) (m : Exec (Unit {0})) (n : Exec A) (s : Db)
    → P (after (m s))
    → Keeps P n
    → P (after ((m >> n) s))
then-after {A = A} P m n s p k = by_outcome (m s) p
  where
    by_outcome : (o : Outcome (Unit {0})) → P (after o) → P (after (continue o (λ _. n)))
    by_outcome (done a t) q = k t q
    by_outcome (thrown e t) q = q

pub bind-done {ℓ κ} :
    {A : Type ℓ} {B : Type κ} (m : Exec A) (f : A → Exec B) (s t : Db) (b : B)
    → (m >>= f) s ≡ done b t
    → (a : A) × (u : Db) × (m s ≡ done a u) × (f a u ≡ done b t)
bind-done {A = A} {B = B} m f s t b h = by_outcome (m s) h
  where
    by_outcome :
        (o : Outcome A)
        → continue o f ≡ done b t
        → (a : A) × (u : Db) × (o ≡ done a u) × (f a u ≡ done b t)
    by_outcome (done a u) q = (a, u, refl, q)
    by_outcome (thrown e u) q = ground arith
