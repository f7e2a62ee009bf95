-- ===== src/Brands.antt =====
-- backend/src/modules/catalog/brandAccess.service.js: the brands and models that an account may
-- post under.
pub mod Ceiling
use havale_khodro.Prelude.{
  ◌≡◌, arith, ltb, ◌==◌, if◌then◌else◌, length, find_first, find_many, count_where, ℕ, ◌+◌, Bool,
  false, not, ◌&&◌, ◌||◌, Option, none, some, List, [], ◌∷◌, ◌++◌, map,
}
use havale_khodro.Exec.{
  ◌>>=◌, ◌>>◌, Exec, reads, writes, pure, require, bad_request, forbidden, unknown_brand,
  brand_not_granted, unknown_model, over_ceiling,
}
use havale_khodro.Network.{contains}
use havale_khodro.Schema.Entities.{Grant, Db, CarModel, CarBrand}

-- Two lists of identifiers: whole brands, and single models.
pub record Sets : Type 0 where
  pub brand_ids : List ℕ
  pub model_ids : List ℕ

-- `[...new Set(ids)]`: each once. The order is never looked at.
unfoldable pub unique : List ℕ → List ℕ
unfolding contains
unique [] = []
unique (x ∷ xs) = let rest = unique xs in if contains x xs then rest else x ∷ rest

abbrev pub targets_of : ℕ → List Grant → List ℕ
unfolding find_many
targets_of user_id rows = map (λ g. g.target_id) (find_many (λ g. g.user_id == user_id) rows)

-- `allowedSets`; the brand of each model is left out, since the callers read its identifier.
unfoldable pub allowed_sets : ℕ → Db → Sets
unfolding find_many
allowed_sets user_id s = record {
  brand_ids = targets_of user_id s.brand_access;
  model_ids = targets_of user_id s.model_access;
}

-- `some` of JavaScript's arrays.
unfoldable pub any : {A : Type 0} → (A → Bool) → List A → Bool
any p [] = false
any p (x ∷ xs) = p x || any p xs

unfoldable pub over_model : Sets → CarModel → Bool
unfolding contains
over_model ceiling m =
    not (contains m.brand_id ceiling.brand_ids) && not (contains m.id ceiling.model_ids)

-- Beyond what the ceiling holds.
unfoldable pub over : Option Sets → List ℕ → List CarModel → Bool
unfolding any contains
over none brands models = false
over (some ceiling) brands models =
    any (λ b. not (contains b ceiling.brand_ids)) brands || any (over_model ceiling) models

abbrev pub real_brands : List ℕ → Db → List CarBrand
unfolding find_many contains
real_brands ids s = find_many (λ b. contains b.id ids && b.is_active) s.car_brands

abbrev pub real_models : List ℕ → Db → List CarModel
unfolding find_many contains
real_models ids s = find_many (λ m. contains m.id ids && m.is_active) s.car_models

-- The models that no granted brand covers.
abbrev pub model_rows : List ℕ → List CarModel → List CarModel
unfolding find_many contains
model_rows brands models = find_many (λ m. not (contains m.brand_id brands)) models

unfoldable pub validate_grants : Sets → Option Sets → Exec Sets
unfolding unique over
validate_grants wanted limit = do
  brands ← reads (real_brands (unique wanted.brand_ids))
  require (length brands == length (unique wanted.brand_ids)) (bad_request unknown_brand)
  models ← reads (real_models (unique wanted.model_ids))
  require (length models == length (unique wanted.model_ids)) (bad_request unknown_model)
  require (not (over limit (unique wanted.brand_ids) (model_rows (unique wanted.brand_ids) models)))
      (forbidden over_ceiling)
  pure record {
    brand_ids = unique wanted.brand_ids;
    model_ids = map (λ m. m.id) (model_rows (unique wanted.brand_ids) models);
  }

abbrev pub without : ℕ → List Grant → List Grant
unfolding find_many
without user_id rows = find_many (λ g. not (g.user_id == user_id)) rows

abbrev pub granted_to : ℕ → List ℕ → List Grant
granted_to user_id ids = map (λ i. record { user_id = user_id; target_id = i }) ids

-- One transaction: the old rows go, the new ones come.
unfoldable pub replace_grants : ℕ → Sets → Db → Db
unfolding find_many
replace_grants user_id valid s = record s {
  brand_access = without user_id s.brand_access ++ granted_to user_id valid.brand_ids;
  model_access = without user_id s.model_access ++ granted_to user_id valid.model_ids;
}

unfoldable pub set_brands : ℕ → Sets → Option Sets → Exec ℕ
unfolding validate_grants replace_grants
set_brands user_id wanted limit = do
  valid ← validate_grants wanted limit
  writes (replace_grants user_id valid)
  pure (length valid.brand_ids + length valid.model_ids)

abbrev pub is_grant : ℕ → ℕ → Grant → Bool
is_grant user_id target_id g = g.user_id == user_id && g.target_id == target_id

unfoldable pub holds : ℕ → CarModel → Db → Bool
unfolding count_where
holds user_id m s =
    ltb 0 (count_where (is_grant user_id m.brand_id) s.brand_access)
    || ltb 0 (count_where (is_grant user_id m.id) s.model_access)

-- An unknown model is reported by the catalogue check.
unfoldable pub check_model : ℕ → Option CarModel → Db → Exec (Unit {0})
unfolding count_where
check_model user_id none s = pure tt
check_model user_id (some m) s = require (holds user_id m s) (forbidden brand_not_granted)

unfoldable pub assert_may_post : ℕ → ℕ → Exec (Unit {0})
unfolding find_first check_model
assert_may_post user_id model_id s =
    check_model user_id (find_first (λ m. m.id == model_id) s.car_models) s s
