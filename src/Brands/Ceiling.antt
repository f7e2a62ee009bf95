-- ===== src/Brands/Ceiling.antt =====
-- A sub-agency posts under nothing that its parent does not hold
-- (backend/src/modules/catalog/brandAccess.service.js).
use havale_khodro.Prelude.{
  ◌≡◌, arith, ltb, ◌==◌, Bool-cases, find_many, count_where, All, ℕ, refl, ap, ◌≢◌, inl, inr, Bool,
  true, false, not, List, [], ◌∷◌, map, find_first, some, length, count_where-append, ◌||◌,
  Option-cases, find_first_holds, sym, ◌∙◌, ◌&&◌,
}
use havale_khodro.Schema.Entities.{Grant, CarModel, Db}
use havale_khodro.Network.{contains}
use havale_khodro.Brands.{
  is_grant, any, Sets, without, granted_to, targets_of, over_model, set_brands, validate_grants,
  over, replace_grants, model_rows, unique, holds, allowed_sets, real_models, real_brands,
  bad_request, forbidden, assert_may_post, check_model,
}
use havale_khodro.Exec.{
  done, unknown_brand, unknown_model, over_ceiling, succeeded, AppError, require,
}
use havale_khodro.Exec.Laws.{require-done, bind-done}

-- The rows of an account that are written anew.
count-without : (u i : ℕ) (rows : List Grant) → count_where (is_grant u i) (without u rows) ≡ 0
unfolding count_where find_many
count-without u i [] = refl
count-without u i (g ∷ rows) = ground (arith, count-without u i rows)

count-granted_to :
    (u i : ℕ) (ids : List ℕ)
    → ltb 0 (count_where (is_grant u i) (granted_to u ids)) ≡ contains i ids
unfolding count_where contains
count-granted_to u i [] = refl
count-granted_to u i (x ∷ ids) = ground (arith, count-granted_to u i ids)

-- The rows of any other account stay.
count-without_ne :
    (u v i : ℕ) (rows : List Grant)
    → u ≢ v
    → count_where (is_grant v i) (without u rows) ≡ count_where (is_grant v i) rows
unfolding count_where find_many
count-without_ne u v i [] w = refl
count-without_ne u v i (g ∷ rows) w = ground (arith, count-without_ne u v i rows w)

count-granted_to_ne :
    (u v i : ℕ) (ids : List ℕ) → u ≢ v → count_where (is_grant v i) (granted_to u ids) ≡ 0
unfolding count_where
count-granted_to_ne u v i [] w = refl
count-granted_to_ne u v i (x ∷ ids) w = ground (arith, count-granted_to_ne u v i ids w)

contains-targets_of :
    (u i : ℕ) (rows : List Grant)
    → contains i (targets_of u rows) ≡ ltb 0 (count_where (is_grant u i) rows)
unfolding count_where contains find_many
contains-targets_of u i [] = refl
contains-targets_of u i (g ∷ rows) = ground (arith, contains-targets_of u i rows)

-- What is under the ceiling entry by entry.
contains-under :
    (c xs : List ℕ) (b : ℕ)
    → any (λ x. not (contains x c)) xs ≡ false
    → contains b xs ≡ true
    → contains b c ≡ true
unfolding any contains
contains-under c [] b h k = ground arith
contains-under c (x ∷ xs) b h k = elim (Bool-cases (x == b)) [
  | inl e ↦ ground (arith, ap (λ n. contains n c))
  | inr e ↦ contains-under c xs b (ground arith) (ground arith)
]

-- The models with one identifier are one model.
abbrev Alike : Sets → CarModel → CarModel → Type 0
Alike c m r = (r.id == m.id) ≡ true → over_model c r ≡ over_model c m

model-under :
    (c : Sets) (m : CarModel) (rows : List CarModel)
    → All (Alike c m) rows
    → any (over_model c) rows ≡ false
    → contains m.id (map (λ r. r.id) rows) ≡ true
    → over_model c m ≡ false
unfolding any contains
model-under c m [] a h k = ground arith
model-under c m (r ∷ rows) a h k = elim (Bool-cases (r.id == m.id)) [
  | inl e ↦ ground (arith, a.0 e)
  | inr e ↦ model-under c m rows a.1 (ground arith) (ground arith)
]

All-find_many_sub {ℓ} :
    {A : Type ℓ} (P : A → Type 0) (p : A → Bool) (xs : List A) → All P xs → All P (find_many p xs)
unfolding find_many
All-find_many_sub P p [] h = tt
All-find_many_sub P p (x ∷ xs) h = elim (Bool-cases (p x)) [
  | inl e ↦ rw e (h.0, All-find_many_sub P p xs h.1)
  | inr e ↦ rw e (All-find_many_sub P p xs h.1)
]

-- The identifiers of the models are theirs alone.
abbrev pub HasUniqueModels : Db → Type 0
HasUniqueModels s = All (λ m. find_first (λ x. x.id == m.id) s.car_models ≡ some m) s.car_models

models-Alike :
    (c : Sets) (m : CarModel) (s : Db) (xs : List CarModel)
    → find_first (λ x. x.id == m.id) s.car_models ≡ some m
    → All (λ r. find_first (λ x. x.id == r.id) s.car_models ≡ some r) xs
    → All (Alike c m) xs
models-Alike c m s [] f h = tt
models-Alike c m s (r ∷ xs) f h = (
  λ e.
      let q : r.id ≡ m.id = ground arith in
      let same : r ≡ m =
        ground (arith, h.0, ap (λ i. find_first (λ x. x.id == i) s.car_models) q) in
      ap (over_model c) same,
  models-Alike c m s xs f h.1,
)

-- What the new grants of an account consist of.
record IsValid (ceiling : Sets) (s : Db) (valid : Sets) (ids : List ℕ) : Type 0 where
  brands : any (λ b. not (contains b ceiling.brand_ids)) valid.brand_ids ≡ false
  models : valid.model_ids ≡ map (λ r. r.id) (model_rows valid.brand_ids (real_models ids s))
  under : any (over_model ceiling) (model_rows valid.brand_ids (real_models ids s)) ≡ false

validate_grants-IsValid :
    (wanted ceiling valid : Sets) (s u : Db)
    → validate_grants wanted (some ceiling) s ≡ done valid u
    → IsValid ceiling s valid (unique wanted.model_ids) × (u ≡ s)
unfolding validate_grants over
validate_grants-IsValid wanted ceiling valid s u h =
    let us = unique wanted.brand_ids in
    let vs = unique wanted.model_ids in
    let rows = model_rows us (real_models vs s) in
    let (a, h1) =
      require-done (length (real_brands us s) == length us) (bad_request unknown_brand) _ s u valid
        h in
    let (b, h2) =
      require-done (length (real_models vs s) == length vs) (bad_request unknown_model) _ s u valid
        h1 in
    let (c, h3) =
      require-done (not (over (some ceiling) us rows)) (forbidden over_ceiling) _ s u valid h2 in
    let q : record { brand_ids = us; model_ids = map (λ m. m.id) rows } ≡ valid = ground arith in
    let w : u ≡ s = ground arith in
    rw (← q) (record { brands = ground arith; models = refl; under = ground arith }, w)

-- Who holds a model after the grants of one account are replaced.
module _ (u v : ℕ) (valid : Sets) (m : CarModel) (s : Db) where
  holds-replace_grants :
      holds u m (replace_grants u valid s)
      ≡ (contains m.brand_id valid.brand_ids || contains m.id valid.model_ids)
  unfolding holds replace_grants
  holds-replace_grants = ground (
    arith,
    count-without u m.brand_id s.brand_access,
    count-without u m.id s.model_access,
    count-granted_to u m.brand_id valid.brand_ids,
    count-granted_to u m.id valid.model_ids,
    count_where-append (is_grant u m.brand_id) (without u s.brand_access)
        (granted_to u valid.brand_ids),
    count_where-append (is_grant u m.id) (without u s.model_access) (granted_to u valid.model_ids),
  )

  holds-replace_grants_ne :
      u ≢ v
      → holds v m (replace_grants u valid s) ≡ (
          contains m.brand_id (allowed_sets v s).brand_ids
          || contains m.id (allowed_sets v s).model_ids)
  unfolding holds replace_grants allowed_sets
  holds-replace_grants_ne w = ground (
    arith,
    count-without_ne u v m.brand_id s.brand_access w,
    count-without_ne u v m.id s.model_access w,
    count-granted_to_ne u v m.brand_id valid.brand_ids w,
    count-granted_to_ne u v m.id valid.model_ids w,
    contains-targets_of v m.brand_id s.brand_access,
    contains-targets_of v m.id s.model_access,
    count_where-append (is_grant v m.brand_id) (without u s.brand_access)
        (granted_to u valid.brand_ids),
    count_where-append (is_grant v m.id) (without u s.model_access) (granted_to u valid.model_ids),
  )

succeeded-require : (b : Bool) (e : AppError) (s : Db) → succeeded (require b e s) ≡ true → b ≡ true
succeeded-require true e s h = refl
succeeded-require false e s h = ground arith

-- What is granted is under the ceiling.
granted_under :
    (c valid : Sets) (s : Db) (vs : List ℕ) (m : CarModel)
    → IsValid c s valid vs
    → All (Alike c m) (model_rows valid.brand_ids (real_models vs s))
    → (contains m.brand_id valid.brand_ids || contains m.id valid.model_ids) ≡ true
    → (contains m.brand_id c.brand_ids || contains m.id c.model_ids) ≡ true
unfolding over_model
granted_under c valid s vs m v a h = elim (Bool-cases (contains m.brand_id valid.brand_ids)) [
  | inl e ↦ ground (arith, contains-under c.brand_ids valid.brand_ids m.brand_id v.brands e)
  | inr e ↦
      let k : contains m.id (map (λ r. r.id) (model_rows valid.brand_ids (real_models vs s)))
          ≡ true =
        ground (arith, ap (λ ids. contains m.id ids) v.models) in
      ground (arith, model-under c m (model_rows valid.brand_ids (real_models vs s)) a v.under k)
]

-- Where no two models share an identifier: after the brands of a sub-agency are set within what its
-- parent holds, whatever the sub-agency may post under, its parent may post under too.
pub set_brands-assert_may_post :
    (child parent model_id k : ℕ) (wanted : Sets) (s t : Db)
    → child ≢ parent
    → HasUniqueModels s
    → set_brands child wanted (some (allowed_sets parent s)) s ≡ done k t
    → succeeded (assert_may_post child model_id t) ≡ true
    → succeeded (assert_may_post parent model_id t) ≡ true
unfolding set_brands assert_may_post check_model replace_grants
set_brands-assert_may_post child parent model_id k wanted s t w ids h p =
    let ceiling = allowed_sets parent s in
    let (valid, u, q, r) = bind-done (validate_grants wanted (some ceiling)) _ s t k h in
    let (v, same) = validate_grants-IsValid wanted ceiling valid s u q in
    let e : t ≡ replace_grants child valid s = ground arith in
    elim (Option-cases (find_first (λ m. m.id == model_id) s.car_models)) [
      | inl n ↦ rw (e, n) refl
      | inr (m, f) ↦
          let i : m.id ≡ model_id =
            ground (arith, find_first_holds (λ x. x.id == model_id) s.car_models {x = m}) in
          let vs = unique wanted.model_ids in
          let a =
            All-find_many_sub (Alike ceiling m) (λ x. not (contains x.brand_id valid.brand_ids))
              (real_models vs s)
              (All-find_many_sub (Alike ceiling m) (λ x. contains x.id vs && x.is_active)
                s.car_models
                (models-Alike ceiling m s s.car_models
                  (ap (λ j. find_first (λ x. x.id == j) s.car_models) i ∙ f) ids)) in
          let c : holds child m (replace_grants child valid s) ≡ true =
            succeeded-require _ _ _ (rw (e, f) at p) in
          let under =
            granted_under ceiling valid s vs m v a
              (sym (holds-replace_grants child parent valid m s) ∙ c) in
          rw (e, f, holds-replace_grants_ne child parent valid m s w, under) refl
    ]
