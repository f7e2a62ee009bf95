-- ===== src/Examples/Brands.antt =====
-- The grants of brands at the example database: the parent holds brand 60.
use havale_khodro.Prelude.{◌≡◌, arith, ℕ, refl, true, some, [], ◌∷◌}
use havale_khodro.Brands.{Sets, set_brands, assert_may_post, allowed_sets, holds}
use havale_khodro.Exec.{Exec, succeeded, thrown, after, forbidden, over_ceiling}
use havale_khodro.Examples.Fixtures.{market}
use havale_khodro.Brands.Ceiling.{set_brands-assert_may_post}

abbrev one_brand : Sets
one_brand = record { brand_ids = 60 ∷ []; model_ids = [] }

abbrev ceiling : Sets
ceiling = record { brand_ids = 60 ∷ []; model_ids = [] }

abbrev divided : Exec ℕ
divided = set_brands 2 one_brand (some ceiling)

-- The sub-agency may post the model of that brand, and the parent too.
set_brands-assert_may_post_example :
    succeeded (assert_may_post 1 61 (after (divided market))) ≡ true
unfolding set_brands assert_may_post allowed_sets holds
set_brands-assert_may_post_example =
    set_brands-assert_may_post 2 1 61 1 one_brand market (after (divided market)) (omega arith)
      (refl, (refl, tt)) refl refl

-- A brand that the parent does not hold is refused.
beyond_ceiling :
    set_brands 2 one_brand (some (record { brand_ids = []; model_ids = [] })) market
    ≡ thrown (forbidden over_ceiling) market
unfolding set_brands
beyond_ceiling = refl
