-- ===== src/Examples/Texts.antt =====
-- Texts of listings, as backend/src/utils/textGuard.js reads them.
use havale_khodro.Prelude.{ℕ, List, [], ◌∷◌, ◌++◌, ◌≡◌, refl, true, false, ◌||◌, none, some}
use havale_khodro.TextGuard.{normalise, looks_like_phone, is_invisible, is_separator}
use havale_khodro.TextGuard.Rules.{Field, Writer, Finding, refused, clean, assert_clean}
use havale_khodro.TextGuard.Refusals.{assert_clean-number}
use havale_khodro.TextGuard.Detection.{looks_like_phone-normalise, is_phone, digits_of}

-- The word for contact, a colon, and 0912 345-6789 in Persian digits.
abbrev contact_word : List ℕ
contact_word = 1578 ∷ 1605 ∷ 1575 ∷ 1587 ∷ []

abbrev mobile : List ℕ
mobile =
    32 ∷ 1776 ∷ 1785 ∷ 1777 ∷ 1778 ∷ 32 ∷ 1779 ∷ 1780 ∷ 1781 ∷ 45 ∷ 1782 ∷ 1783 ∷ 1784 ∷ 1785 ∷ []

looks_like_phone-normalise_example :
    (looks_like_phone (normalise mobile) ≡ is_phone (digits_of mobile))
    × (looks_like_phone (normalise (contact_word ++ 58 ∷ (mobile ++ []))) ≡ (
        looks_like_phone (normalise contact_word)
        || (is_phone (digits_of mobile) || looks_like_phone (normalise []))))
unfolding is_invisible is_separator
looks_like_phone-normalise_example =
    looks_like_phone-normalise contact_word 58 mobile [] refl
      (
        refl,
        (
          refl,
          (
            refl,
            (
              refl,
              (refl, (refl, (refl, (refl, (refl, (refl, (refl, (refl, (refl, (refl, tt)))))))))),
            ),
          ),
        ),
      )
      refl

mobile_seen : looks_like_phone (normalise (contact_word ++ 58 ∷ mobile)) ≡ true
unfolding normalise looks_like_phone
mobile_seen = refl

-- A price of twelve digits is no telephone number.
price_passes :
    looks_like_phone
      (normalise (49 ∷ 50 ∷ 48 ∷ 44 ∷ 48 ∷ 48 ∷ 48 ∷ 44 ∷ 48 ∷ 48 ∷ 48 ∷ 44 ∷ 48 ∷ 48 ∷ 48 ∷ []))
    ≡ false
unfolding normalise looks_like_phone
price_passes = refl

-- 207 before 09121230000: the two are read as one number, which is round.
joined_number :
    looks_like_phone
      (normalise (50 ∷ 48 ∷ 55 ∷ 32 ∷ 48 ∷ 57 ∷ 49 ∷ 50 ∷ 49 ∷ 50 ∷ 51 ∷ 48 ∷ 48 ∷ 48 ∷ 48 ∷ []))
    ≡ false
unfolding normalise looks_like_phone
joined_number = refl

-- The word for year, a colon and 1405.
abbrev year_word : List ℕ
year_word = 1587 ∷ 1575 ∷ 1604 ∷ []

abbrev year : List ℕ
year = 32 ∷ 49 ∷ 52 ∷ 48 ∷ 53 ∷ []

abbrev year_field : Field
year_field = record { label = 1; text = year_word ++ 58 ∷ (year ++ []); strict = false }

abbrev nobody : Writer
nobody = record { code = none; name = none; upper = λ text. text }

year_passes : assert_clean nobody ([] ++ year_field ∷ []) ≡ clean []
unfolding assert_clean
year_passes = refl

assert_clean-number_example : is_phone (digits_of year) ≡ false
unfolding is_invisible is_separator
assert_clean-number_example =
    assert_clean-number nobody [] year_field [] [] year_passes year_word 58 year [] refl
      (refl, (refl, (refl, (refl, (refl, tt))))) refl refl

-- A handle, a link and the account's own code are refused, and the field is named.
handle_refused :
    assert_clean nobody (
      year_field ∷ record { label = 2; text = 64 ∷ 112 ∷ 97 ∷ 114 ∷ 115 ∷ []; strict = false } ∷ [])
    ≡ refused 2 (Finding.handle ∷ [])
unfolding assert_clean
handle_refused = refl

link_refused :
    assert_clean nobody
      (record { label = 2; text = 65 ∷ 98 ∷ 99 ∷ 46 ∷ 73 ∷ 82 ∷ []; strict = false } ∷ [])
    ≡ refused 2 (Finding.link ∷ [])
unfolding assert_clean
link_refused = refl

code_refused :
    assert_clean
      (record nobody { code = some (71 ∷ 45 ∷ 55 ∷ []) })
      (record { label = 2; text = 32 ∷ 71 ∷ 45 ∷ 55 ∷ []; strict = false } ∷ [])
    ≡ refused 2 (Finding.agency_code ∷ [])
unfolding assert_clean
code_refused = refl
