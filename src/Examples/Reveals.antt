-- ===== src/Examples/Reveals.antt =====
-- The allowance of the example database: one reveal a day.
use havale_khodro.Prelude.{
  ℕ, ◌≤◌, ◌≡◌, refl, true, none, some, List, [], ◌∷◌, arith, count_where, update_where,
}
use havale_khodro.Access.{Access, expired_access, upto}
use havale_khodro.Exec.{Exec, after, done, thrown, bad_request, own_contact}
use havale_khodro.Reveal.{
  Usage, RevealResult, reveal, Request, count_since, to_reveal_result, serve, find_listing,
  find_reveal, contact_of, agency_of, bump_reveal_count, reveal_row,
}
use havale_khodro.Time.{start_of_tehran_day}
use havale_khodro.Reveal.Ledger.{IsBalanced, serve-IsBalanced}
use havale_khodro.Examples.Fixtures.{noon, market, tehran, child, independent, advertisement}
use havale_khodro.Schema.Entities.{Db, User}
use havale_khodro.Reveal.Allowance.{serve_allowance}
use havale_khodro.Schema.Enums.{Target, Market, account_active}
use havale_khodro.Reveal.Charging.{reveal-thrown, reveal_again, IsOpen}
use havale_khodro.Activity.{find_user}

abbrev granted : Access
granted = record expired_access {
  active = true;
  daily_limit = upto 1;
  monthly_limit = upto 300;
  period_start = some 31500000000;
}

abbrev open_independent : Exec RevealResult
open_independent = reveal noon child granted 40 none Target.havale (some Market.havale)

abbrev once : Usage
once = record { daily_used = 1; daily_limit = upto 1; monthly_used = 1; monthly_limit = upto 300 }

abbrev shown : RevealResult
shown = to_reveal_result independent once

first_reveal : open_independent market ≡ done shown (after (open_independent market))
unfolding reveal start_of_tehran_day count_where
first_reveal = refl

-- The only reveal of the day is spent, and another listing is refused.
second_refused :
    (t : Db) × (reveal noon child granted 41 none Target.havale none
        (after (open_independent market))
      ≡ thrown (bad_request own_contact) t)
unfolding reveal start_of_tehran_day count_where update_where
second_refused = (after (open_independent market), refl)

-- The owner has another telephone number by then, and the viewer no allowance.
abbrev renumbered : User
renumbered = record independent { coordinator_phone = some "0912" }

unfoldable days_later : Db
unfolding reveal
days_later = record (after (open_independent market)) { users = child ∷ renumbered ∷ [] }

reveal_again_example :
    ((r' : RevealResult) × (reveal noon child granted 40 none Target.havale
          (some Market.havale)
          days_later
        ≡ done r' days_later)
      × (r'.contact ≡ contact_of renumbered)
      × (r'.agency ≡ agency_of renumbered))
    × ((o : User) × IsOpen 40 child (some Market.havale) o (after (open_independent market))
        × (shown.contact ≡ contact_of o)
        × (shown.agency ≡ agency_of o)
        × (account_active o.status ≡ true))
unfolding reveal find_listing find_reveal find_user count_where update_where days_later
reveal_again_example =
    reveal_again noon child granted 40 none Target.havale (some Market.havale) market
      (after (open_independent market)) shown noon granted none Target.havale days_later renumbered
      first_reveal
      (
        bump_reveal_count (advertisement 40 3),
        reveal_row noon market.next_id 40 child.id none independent.coordinator_phone
            independent.agency_code,
        refl,
        refl,
        refl,
      )
      refl

abbrev requests : List Request
requests =
    record {
      env = noon;
      user = child;
      access = granted;
      id = 40;
      ip = none;
      target = Target.havale;
      market = none;
    }
    ∷ []

abbrev today : ℕ
today = start_of_tehran_day tehran 31579200000

serve_allowance_example :
    (count_since 2 today (serve market requests) ≤ 1)
    × (count_since 2 31500000000 (serve market requests) ≤ 300)
unfolding count_since count_where
serve_allowance_example =
    serve_allowance 2 today 1 31500000000 300 market requests ((λ e. (refl, refl, refl, refl)), tt)
      (omega arith) (omega arith)

serve-IsBalanced_example : IsBalanced (serve market requests)
unfolding count_where
serve-IsBalanced_example =
    serve-IsBalanced market requests
      (record { counted = (refl, (refl, tt)); single = λ i v. omega arith })

reveal-thrown_example :
    after (reveal noon independent granted 40 none Target.havale none market) ≡ market
unfolding reveal
reveal-thrown_example =
    reveal-thrown noon independent granted 40 none Target.havale none market
      (after (reveal noon independent granted 40 none Target.havale none market))
      (bad_request own_contact) refl
