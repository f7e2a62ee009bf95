-- ===== src/Examples/Security.antt =====
-- Hits of two addresses on a counter, a scanner, and an address that is blocked for a day.
use havale_khodro.Security.Counters.Windows.{run, track, next_window}
use havale_khodro.Prelude.{
  ℕ, length, find_first, find_many, count_where, update_where, ◌≤◌, ◌≡◌, refl, true, false, not,
  none, some, List, [], ◌∷◌, arith, zero, suc, ◌+◌,
}
use havale_khodro.Security.Counters.{hit, open_window, put, entry_of, sweep, max_keys, hit_distinct}
use havale_khodro.Security.Events.Alarms.{IsRecorded, attack, attack-IsRecorded}
use havale_khodro.Security.Events.Door.{
  Decision, blocks, decide_all, unblocks, closes, decide, last_on, admits-decide_all,
}
use havale_khodro.Security.Events.{
  admits, refresh, block, unblock, active_blocks, find_block, has, ips_of, block_until,
  record_event, maybe_alert, upsert_event, find_event, send,
}
use havale_khodro.Schema.Enums.{probe_path}
use havale_khodro.Examples.Fixtures.{market, noon}
use havale_khodro.Security.Counters.Refinement.{hit-run-track}
use havale_khodro.Security.Counters.Bounds.{length-hit-hit_distinct}
use havale_khodro.Schema.Entities.{Env}

-- Key 7 at 10 and 50 and key 8 at 20, with windows of 100; the third hit of 7 comes at 105.
abbrev hits : List (ℕ × ℕ)
hits = (7, 10) ∷ (8, 20) ∷ (7, 50) ∷ []

hit-run-track_example :
    (hit 100 7 105 (run 100 [] hits)).0 ≡ (next_window 100 105 (track 100 7 none hits)).1
unfolding run hit open_window put entry_of sweep find_first update_where count_where
hit-run-track_example = hit-run-track 100 7 105 hits (
  omega arith,
  omega arith,
  (omega arith, omega arith, (omega arith, omega arith, (omega arith, omega arith, tt))),
)

third_hit : (hit 100 7 105 (run 100 [] hits)).0 ≡ 3
unfolding run hit open_window put entry_of find_first update_where
third_hit = refl

length-hit-hit_distinct_example :
    (length (hit 100 7 105 (run 100 [] hits)).1 ≤ max_keys)
    × (length (hit_distinct 100 7 3 105 (run 100 [] hits)).1 ≤ max_keys)
unfolding run hit open_window put entry_of find_first update_where
length-hit-hit_distinct_example =
    length-hit-hit_distinct 100 7 3 105 (run 100 [] hits) (omega arith)

-- A scanner that probes 250 times rings at 1, 100 and 200.
-- Ninety-eight more attempts at once, and one a quarter of an hour later.
abbrev again : ℕ → List Env
again zero = record noon { now = noon.now + 900000 } ∷ []
again (suc n) = noon ∷ again n

attack-IsRecorded_example :
    IsRecorded probe_path
      (some 9)
      (1 + length (again 98))
      (attack probe_path (some 9) none (noon ∷ again 98) market)
unfolding count_where
attack-IsRecorded_example =
    attack-IsRecorded probe_path (some 9) none noon (again 98) market refl refl tt

-- The first rings, and so does the hundredth, which is late enough; at one moment only the first does.
rung :
    (length (attack probe_path (some 9) none (noon ∷ again 98) market).alarms ≡ 2)
    × (length (attack probe_path (some 9) none (noon ∷ again 97) market).alarms ≡ 1)
unfolding attack record_event maybe_alert upsert_event find_event send
rung = (refl, refl)

abbrev decisions : List Decision
decisions = blocks noon 9 (some 1) (some 5) ∷ blocks noon 8 none (some 5) ∷ unblocks 8 ∷ []

admits-decide_all_example :
    admits (refresh true noon (decide_all decisions market) []) (some 9)
    ≡ not (closes noon (last_on 9 none decisions))
admits-decide_all_example = admits-decide_all 9 noon decisions market [] refl

turned_away : admits (refresh true noon (decide_all decisions market) []) (some 9) ≡ false
unfolding admits refresh decide_all decide block unblock active_blocks find_many find_block
    find_first has ips_of block_until update_where
turned_away = refl
