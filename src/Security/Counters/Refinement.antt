-- ===== src/Security/Counters/Refinement.antt =====
-- `hit` of backend/src/modules/security/counters.js against the automaton of one key.
use havale_khodro.Prelude.{
  ℕ, ◌==◌, if◌then◌else◌, Bool-cases, Option-cases, find_first, count_where, update_where, ◌+◌, ◌<◌,
  ◌≡◌, refl, ◌⊎◌, inl, inr, true, false, Option, none, some, List, [], ◌∷◌, ◌++◌, arith,
}
use havale_khodro.Security.Counters.{
  hit, put, open_window, is_open, max_keys, is_under, swept, is_over, counted,
}
use havale_khodro.Security.Counters.Windows.{
  next_window, run, IsPaced, lapsed_entry, track, Tells, Agrees, of_both, Agrees-later, put_same,
  swept-Agrees, put_elsewhere, swept-lt, bump-Agrees,
}
use havale_khodro.Schema.Entities.{Entry}

opened : ℕ → ℕ → List Entry → List Entry
opened k now hits = put (record { key = k; started_at = now; count = 1; seen = none }) hits

-- The two things that a hit does where there is room.
hit_eq :
    (window now k : ℕ) (hits : List Entry)
    → count_where (is_open window now) hits < max_keys
    → ((lapsed_entry window now (find_first (is_under k) hits) ≡ true)
        × (hit window k now hits ≡ (1, opened k now (swept window now hits))))
      ⊎ ((e : Entry) × (find_first (is_under k) hits ≡ some e)
          × (is_over window now e ≡ false)
          × (hit window k now hits ≡ (e.count + 1, update_where (is_under k) counted hits)))
unfolding hit open_window opened
hit_eq window now k hits room = elim (Option-cases (find_first (is_under k) hits)) [
  | inl absent ↦ inl (ground arith, ground (arith, swept-lt window now hits room))
  | inr (e, here) ↦ elim (Bool-cases (is_over window now e)) [
    | inl over ↦ inl (ground arith, ground (arith, swept-lt window now hits room))
    | inr going ↦ inr (e, here, going, ground arith)
  ]
]

next_window_lapsed :
    (window now : ℕ) (o : Option Entry) (w : Option (ℕ × ℕ))
    → lapsed_entry window now o ≡ true
    → Tells window now o w
    → next_window window now w ≡ (now, 1)
unfolding next_window
next_window_lapsed window now o none over t = refl
next_window_lapsed window now none (some (start, count)) over t = ground arith
next_window_lapsed window now (some e) (some (start, count)) over t = ground arith

hit-Agrees :
    (window key now k : ℕ) (hits : List Entry) (w : Option (ℕ × ℕ))
    → count_where (is_open window now) hits < max_keys
    → Agrees window key now hits w
    → Agrees window key now
        (hit window k now hits).1
        (if k == key then some (next_window window now w) else w)
unfolding opened next_window
hit-Agrees window key now k hits w room a = elim (hit_eq window now k hits room) [
  | inl (over, e) ↦ rw e (
      of_both window key now k _ _ w
        (λ q.
          rw (next_window_lapsed window now _ w over (rw q a.tells))
            (put_same window now k none _ w (swept-Agrees window k now hits w (rw q a))))
        λ q. put_elsewhere window key now _ _ w q (swept-Agrees window key now hits w a))
  | inr (x, here, going, e) ↦ rw e (bump-Agrees window key now k x hits w here going a)
]

-- The number that a hit gives.
hit-next_window :
    (window key now : ℕ) (hits : List Entry) (w : Option (ℕ × ℕ))
    → count_where (is_open window now) hits < max_keys
    → Agrees window key now hits w
    → (hit window key now hits).0 ≡ (next_window window now w).1
unfolding next_window
hit-next_window window key now hits w room a = elim (hit_eq window now key hits room) [
  | inl (over, e) ↦ ground (arith, next_window_lapsed window now _ w over a.tells)
  | inr (x, here, going, e) ↦ ground (arith, a.tells)
]

hit-run-Agrees :
    (window key now time : ℕ) (trace : List (ℕ × ℕ)) (hits : List Entry) (w : Option (ℕ × ℕ))
    → IsPaced window time hits (trace ++ (key, now) ∷ [])
    → Agrees window key time hits w
    → (hit window key now (run window hits trace)).0
      ≡ (next_window window now (track window key w trace)).1
unfolding run track
hit-run-Agrees window key now time [] hits w p a =
    hit-next_window window key now hits w p.1 (Agrees-later window key time now hits w p.0 a)
hit-run-Agrees window key now time ((k, t) ∷ rest) hits w p a =
    hit-run-Agrees window key now t rest (hit window k t hits).1
      (if k == key then some (next_window window t w) else w) p.2
      (hit-Agrees window key t k hits w p.1 (Agrees-later window key time t hits w p.0 a))

-- The map refines the counting of one key alone: after any hits of all keys, whose times do not go
-- back and each of which comes while fewer than 5,000 windows are open, the number that the next hit
-- gives is the number that the key's own window reaches, swept or not.
pub hit-run-track :
    (window key now : ℕ) (trace : List (ℕ × ℕ))
    → IsPaced window 0 [] (trace ++ (key, now) ∷ [])
    → (hit window key now (run window [] trace)).0
      ≡ (next_window window now (track window key none trace)).1
unfolding count_where find_first
hit-run-track window key now trace p =
    hit-run-Agrees window key now 0 trace [] none p (record { single = omega arith; tells = refl })
