-- ===== src/Security/Counters/Bounds.antt =====
-- The ceiling of backend/src/modules/security/counters.js.
use havale_khodro.Prelude.{
  ℕ, ◌+◌, ◌≤◌, arith, List, [], ◌∷◌, length, Option, Option-cases, inl, inr, none, some,
  length-append, length-update_where, length-find_many, count_where-length,
}
use havale_khodro.Security.Counters.{
  sweep, put, open_window, hit, Entry, hit_distinct, swept, is_under, max_keys, is_open, entry_of,
  counted, with_seen, seen_with,
}

length-swept : (window now : ℕ) (hits : List Entry) → length (swept window now hits) ≤ length hits
unfolding sweep
length-swept window now hits = ground (
  arith,
  length-find_many (is_open window now) hits,
  count_where-length (is_open window now) hits,
)

length-put : (e : Entry) (hits : List Entry) → length (put e hits) ≤ length hits + 1
unfolding put
length-put e hits =
    ground (arith, length-append hits e, length-update_where (is_under e.key) (λ old. e) hits)

length-open_window :
    (window key now : ℕ) (seen : Option (List ℕ)) (hits : List Entry)
    → length hits ≤ max_keys
    → length (open_window window key now seen hits).1 ≤ max_keys
unfolding open_window
length-open_window window key now seen hits h =
    let e : Entry = record { key = key; started_at = now; count = 1; seen = seen } in
    ground (arith, length-swept window now hits, length-put e (swept window now hits))

-- Neither way of counting lets the map grow past the ceiling, whatever the keys and the times are.
pub length-hit-hit_distinct :
    (window key value now : ℕ) (hits : List Entry)
    → length hits ≤ max_keys
    → (length (hit window key now hits).1 ≤ max_keys)
      × (length (hit_distinct window key value now hits).1 ≤ max_keys)
unfolding hit hit_distinct
length-hit-hit_distinct window key value now hits h = elim (Option-cases (entry_of key hits)) [
  | inl absent ↦ (
    ground (arith, length-open_window window key now none hits),
    ground (arith, length-open_window window key now (some (value ∷ [])) hits),
  )
  | inr (e, here) ↦ (
    ground (
      arith,
      length-open_window window key now none hits,
      length-update_where (is_under key) counted hits,
    ),
    ground (
      arith,
      length-open_window window key now (some (value ∷ [])) hits,
      length-update_where (is_under key) (with_seen (seen_with value e)) hits,
    ),
  )
]
