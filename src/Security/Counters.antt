-- ===== src/Security/Counters.antt =====
-- backend/src/modules/security/counters.js: hits per key within a fixed window, in a map that
-- never holds more than a given number of keys. The map is the list of its entries in insertion
-- order; keys and values, which are only compared, are numbers.
pub mod Bounds
pub mod Windows
pub mod Refinement
use havale_khodro.Prelude.{
  ℕ, ◌+◌, ◌==◌, ◌++◌, [], ◌∷◌, List, Option, none, some, Bool, true, false, not, leb, length,
  find_first, find_many, update_where, if◌then◌else◌, present, count_where, get_or,
}
use havale_khodro.Schema.Entities.{Entry}

abbrev pub max_keys : ℕ
max_keys = 5000

abbrev pub is_under : ℕ → Entry → Bool
is_under key e = e.key == key

-- `now - entry.startedAt >= windowMs`, also where the clock was set back.
abbrev pub is_over : ℕ → ℕ → Entry → Bool
is_over window now e = leb (e.started_at + window) now

abbrev pub is_open : ℕ → ℕ → Entry → Bool
is_open window now e = not (is_over window now e)

unfoldable pub entry_of : ℕ → List Entry → Option Entry
unfolding find_first
entry_of key hits = find_first (is_under key) hits

unfoldable pub sweep : ℕ → ℕ → List Entry → List Entry
unfolding find_many
sweep window now hits = find_many (is_open window now) hits

-- `Map.set`: in place where the key is there, at the end where it is not.
unfoldable pub put : Entry → List Entry → List Entry
unfolding update_where entry_of
put e hits =
    if present (entry_of e.key hits)
    then update_where (is_under e.key) (λ old. e) hits
    else hits ++ e ∷ []

abbrev pub swept : ℕ → ℕ → List Entry → List Entry
swept window now hits = if leb max_keys (length hits) then sweep window now hits else hits

-- The first branch of `hit` and of `hitDistinct`: a window opens, if there is room for it.
unfoldable pub open_window : ℕ → ℕ → ℕ → Option (List ℕ) → List Entry → ℕ × List Entry
unfolding sweep put
open_window window key now seen hits =
    let kept = swept window now hits in
    if leb max_keys (length kept)
    then (1, kept)
    else (1, put (record { key = key; started_at = now; count = 1; seen = seen }) kept)

abbrev pub counted : Entry → Entry
counted e = record e { count = e.count + 1 }

unfoldable pub hit : ℕ → ℕ → ℕ → List Entry → ℕ × List Entry
unfolding entry_of open_window update_where
hit window key now hits = elim (entry_of key hits) [
  | none ↦ open_window window key now none hits
  | some e ↦
      if is_over window now e
      then open_window window key now none hits
      else (e.count + 1, update_where (is_under key) counted hits)
]

-- `Set.add`
unfoldable pub add : ℕ → List ℕ → List ℕ
unfolding find_first
add value values =
    if present (find_first (λ v. v == value) values) then values else values ++ value ∷ []

abbrev pub seen_with : ℕ → Entry → List ℕ
seen_with value e = add value (get_or e.seen [])

abbrev pub with_seen : List ℕ → Entry → Entry
with_seen values e = record e { count = length values; seen = some values }

unfoldable pub hit_distinct : ℕ → ℕ → ℕ → ℕ → List Entry → ℕ × List Entry
unfolding entry_of open_window update_where add
hit_distinct window key value now hits = elim (entry_of key hits) [
  | none ↦ open_window window key now (some (value ∷ [])) hits
  | some e ↦ if is_over window now e then open_window window key now (some (value ∷ [])) hits else (
    length (seen_with value e),
    update_where (is_under key) (with_seen (seen_with value e)) hits,
  )
]
