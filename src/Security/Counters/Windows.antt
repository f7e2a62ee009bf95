-- ===== src/Security/Counters/Windows.antt =====
-- The map of backend/src/modules/security/counters.js against the automaton of one key.
use havale_khodro.Prelude.{
  ℕ, ◌+◌, ◌≤◌, ◌≡◌, arith, List, [], ◌∷◌, leb, ◌==◌, if◌then◌else◌, find_first, count_where, ◌<◌,
  refl, Bool, true, Option, none, some, Bool-cases, Option-cases, length, update_where, inl, inr,
  false, count_where-append, find_first-append, sym, ==_refl, count_where-find_many,
  find_first-find_many, find_count_elsewhere, find_count_in_place, find_none_count,
  length-find_many,
}
use havale_khodro.Security.Counters.{
  hit, Entry, sweep, is_open, is_under, max_keys, swept, put, is_over, counted,
}

-- One key alone: when its window started, and how many hits it has had since.
unfoldable pub next_window : ℕ → ℕ → Option (ℕ × ℕ) → ℕ × ℕ
next_window window now none = (now, 1)
next_window window now (some (start, count)) =
    if leb (start + window) now then (now, 1) else (start, count + 1)

-- The automaton along the hits (key, time) of all keys.
unfoldable pub track : ℕ → ℕ → Option (ℕ × ℕ) → List (ℕ × ℕ) → Option (ℕ × ℕ)
unfolding next_window
track window key w [] = w
track window key w ((k, now) ∷ rest) =
    track window key (if k == key then some (next_window window now w) else w) rest

-- The map along the same hits.
unfoldable pub run : ℕ → List Entry → List (ℕ × ℕ) → List Entry
unfolding hit
run window hits [] = hits
run window hits ((k, now) ∷ rest) = run window (hit window k now hits).1 rest

-- The times do not go back, and whenever a hit comes, fewer windows than the ceiling are open.
abbrev pub IsPaced : ℕ → ℕ → List Entry → List (ℕ × ℕ) → Type 0
IsPaced window time hits [] = Unit
IsPaced window time hits ((k, now) ∷ rest) =
    (time ≤ now)
    × (count_where (is_open window now) hits < max_keys)
    × IsPaced window now (hit window k now hits).1 rest

abbrev pub lapsed : ℕ → ℕ → Option (ℕ × ℕ) → Bool
lapsed window now none = true
lapsed window now (some (start, count)) = leb (start + window) now

abbrev pub shown : Entry → ℕ × ℕ
shown e = (e.started_at, e.count)

-- What the map has under a key is what the automaton has, unless that window is over.
abbrev pub Tells : ℕ → ℕ → Option Entry → Option (ℕ × ℕ) → Type 0
Tells window now none w = lapsed window now w ≡ true
Tells window now (some e) w = w ≡ some (shown e)

abbrev pub lapsed_entry : ℕ → ℕ → Option Entry → Bool
lapsed_entry window now none = true
lapsed_entry window now (some e) = is_over window now e

pub record Agrees (window key now : ℕ) (hits : List Entry) (w : Option (ℕ × ℕ)) : Type 0 where
  pub single : count_where (is_under key) hits ≤ 1
  pub tells : Tells window now (find_first (is_under key) hits) w

lapsed_later :
    (window now later : ℕ) (w : Option (ℕ × ℕ))
    → now ≤ later
    → lapsed window now w ≡ true
    → lapsed window later w ≡ true
lapsed_later window now later none h e = refl
lapsed_later window now later (some (start, count)) h e = ground arith

Tells-later :
    (window now later : ℕ) (o : Option Entry) (w : Option (ℕ × ℕ))
    → now ≤ later
    → Tells window now o w
    → Tells window later o w
Tells-later window now later none w h t = lapsed_later window now later w h t
Tells-later window now later (some e) w h t = t

pub Agrees-later :
    (window key now later : ℕ) (hits : List Entry) (w : Option (ℕ × ℕ))
    → now ≤ later
    → Agrees window key now hits w
    → Agrees window key later hits w
Agrees-later window key now later hits w h a = record {
  single = a.single;
  tells = Tells-later window now later (find_first (is_under key) hits) w h a.tells;
}

Agrees-sweep :
    (window key now : ℕ) (hits : List Entry) (w : Option (ℕ × ℕ))
    → Agrees window key now hits w
    → Agrees window key now (sweep window now hits) w
unfolding sweep
Agrees-sweep window key now hits w a = record {
  single = omega (arith, count_where-find_many (is_under key) (is_open window now) hits, a.single);
  tells = elim (Option-cases (find_first (is_under key) hits)) [
    | inl e ↦
        ground
          (arith, a.tells, find_first-find_many (is_under key) (is_open window now) hits a.single)
    | inr (x, e) ↦
        ground
          (arith, a.tells, find_first-find_many (is_under key) (is_open window now) hits a.single)
  ];
}

pub swept-Agrees :
    (window key now : ℕ) (hits : List Entry) (w : Option (ℕ × ℕ))
    → Agrees window key now hits w
    → Agrees window key now (swept window now hits) w
swept-Agrees window key now hits w a = elim (Bool-cases (leb max_keys (length hits))) [
  | inl e ↦ rw e (Agrees-sweep window key now hits w a)
  | inr e ↦ rw e a
]

pub swept-lt :
    (window now : ℕ) (hits : List Entry)
    → count_where (is_open window now) hits < max_keys
    → length (swept window now hits) < max_keys
unfolding sweep
swept-lt window now hits h = ground (arith, length-find_many (is_open window now) hits)

-- A hit of `k`, as the key sees it that is followed.
pub of_both :
    (window key now k : ℕ) (hits : List Entry) (v : ℕ × ℕ) (w : Option (ℕ × ℕ))
    → (k ≡ key → Agrees window k now hits (some v))
    → ((k == key) ≡ false → Agrees window key now hits w)
    → Agrees window key now hits (if k == key then some v else w)
of_both window key now k hits v w same other = elim (Bool-cases (k == key)) [
  | inl q ↦ let i : key ≡ k = ground arith in rw i (rw (==_refl k) (same (sym i)))
  | inr q ↦ rw q (other q)
]

pub put_same :
    (window now k : ℕ) (seen : Option (List ℕ)) (hits : List Entry) (w : Option (ℕ × ℕ))
    → let e : Entry = record { key = k; started_at = now; count = 1; seen = seen } in
      Agrees window k now hits w → Agrees window k now (put e hits) (some (now, 1))
unfolding put count_where find_first
put_same window now k seen hits w a =
    let e : Entry = record { key = k; started_at = now; count = 1; seen = seen } in
    let here = find_count_in_place (is_under k) (λ old. e) hits (λ x h. ground arith) in
    elim (Option-cases (find_first (is_under k) hits)) [
      | inl absent ↦ record {
        single = ground (
          arith,
          find_none_count (is_under k) hits absent,
          count_where-append (is_under k) hits (e ∷ []),
        );
        tells = ground (arith, find_first-append (is_under k) hits (e ∷ []));
      }
      | inr (old, found) ↦ record {
        single = ground (arith, a.single, here);
        tells = ground (arith, here);
      }
    ]

-- Writing an entry under its key.
pub put_elsewhere :
    (window key now : ℕ) (e : Entry) (hits : List Entry) (w : Option (ℕ × ℕ))
    → (e.key == key) ≡ false
    → Agrees window key now hits w
    → Agrees window key now (put e hits) w
unfolding put count_where find_first
put_elsewhere window key now e hits w q a =
    let rest =
      find_count_elsewhere (is_under e.key) (λ old. e) (is_under key) hits (λ x h. ground arith) in
    record {
      single = ground (arith, a.single, rest, count_where-append (is_under key) hits (e ∷ []));
      tells = ground (arith, a.tells, rest, find_first-append (is_under key) hits (e ∷ []));
    }

pub bump-Agrees :
    (window key now k : ℕ) (e : Entry) (hits : List Entry) (w : Option (ℕ × ℕ))
    → find_first (is_under k) hits ≡ some e
    → is_over window now e ≡ false
    → Agrees window key now hits w
    → Agrees window key now
        (update_where (is_under k) counted hits)
        (if k == key then some (next_window window now w) else w)
unfolding next_window
bump-Agrees window key now k e hits w here going a =
    of_both window key now k _ _ w
      (λ q.
        let b : Agrees window k now hits w = rw q a in
        let there = find_count_in_place (is_under k) counted hits (λ x h. h) in
        record { single = ground (arith, b.single, there); tells = ground (arith, b.tells, there) })
      λ q.
        let rest =
          find_count_elsewhere (is_under k) counted (is_under key) hits (λ x h. ground arith) in
        record { single = ground (arith, a.single, rest); tells = ground (arith, a.tells, rest) }
