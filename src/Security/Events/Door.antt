-- ===== src/Security/Events/Door.antt =====
-- Who is turned away by backend/src/middlewares/blockedIp.js.
use havale_khodro.Prelude.{
  ℕ, ltb, ◌==◌, if◌then◌else◌, find_first, find_many, count_where, find_first-count_where, ◌≤◌, ◌≡◌,
  refl, Bool, true, false, not, Option, none, some, List, [], ◌∷◌, arith, Bool-cases, Option-cases,
  find_count_elsewhere, find_count_in_place, find_count_kept, find_count_dropped,
  count_where-append, find_first-append, inl, inr, ==_refl, find_none_count, sym,
}
use havale_khodro.Security.Events.{
  has, admits, block, block_until, refresh, unblock, is_block_of, active_blocks, is_blocked,
  find_block, ips_of, in_force, block_row,
}
use havale_khodro.Schema.Entities.{Env, Db, BlockedIp}

has-find_many :
    (env : Env) (ip : ℕ) (bs : List BlockedIp)
    → count_where (is_block_of ip) bs ≤ 1
    → has ip (ips_of (find_many (in_force env) bs))
      ≡ elim (find_first (is_block_of ip) bs) [ none ↦ false | some b ↦ in_force env b ]
unfolding has find_many find_first count_where ips_of
has-find_many env ip [] h = refl
has-find_many env ip (b ∷ bs) h =
    ground (arith, has-find_many env ip bs, find_first-count_where (is_block_of ip) bs)

-- The set that the door keeps and the look-up of one address agree: after a refresh, a request is turned
-- away exactly if its address is blocked.
pub admits-is_blocked :
    (env : Env) (ip : ℕ) (s : Db) (blocked : List ℕ)
    → count_where (is_block_of ip) s.blocked_ips ≤ 1
    → admits (refresh true env s blocked) (some ip) ≡ not (is_blocked env ip s)
unfolding admits refresh active_blocks is_blocked find_block
admits-is_blocked env ip s blocked h = rw (has-find_many env ip s.blocked_ips h) refl

-- What somebody does to the block list.
pub data Decision : Type 0 where
  blocks : Env → ℕ → Option ℕ → Option ℕ → Decision
  unblocks : ℕ → Decision

unfoldable pub decide : Decision → Db → Db
unfolding block unblock
decide (blocks env ip days by) s = block env ip days by s
decide (unblocks ip) s = unblock ip s

unfoldable pub decide_all : List Decision → Db → Db
unfolding decide
decide_all [] s = s
decide_all (d ∷ ds) s = decide_all ds (decide d s)

-- The last decision on an address, if there was one since the list was empty.
unfoldable pub last_on : ℕ → Option Decision → List Decision → Option Decision
last_on ip last [] = last
last_on ip last (blocks env k days by ∷ ds) =
    last_on ip (if k == ip then some (blocks env k days by) else last) ds
last_on ip last (unblocks k ∷ ds) = last_on ip (if k == ip then some (unblocks k) else last) ds

-- What a decision says of its address at a later time.
unfoldable pub closes : Env → Option Decision → Bool
unfolding block_until
closes later none = false
closes later (some (unblocks k)) = false
closes later (some (blocks env k days by)) = elim (block_until env days) [
  | none ↦ true
  | some t ↦ ltb later.now t
]

record Follows (ip : ℕ) (later : Env) (last : Option Decision) (s : Db) : Type 0 where
  single : count_where (is_block_of ip) s.blocked_ips ≤ 1
  says : is_blocked later ip s ≡ closes later last

block_same :
    (later env : Env) (k : ℕ) (days by : Option ℕ) (last : Option Decision) (s : Db)
    → Follows k later last s
    → Follows k later (some (blocks env k days by)) (block env k days by s)
unfolding block closes is_blocked find_block find_first count_where
block_same later env k days by last s f =
    let g : BlockedIp → BlockedIp =
      λ b. record b { until = block_until env days; created_by = by } in
    let there = find_count_in_place (is_block_of k) g s.blocked_ips (λ x h. h) in
    let row = block_row env k days by in
    elim (Option-cases (find_first (is_block_of k) s.blocked_ips)) [
      | inl absent ↦ record {
        single = ground (
          arith,
          ==_refl k,
          find_none_count (is_block_of k) s.blocked_ips absent,
          count_where-append (is_block_of k) s.blocked_ips (row ∷ []),
        );
        says =
            ground (arith, ==_refl k, find_first-append (is_block_of k) s.blocked_ips (row ∷ []));
      }
      | inr (b, here) ↦ record {
        single = ground (arith, f.single, there);
        says = ground (arith, there);
      }
    ]

decide-Follows :
    (ip : ℕ) (later : Env) (last : Option Decision) (d : Decision) (s : Db)
    → Follows ip later last s
    → Follows ip later (last_on ip last (d ∷ [])) (decide d s)
unfolding decide block unblock last_on closes is_blocked find_block find_first count_where
decide-Follows ip later last (blocks env k days by) s f = elim (Bool-cases (k == ip)) [
  | inl q ↦
      let i : ip ≡ k = ground arith in
      rw (i, ==_refl k) (block_same later env k days by last s (rw (sym i) f))
  | inr q ↦
      let g : BlockedIp → BlockedIp =
        λ b. record b { until = block_until env days; created_by = by } in
      let rest =
        find_count_elsewhere (is_block_of k) g (is_block_of ip) s.blocked_ips
          (λ x h. ground arith) in
      let row = block_row env k days by in
      record {
        single =
            ground
              (arith, f.single, rest, count_where-append (is_block_of ip) s.blocked_ips (row ∷ []));
        says =
            ground
              (arith, f.says, rest, find_first-append (is_block_of ip) s.blocked_ips (row ∷ []));
      }
]
decide-Follows ip later last (unblocks k) s f = elim (Bool-cases (k == ip)) [
  | inl q ↦
      let gone =
        find_count_dropped (is_block_of ip) (λ b. not (is_block_of k b)) s.blocked_ips
          (λ x h. ground arith) in
      record { single = ground (arith, gone); says = ground (arith, gone) }
  | inr q ↦
      let kept =
        find_count_kept (is_block_of ip) (λ b. not (is_block_of k b)) s.blocked_ips
          (λ x h. ground arith) in
      record { single = ground (arith, f.single, kept); says = ground (arith, f.says, kept) }
]

decide_all-Follows :
    (ip : ℕ) (later : Env) (ds : List Decision) (last : Option Decision) (s : Db)
    → Follows ip later last s
    → Follows ip later (last_on ip last ds) (decide_all ds s)
unfolding decide_all last_on
decide_all-Follows ip later [] last s f = f
decide_all-Follows ip later (blocks env k days by ∷ ds) last s f =
    decide_all-Follows ip later ds (if k == ip then some (blocks env k days by) else last) _
      (decide-Follows ip later last (blocks env k days by) s f)
decide_all-Follows ip later (unblocks k ∷ ds) last s f =
    decide_all-Follows ip later ds (if k == ip then some (unblocks k) else last) _
      (decide-Follows ip later last (unblocks k) s f)

-- After any decisions on an empty block list, the door that has been refreshed turns a request away
-- exactly if the last decision on its address was a block that is still in force; an address that
-- nobody decided on is never turned away.
pub admits-decide_all :
    (ip : ℕ) (later : Env) (ds : List Decision) (s : Db) (blocked : List ℕ)
    → s.blocked_ips ≡ []
    → admits (refresh true later (decide_all ds s) blocked) (some ip)
      ≡ not (closes later (last_on ip none ds))
unfolding closes is_blocked find_block find_first count_where
admits-decide_all ip later ds s blocked h =
    let f =
      decide_all-Follows ip later ds none s
        (record { single = ground arith; says = ground arith }) in
    rw f.says at (admits-is_blocked later ip (decide_all ds s) blocked f.single)
