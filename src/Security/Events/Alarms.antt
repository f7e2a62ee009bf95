-- ===== src/Security/Events/Alarms.antt =====
-- When the phone rings for an attack that backend/src/modules/security/security.service.js records.
use havale_khodro.Prelude.{
  ℕ, if◌then◌else◌, length, count_where, suc, ◌+◌, ◌/◌, ◌≡◌, Option, some, ==_refl,
  find_count_in_place, find_first, count_where-append, find_first-append, find_first-count_where,
  refl, [], ◌∷◌, arith, leb, Bool-cases, ◌≤◌, inl, inr, Bool, true, not, ◌||◌, none, List, false,
}
use havale_khodro.Security.Events.{
  record_event, has_fingerprint, find_event, severity_of, is_low, upsert_event, maybe_alert,
  new_event, seen_again, rings, address, alarm_of, alarm_for, send, cooldown_ms, cooling,
}
use havale_khodro.Schema.Enums.{ThreatRule, rule_index}
use havale_khodro.Schema.Entities.{Env, Db, SecurityEvent, Alarm}

-- Attempts of one kind from one address, at the moments given.
unfoldable pub attack : ThreatRule → Option ℕ → Option ℕ → List Env → Db → Db
unfolding record_event
attack rule ip user_id [] s = s
attack rule ip user_id (env ∷ envs) s =
    attack rule ip user_id envs (record_event env rule ip user_id s)

-- An alarm that went out after the one before it had cooled down.
abbrev pub is_due : Alarm → Option Alarm → Bool
is_due a none = true
is_due a (some previous) = leb (previous.sent_at + cooldown_ms) a.sent_at

abbrev pub IsSpaced : ThreatRule → Option ℕ → List Alarm → Type 0
IsSpaced rule ip [] = Unit
IsSpaced rule ip (a ∷ earlier) =
    ((not (alarm_for rule ip a) || is_due a (find_first (alarm_for rule ip) earlier)) ≡ true)
    × IsSpaced rule ip earlier

-- What the recording of `n` attempts leaves: the row, and the alarms of the fingerprint.
pub record IsRecorded (rule : ThreatRule) (ip : Option ℕ) (n : ℕ) (t : Db) : Type 0 where
  pub one : count_where (has_fingerprint rule ip) t.security_events ≡ 1
  pub row :
      (e : SecurityEvent) × (find_event rule ip t ≡ some e)
      × (e.rule ≡ rule)
      × (e.ip ≡ ip)
      × (e.count ≡ n)
      × (e.severity ≡ severity_of rule)
  pub rung_most :
      count_where (alarm_for rule ip) t.alarms
      ≤ (if is_low (severity_of rule) then 0 else 1 + n / 100)
  pub rung_least :
      (if is_low (severity_of rule) then 0 else 1) ≤ count_where (alarm_for rule ip) t.alarms
  pub spaced : IsSpaced rule ip t.alarms

-- What one more recording does.
record_first :
    (env : Env) (rule : ThreatRule) (ip user_id : Option ℕ) (s : Db)
    → count_where (has_fingerprint rule ip) s.security_events ≡ 0
    → (count_where (has_fingerprint rule ip) (upsert_event env rule ip user_id s).security_events
        ≡ 1)
      × (find_event rule ip (upsert_event env rule ip user_id s)
          ≡ some (new_event env rule ip user_id))
unfolding upsert_event find_event find_first count_where
record_first env rule ip user_id s h =
    let e = new_event env rule ip user_id in
    ground (
      arith,
      find_first-count_where (has_fingerprint rule ip) s.security_events h,
      find_first-append (has_fingerprint rule ip) s.security_events (e ∷ []),
      count_where-append (has_fingerprint rule ip) s.security_events (e ∷ []),
      ==_refl (rule_index rule),
      ==_refl (address ip),
    )

record_next :
    (env : Env) (rule : ThreatRule) (ip user_id : Option ℕ) (s : Db) (e : SecurityEvent)
    → count_where (has_fingerprint rule ip) s.security_events ≡ 1
    → find_event rule ip s ≡ some e
    → (count_where (has_fingerprint rule ip) (upsert_event env rule ip user_id s).security_events
        ≡ 1)
      × (find_event rule ip (upsert_event env rule ip user_id s) ≡ some (seen_again env e))
unfolding upsert_event find_event
record_next env rule ip user_id s e h here = ground (
  arith,
  find_count_in_place (has_fingerprint rule ip) (seen_again env) s.security_events (λ x q. q),
)

-- What has cooled down is due.
due :
    (env : Env) (e : SecurityEvent) (previous : Option Alarm)
    → cooling env previous ≡ false
    → is_due (alarm_of env e) previous ≡ true
due env e none q = refl
due env e (some a) q = ground arith

sent_own :
    (env : Env) (e : SecurityEvent) (alarms : List Alarm)
    → IsSpaced e.rule e.ip alarms
    → IsSpaced e.rule e.ip (send env e alarms)
      × (count_where (alarm_for e.rule e.ip) (send env e alarms)
          ≡ count_where (alarm_for e.rule e.ip) alarms
            + (if cooling env (find_first (alarm_for e.rule e.ip) alarms) then 0 else 1))
unfolding send count_where
sent_own env e alarms h =
    elim (Bool-cases (cooling env (find_first (alarm_for e.rule e.ip) alarms))) [
      | inl q ↦ rw q (h, ground arith)
      | inr q ↦
          let ready = due env e (find_first (alarm_for e.rule e.ip) alarms) q in
          rw q (
            (ground (arith, ready), h),
            ground (arith, ==_refl (rule_index e.rule), ==_refl (address e.ip)),
          )
    ]

-- What a row of the fingerprint sends.
sent :
    (env : Env) (rule : ThreatRule) (ip : Option ℕ) (e : SecurityEvent) (alarms : List Alarm)
    → e.rule ≡ rule
    → e.ip ≡ ip
    → IsSpaced rule ip alarms
    → IsSpaced rule ip (send env e alarms)
      × (count_where (alarm_for rule ip) (send env e alarms)
          ≡ count_where (alarm_for rule ip) alarms
            + (if cooling env (find_first (alarm_for rule ip) alarms) then 0 else 1))
unfolding send count_where
sent env rule ip e alarms a b h = rw (← a, ← b) (sent_own env e alarms (rw (← a, ← b) at h))

first-IsRecorded :
    (env : Env) (rule : ThreatRule) (ip user_id : Option ℕ) (s : Db)
    → count_where (has_fingerprint rule ip) s.security_events ≡ 0
    → count_where (alarm_for rule ip) s.alarms ≡ 0
    → IsSpaced rule ip s.alarms
    → IsRecorded rule ip 1 (record_event env rule ip user_id s)
unfolding record_event maybe_alert find_event upsert_event
first-IsRecorded env rule ip user_id s h quiet spaced =
    let (one, here) = record_first env rule ip user_id s h in
    let e = new_event env rule ip user_id in
    let (apart, count) = sent env rule ip e s.alarms refl refl spaced in
    let silent = find_first-count_where (alarm_for rule ip) s.alarms quiet in
    rw here (record {
      one = one;
      row = (e, here, refl, refl, refl, refl);
      rung_most = ground (arith, count, quiet);
      rung_least = ground (arith, count, quiet, silent);
      spaced = elim (Bool-cases (rings e)) [ inl q ↦ rw q apart | inr q ↦ rw q spaced ];
    })

next-IsRecorded :
    (env : Env) (rule : ThreatRule) (ip user_id : Option ℕ) (n : ℕ) (t : Db)
    → IsRecorded rule ip (suc n) t
    → IsRecorded rule ip (suc (suc n)) (record_event env rule ip user_id t)
unfolding record_event maybe_alert find_event upsert_event
next-IsRecorded env rule ip user_id n t r =
    let (e, there, same, from, count, severity) = r.row in
    let (one, here) = record_next env rule ip user_id t e r.one there in
    let again = seen_again env e in
    let (apart, more) = sent env rule ip again t.alarms same from r.spaced in
    rw here (record {
      one = one;
      row = (again, here, same, from, ground arith, severity);
      rung_most = ground (arith, r.rung_most, count, severity, more);
      rung_least = ground (arith, r.rung_least, more);
      spaced = elim (Bool-cases (rings again)) [ inl q ↦ rw q apart | inr q ↦ rw q r.spaced ];
    })

more-IsRecorded :
    (rule : ThreatRule) (ip user_id : Option ℕ) (n : ℕ) (envs : List Env) (t : Db)
    → IsRecorded rule ip (suc n) t
    → IsRecorded rule ip (suc n + length envs) (attack rule ip user_id envs t)
unfolding attack
more-IsRecorded rule ip user_id n [] t r = let q : suc n + 0 ≡ suc n = omega arith in rw q r
more-IsRecorded rule ip user_id n (env ∷ envs) t r =
    let q : suc n + suc (length envs) ≡ suc (suc n) + length envs = omega arith in
    rw q (
      more-IsRecorded rule ip user_id (suc n) envs (record_event env rule ip user_id t)
        (next-IsRecorded env rule ip user_id n t r))

-- Of an attempt that was not recorded before and is made one or more times, at whatever moments: one row
-- is kept, which counts the attempts. The phone rings at least once and at most at the first and at
-- each hundredth attempt, at least a quarter of an hour apart, or never where the rule is of low
-- severity.
pub attack-IsRecorded :
    (rule : ThreatRule) (ip user_id : Option ℕ) (env : Env) (envs : List Env) (s : Db)
    → count_where (has_fingerprint rule ip) s.security_events ≡ 0
    → count_where (alarm_for rule ip) s.alarms ≡ 0
    → IsSpaced rule ip s.alarms
    → IsRecorded rule ip (1 + length envs) (attack rule ip user_id (env ∷ envs) s)
unfolding attack
attack-IsRecorded rule ip user_id env envs s h quiet spaced =
    more-IsRecorded rule ip user_id 0 envs (record_event env rule ip user_id s)
      (first-IsRecorded env rule ip user_id s h quiet spaced)
