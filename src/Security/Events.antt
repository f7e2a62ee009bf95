-- ===== src/Security/Events.antt =====
-- The events and the block list of backend/src/modules/security/security.service.js, with the door of
-- backend/src/middlewares/blockedIp.js. An event's sample, path, method and user agent, which are
-- only shown, are left out, and so are the calls that only read for the panel.
pub mod Alarms
pub mod Door
use havale_khodro.Prelude.{
  ℕ, ltb, ◌==◌, if◌then◌else◌, present, find_first, find_many, update_where, ◌+◌, ◌*◌, ◌%◌, Bool,
  true, false, not, ◌&&◌, ◌||◌, Option, none, some, List, [], ◌∷◌, ◌++◌, map,
}
use havale_khodro.Schema.Enums.{
  ThreatRule, Severity, same_rule, template, header_inject, probe_path, rate_limit, forbidden_sweep,
  not_found_sweep, oversize,
}
use havale_khodro.Schema.Entities.{Env, SecurityEvent, BlockedIp, Db, Alarm}

-- RULE_SEVERITY
unfoldable pub severity_of : ThreatRule → Severity
severity_of template = Severity.medium
severity_of header_inject = Severity.medium
severity_of probe_path = Severity.medium
severity_of rate_limit = Severity.low
severity_of forbidden_sweep = Severity.medium
severity_of not_found_sweep = Severity.medium
severity_of oversize = Severity.low
severity_of _ = Severity.high

abbrev pub is_low : Severity → Bool
is_low Severity.low = true
is_low _ = false

-- Addresses as they are compared: an unknown one is equal to itself.
abbrev pub address : Option ℕ → ℕ
address none = 0
address (some ip) = ip + 1

abbrev pub has_fingerprint : ThreatRule → Option ℕ → SecurityEvent → Bool
has_fingerprint rule ip e = same_rule e.rule rule && address e.ip == address ip

abbrev pub new_event : Env → ThreatRule → Option ℕ → Option ℕ → SecurityEvent
new_event env rule ip user_id = record {
  rule = rule;
  ip = ip;
  severity = severity_of rule;
  count = 1;
  user_id = user_id;
  last_seen = env.now;
  resolved_at = none;
}

-- Something that comes back was not dealt with, whatever was ticked.
abbrev pub seen_again : Env → SecurityEvent → SecurityEvent
seen_again env e = record e { count = e.count + 1; last_seen = env.now; resolved_at = none }

unfoldable pub find_event : ThreatRule → Option ℕ → Db → Option SecurityEvent
unfolding find_first
find_event rule ip s = find_first (has_fingerprint rule ip) s.security_events

unfoldable pub upsert_event : Env → ThreatRule → Option ℕ → Option ℕ → Db → Db
unfolding find_event update_where severity_of
upsert_event env rule ip user_id s = record s {
  security_events =
      if present (find_event rule ip s)
      then update_where (has_fingerprint rule ip) (seen_again env) s.security_events
      else s.security_events ++ new_event env rule ip user_id ∷ [];
}

-- On the first sighting, and then at every hundredth; a low severity never rings.
abbrev pub rings : SecurityEvent → Bool
rings row = not (is_low row.severity) && (row.count == 1 || row.count % 100 == 0)

abbrev pub alarm_of : Env → SecurityEvent → Alarm
alarm_of env row = record { rule = row.rule; ip = row.ip; count = row.count; sent_at = env.now }

-- `DEFAULT_COOLDOWN_MS` of backend/src/modules/alert/telegram.js
abbrev pub cooldown_ms : ℕ
cooldown_ms = 15 * 60 * 1000

abbrev pub alarm_for : ThreatRule → Option ℕ → Alarm → Bool
alarm_for rule ip a = same_rule a.rule rule && address a.ip == address ip

-- `previous && now - previous < cooldownMs`
abbrev pub cooling : Env → Option Alarm → Bool
cooling env none = false
cooling env (some previous) = ltb env.now (previous.sent_at + cooldown_ms)

-- `telegram.send`, where the channel is configured: the alarms that went out, the latest first. A repeat
-- of a fingerprint within a quarter of an hour is dropped.
unfoldable pub send : Env → SecurityEvent → List Alarm → List Alarm
unfolding find_first
send env row alarms =
    if cooling env (find_first (alarm_for row.rule row.ip) alarms)
    then alarms
    else alarm_of env row ∷ alarms

unfoldable pub maybe_alert : Env → Option SecurityEvent → Db → Db
unfolding send
maybe_alert env none s = s
maybe_alert env (some row) s = record s {
  alarms = if rings row then send env row s.alarms else s.alarms;
}

-- `record`. Recording never throws; what a database that cannot be reached leaves out is not modelled.
unfoldable pub record_event : Env → ThreatRule → Option ℕ → Option ℕ → Db → Db
unfolding upsert_event maybe_alert find_event
record_event env rule ip user_id s =
    let t = upsert_event env rule ip user_id s in maybe_alert env (find_event rule ip t) t

abbrev pub is_block_of : ℕ → BlockedIp → Bool
is_block_of ip b = b.ip == ip

unfoldable pub find_block : ℕ → Db → Option BlockedIp
unfolding find_first
find_block ip s = find_first (is_block_of ip) s.blocked_ips

-- `!row.until || row.until > new Date()`
abbrev pub in_force : Env → BlockedIp → Bool
in_force env b = elim b.until [ none ↦ true | some t ↦ ltb env.now t ]

unfoldable pub is_blocked : Env → ℕ → Db → Bool
unfolding find_block
is_blocked env ip s = elim (find_block ip s) [ none ↦ false | some b ↦ in_force env b ]

abbrev pub day_ms : ℕ
day_ms = 24 * 60 * 60 * 1000

-- `days ? now + days : null`: no days, like zero days, is for ever.
unfoldable pub block_until : Env → Option ℕ → Option ℕ
block_until env none = none
block_until env (some days) = if days == 0 then none else some (env.now + days * day_ms)

abbrev pub block_row : Env → ℕ → Option ℕ → Option ℕ → BlockedIp
block_row env ip days by_user_id = record {
  ip = ip;
  until = block_until env days;
  created_by = by_user_id;
}

unfoldable pub block : Env → ℕ → Option ℕ → Option ℕ → Db → Db
unfolding find_block update_where block_until
block env ip days by_user_id s = record s {
  blocked_ips =
      if present (find_block ip s)
      then update_where (is_block_of ip)
          (λ b. record b { until = block_until env days; created_by = by_user_id }) s.blocked_ips
      else s.blocked_ips ++ block_row env ip days by_user_id ∷ [];
}

unfoldable pub unblock : ℕ → Db → Db
unfolding find_many
unblock ip s = record s { blocked_ips = find_many (λ b. not (is_block_of ip b)) s.blocked_ips }

-- `rows.map((r) => r.ip)`
unfoldable pub ips_of : List BlockedIp → List ℕ
ips_of [] = []
ips_of (b ∷ bs) = b.ip ∷ ips_of bs

unfoldable pub active_blocks : Env → Db → List ℕ
unfolding find_many ips_of
active_blocks env s = ips_of (find_many (in_force env) s.blocked_ips)

-- `refresh`: a table that cannot be read leaves the set as it was.
unfoldable pub refresh : Bool → Env → Db → List ℕ → List ℕ
unfolding active_blocks
refresh true env s blocked = active_blocks env s
refresh false env s blocked = blocked

-- `blocked.has(ip)`
unfoldable pub has : ℕ → List ℕ → Bool
has ip [] = false
has ip (b ∷ bs) = b == ip || has ip bs

-- `blockedIp`: whether the request goes on. An address that is not known is in no set.
unfoldable pub admits : List ℕ → Option ℕ → Bool
unfolding has
admits blocked none = true
admits blocked (some ip) = not (has ip blocked)
