-- ===== src/Time.antt =====
-- backend/src/utils/time.js. How far Tehran is ahead of UTC comes from the time-zone database of
-- the runtime: it is an argument, in milliseconds. Times are after the first of January 1970.
pub mod Windows
use havale_khodro.Prelude.{ℕ, ◌+◌, ◌-◌, ◌*◌, ◌%◌}

abbrev pub day_ms : ℕ
day_ms = 24 * 60 * 60 * 1000

abbrev pub add_days : ℕ → ℕ → ℕ
add_days date days = date + days * day_ms

-- `setUTCHours(0, 0, 0, 0)`
abbrev utc_midnight : ℕ → ℕ
utc_midnight t = t - t % day_ms

unfoldable pub start_of_tehran_day : (ℕ → ℕ) → ℕ → ℕ
start_of_tehran_day offset_ms date = utc_midnight (date + offset_ms date) - offset_ms date
