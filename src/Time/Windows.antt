-- ===== src/Time/Windows.antt =====
-- Where the windows of backend/src/utils/time.js begin and end.
use havale_khodro.Prelude.{ℕ, ◌+◌, ◌%◌, ◌≤◌, ◌<◌, ◌≡◌, arith}
use havale_khodro.Time.{day_ms, start_of_tehran_day}

-- For an offset below a day and a time after the first day of 1970: the start of the Tehran day is at
-- most the time and less than a day before it, and it is a midnight of the Tehran clock if the clock
-- was as far ahead then as it is at the time.
pub start_of_tehran_day_bounds :
    (offset_ms : ℕ → ℕ) (date : ℕ)
    → offset_ms date < day_ms
    → day_ms ≤ date
    → offset_ms (start_of_tehran_day offset_ms date) ≡ offset_ms date
    → let start = start_of_tehran_day offset_ms date in
      (start ≤ date) × (date < start + day_ms) × ((start + offset_ms start) % day_ms ≡ 0)
unfolding start_of_tehran_day
start_of_tehran_day_bounds offset_ms date h k same = omega (arith, same)

-- Under one offset, two times of one Tehran day have one start.
pub start_of_tehran_day-eq :
    (offset_ms : ℕ → ℕ) (date later : ℕ)
    → offset_ms later ≡ offset_ms date
    → offset_ms date < day_ms
    → day_ms ≤ date
    → date ≤ later
    → later < start_of_tehran_day offset_ms date + day_ms
    → start_of_tehran_day offset_ms later ≡ start_of_tehran_day offset_ms date
unfolding start_of_tehran_day
start_of_tehran_day-eq offset_ms date later e h k l m = omega arith
