-- ===== src/Subscription/Periods.antt =====
-- The window that the monthly cap of backend/src/modules/subscription/subscription.service.js is
-- counted over.
use havale_khodro.Prelude.{
  leb, leb→le, Bool-cases, ℕ, ◌+◌, ◌*◌, ◌%◌, ◌≤◌, ◌<◌, ◌≡◌, inl, inr, false, arith,
}
use havale_khodro.Subscription.Entitlement.{latest_period_start, reveal_period_days}
use havale_khodro.Time.{day_ms}

not_leb : (a b : ℕ) → leb a b ≡ false → b < a
not_leb a b h = ground arith

-- At a moment after the first thirty days of 1970, the window begins at most thirty days before
-- the moment and not after it, and a whole number of thirty-day periods from the start.
pub latest_period_start_bounds :
    (start now : ℕ)
    → reveal_period_days * day_ms ≤ now
    → (latest_period_start start now ≤ now)
      × (now < latest_period_start start now + reveal_period_days * day_ms)
      × (latest_period_start start now % (reveal_period_days * day_ms)
          ≡ start % (reveal_period_days * day_ms))
unfolding latest_period_start
latest_period_start_bounds start now h = elim (Bool-cases (leb start now)) [
  | inl e ↦ rw e (omega (arith, leb→le start now e))
  | inr e ↦ rw e (omega (arith, not_leb start now e))
]
