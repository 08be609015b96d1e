-- ===== src/Alerts/Hysteresis.antt =====
-- The two tests of the alert loop (src/alerts/alerts.service.ts) do not flicker.
use gbi_backend.Base.{◌+◌, ◌≤◌, ◌≡◌, arith}
use gbi_backend.Base.Int.{ℤ, pos_part, neg_part, ◌≤ℤ◌}
use gbi_backend.Alerts.{
  Level, normal, alerting, trigger, resolve, keep, hysteresis, resolve_limit, decide,
}

-- The level after a reading.
abbrev pub next_level : Level → ℤ → ℤ → Level
next_level level value threshold = elim (decide level value threshold) [
  | trigger ↦ alerting
  | resolve ↦ normal
  | keep ↦ level
]

-- A reading that comes a second time at the level that it led to triggers and resolves nothing.
pub decide_settled :
    (level : Level) (value threshold : ℤ)
    → decide (next_level level value threshold) value threshold ≡ keep
unfolding decide
decide_settled normal value threshold = ground arith
decide_settled alerting value threshold = ground arith

-- A reading between the resolve limit and the threshold
pub decide_band :
    (level : Level) (value threshold : ℤ)
    → resolve_limit threshold ≤ℤ value
    → value ≤ℤ threshold
    → decide level value threshold ≡ keep
unfolding decide
decide_band normal value threshold low high = ground arith
decide_band alerting value threshold low high = ground arith

-- A reading that resolves an alert lies below the reading that triggered it by at least the
-- hysteresis of the threshold, which is one unit or 5% of the threshold, whichever is more.
pub trigger_resolve_gap :
    (value later threshold : ℤ)
    → decide normal value threshold ≡ trigger
    → decide alerting later threshold ≡ resolve
    → pos_part later + neg_part value + hysteresis threshold ≤ pos_part value + neg_part later
unfolding decide
trigger_resolve_gap value later threshold up down = ground arith
