-- ===== src/Alerts/Tests.antt =====
-- Runs of the alert evaluation (src/alerts/alerts.service.ts).
use gbi_backend.Base.{◌≡◌, refl, none, some, [], ◌∷◌, arith, ◌==◌, if◌then◌else◌, ◌&&◌}
use gbi_backend.Base.Int.{pos}
use gbi_backend.Prisma.Memory.{memory}
use gbi_backend.Alerts.{
  alerting, keep, decide, Store, Telemetry, evaluate, select_thresholds, is_assigned, in_users,
}
use gbi_backend.Alerts.Hysteresis.{decide_band}
use gbi_backend.Alerts.Levels.{level_in}
use gbi_backend.Alerts.Refinement.{find_threshold, after_reading, evaluate-level}

-- Device 7 has a user, a threshold of 20 for pm25, and no alert.
abbrev quiet : Store
quiet = record {
  devices = record { id = 7; group_id = none } ∷ [];
  assignments = record { device_id = 7; user_id = 1; unassigned_at = none } ∷ [];
  device_thresholds = record { owner = 7; thresholds = (0, pos 4000) ∷ [] } ∷ [];
  group_thresholds = [];
  states = [];
  event_logs = [];
  notifications = [];
  sent = [];
}

-- pm25 is 25.
abbrev smoke : Telemetry
smoke parameter = if parameter == 0 then some (pos 5000) else none

alert_runs : level_in (evaluate memory 7 smoke 100 quiet).states 1 7 0 ≡ alerting
unfolding evaluate level_in
alert_runs = refl

evaluate-level_example : level_in (evaluate memory 7 smoke 100 quiet).states 1 7 0 ≡ (
    if (7 == 7) && in_users (memory.find_many (is_assigned 7) quiet.assignments) 1
    then after_reading
        (find_threshold (select_thresholds memory 7 quiet) 0)
        (smoke 0)
        (level_in quiet.states 1 7 0)
    else level_in quiet.states 1 7 0)
unfolding select_thresholds
evaluate-level_example =
    evaluate-level memory 7 smoke 100 quiet 1 7 0 tt (omega arith) (omega arith)

decide_band_example : decide alerting (pos 3900) (pos 4000) ≡ keep
decide_band_example = decide_band alerting (pos 3900) (pos 4000) (omega arith) (omega arith)
