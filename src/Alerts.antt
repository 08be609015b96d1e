-- ===== src/Alerts.antt =====
-- Threshold alerts: src/alerts/alerts.service.ts over alerts.repository.ts. A reading or a threshold
-- is an integer number of 1/200 units, which is exact for values of one decimal place and for the
-- 5% of such a threshold. Parameter names, like ids, are only compared, and are numbers.
pub mod Hysteresis
pub mod Levels
pub mod Refinement
mod Tests
use gbi_backend.Base.{
  ℕ, ◌+◌, ◌-◌, ◌/◌, max, Bool, true, false, ◌&&◌, Option, none, some, List, [], ◌∷◌, ◌++◌, ◌==◌,
  if◌then◌else◌,
}
use gbi_backend.Base.Int.{ℤ, pos, pos_part, neg_part, sub_ℕ, ltb_ℤ}
use gbi_backend.Prisma.{Prisma}

pub data Level : Type 0 where
  normal alerting : Level

pub data AlertEvent : Type 0 where
  alert_triggered alert_resolved : AlertEvent

pub record AlertState : Type 0 where
  pub user_id : ℕ
  pub device_id : ℕ
  pub parameter : ℕ
  pub state : Level
  pub last_triggered_at : ℕ

pub record EventLog : Type 0 where
  pub device_id : ℕ
  pub user_id : ℕ
  pub event_type : AlertEvent
  pub parameter : ℕ
  pub value : ℤ

-- The message of a notification is made of these; `limit` is its `thresholdValue`.
pub record Notification : Type 0 where
  pub user_id : ℕ
  pub device_id : ℕ
  pub event_type : AlertEvent
  pub parameter : ℕ
  pub value : ℤ
  pub limit : Option ℤ

pub record Assignment : Type 0 where
  pub device_id : ℕ
  pub user_id : ℕ
  pub unassigned_at : Option ℕ

pub record DeviceRow : Type 0 where
  pub id : ℕ
  pub group_id : Option ℕ

abbrev pub Thresholds : Type 0
Thresholds = List (ℕ × ℤ)

pub record ThresholdRow : Type 0 where
  pub owner : ℕ  -- the device, or the group
  pub thresholds : Thresholds

-- `telemetry[param]`, where null and undefined are none
abbrev pub Telemetry : Type 0
Telemetry = ℕ → Option ℤ

-- The tables that the alerts use, and the messages handed to the SSE service.
pub record Store : Type 0 where
  pub devices : List DeviceRow
  pub assignments : List Assignment
  pub device_thresholds : List ThresholdRow
  pub group_thresholds : List ThresholdRow
  pub states : List AlertState
  pub event_logs : List EventLog
  pub notifications : List Notification
  pub sent : List Notification

-- DEFAULT_THRESHOLDS, under the numbers of the seven names.
abbrev pub default_thresholds : Thresholds
default_thresholds =
    (0, pos 4000)
    ∷ (1, pos 9000)
    ∷ (2, pos 100000)
    ∷ (3, pos 200000)
    ∷ (4, pos 5600)
    ∷ (5, pos 12000)
    ∷ (6, pos 11000)
    ∷ []

-- `Math.max(1, threshold * HYSTERESIS_PERCENT)`
abbrev pub hysteresis : ℤ → ℕ
hysteresis threshold = max 200 (pos_part threshold / 20)

abbrev pub resolve_limit : ℤ → ℤ
resolve_limit threshold = sub_ℕ (pos_part threshold) (neg_part threshold + hysteresis threshold)

pub data Decision : Type 0 where
  trigger resolve keep : Decision

-- The two tests of the loop's body.
unfoldable pub decide : Level → ℤ → ℤ → Decision
decide normal value threshold = if ltb_ℤ threshold value then trigger else keep
decide alerting value threshold = if ltb_ℤ value (resolve_limit threshold) then resolve else keep

abbrev pub is_key : (user_id device_id parameter : ℕ) → AlertState → Bool
is_key user_id device_id parameter s =
    (s.user_id == user_id) && (s.device_id == device_id) && (s.parameter == parameter)

abbrev pub is_null : Option ℕ → Bool
is_null none = true
is_null (some t) = false

abbrev pub is_assigned : ℕ → Assignment → Bool
is_assigned device_id a = (a.device_id == device_id) && is_null a.unassigned_at

abbrev pub owned_by : ℕ → ThresholdRow → Bool
owned_by owner r = r.owner == owner

-- `group: { devices: { some: { id: deviceId } } }`
abbrev pub has_member : List DeviceRow → ℕ → ThresholdRow → Bool
has_member [] device_id r = false
has_member (d ∷ ds) device_id r =
    let rest = has_member ds device_id r in
    if d.id == device_id
    then elim d.group_id [ none ↦ rest | some g ↦ if g == r.owner then true else rest ]
    else rest

abbrev pub in_users : List Assignment → ℕ → Bool
in_users [] user_id = false
in_users (a ∷ rest) user_id =
    let later = in_users rest user_id in if a.user_id == user_id then true else later

abbrev pub in_params : Thresholds → ℕ → Bool
in_params [] parameter = false
in_params ((p, t) ∷ rest) parameter =
    let later = in_params rest parameter in if p == parameter then true else later

-- `stateMap.get(key)?.state`: of rows with one key the last is kept.
abbrev pub snapshot : List AlertState → (user_id parameter : ℕ) → Option Level
snapshot [] user_id parameter = none
snapshot (s ∷ rest) user_id parameter =
    let later = snapshot rest user_id parameter in
    elim later [
      | some l ↦ some l
      | none ↦ if (s.user_id == user_id) && (s.parameter == parameter) then some s.state else none
    ]

-- `existingState?.state ?? 'NORMAL'`
abbrev pub or_normal : Option Level → Level
or_normal none = normal
or_normal (some l) = l

module _ (db : Prisma) where
  open db use {find_first, find_many, create, update_many}

  unfoldable pub upsert_alert_state : AlertState → List AlertState → List AlertState
  upsert_alert_state row states =
      elim (find_first (is_key row.user_id row.device_id row.parameter) states) [
        | none ↦ create row states
        | some s ↦
            update_many (is_key row.user_id row.device_id row.parameter)
              (λ t. record t { state = row.state; last_triggered_at = row.last_triggered_at })
              states
      ]

  -- triggerAlert and resolveAlert: the log, the notification, the state and the message
  record_change :
      AlertEvent → Level → Option ℤ → (device_id user_id parameter : ℕ) → ℤ → ℕ → Store → Store
  unfolding upsert_alert_state
  record_change event level limit device_id user_id parameter value now s =
      let note : Notification = record {
        user_id = user_id;
        device_id = device_id;
        event_type = event;
        parameter = parameter;
        value = value;
        limit = limit;
      } in
      record s {
        event_logs =
            create
              (record {
                device_id = device_id;
                user_id = user_id;
                event_type = event;
                parameter = parameter;
                value = value;
              })
              s.event_logs;
        notifications = create note s.notifications;
        states =
            upsert_alert_state
              (record {
                user_id = user_id;
                device_id = device_id;
                parameter = parameter;
                state = level;
                last_triggered_at = now;
              })
              s.states;
        sent = s.sent ++ note ∷ [];
      }

  trigger_alert : (device_id user_id parameter : ℕ) → ℤ → ℤ → ℕ → Store → Store
  unfolding record_change
  trigger_alert device_id user_id parameter value limit now =
      record_change alert_triggered alerting (some limit) device_id user_id parameter value now

  resolve_alert : (device_id user_id parameter : ℕ) → ℤ → ℕ → Store → Store
  unfolding record_change
  resolve_alert device_id user_id parameter value now =
      record_change alert_resolved normal none device_id user_id parameter value now

  module _ (device_id : ℕ) (telemetry : Telemetry) (states : List AlertState) (now : ℕ) where
    act : Decision → (user_id parameter : ℕ) → ℤ → ℤ → Store → Store
    unfolding trigger_alert resolve_alert
    act trigger user_id parameter value threshold s =
        trigger_alert device_id user_id parameter value threshold now s
    act resolve user_id parameter value threshold s =
        resolve_alert device_id user_id parameter value now s
    act keep user_id parameter value threshold s = s

    -- the body of the inner loop
    check_param : (user_id parameter : ℕ) → ℤ → Store → Store
    unfolding act decide
    check_param user_id parameter threshold s = elim (telemetry parameter) [
      | none ↦ s
      | some value ↦
          act (decide (or_normal (snapshot states user_id parameter)) value threshold) user_id
            parameter value threshold s
    ]

    check_params : ℕ → Thresholds → Store → Store
    check_params user_id [] s = s
    check_params user_id ((p, t) ∷ rest) s = check_params user_id rest (check_param user_id p t s)

    check_users : List Assignment → Thresholds → Store → Store
    check_users [] thresholds s = s
    check_users (a ∷ rest) thresholds s =
        check_users rest thresholds (check_params a.user_id thresholds s)

  unfoldable pub evaluate_with_thresholds : ℕ → Thresholds → Telemetry → ℕ → Store → Store
  unfolding check_users check_params check_param
  evaluate_with_thresholds device_id thresholds telemetry now s =
      let assignments = find_many (is_assigned device_id) s.assignments in
      let states =
        find_many
          (λ r.
            (r.device_id == device_id)
            && in_users assignments r.user_id
            && in_params thresholds r.parameter)
          s.states in
      check_users device_id telemetry states now assignments thresholds s

  -- device threshold, then group threshold, then the defaults
  unfoldable pub select_thresholds : ℕ → Store → Thresholds
  select_thresholds device_id s = elim (find_first (owned_by device_id) s.device_thresholds) [
    | some own ↦ own.thresholds
    | none ↦ elim (find_first (has_member s.devices device_id) s.group_thresholds) [
      | some group ↦ group.thresholds
      | none ↦ default_thresholds
    ]
  ]

  unfoldable pub evaluate : ℕ → Telemetry → ℕ → Store → Store
  unfolding evaluate_with_thresholds select_thresholds
  evaluate device_id telemetry now s =
      evaluate_with_thresholds device_id (select_thresholds device_id s) telemetry now s
