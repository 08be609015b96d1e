-- ===== src/Telemetry.antt =====
-- Telemetry and the presence of devices: src/mqtt/mqtt.consumer.ts (handleTelemetry),
-- src/mqtt/offline-detector.service.ts and src/mqtt/dto/telemetry-payload.dto.ts. The names of
-- devices, which stand in log lines and messages only, are left out.
pub mod Ingest
pub mod Offline
mod Tests
use gbi_backend.Base.{
  ℕ, ◌+◌, ◌*◌, Bool, true, false, not, ◌&&◌, ◌||◌, Option, none, some, List, [], ◌∷◌, ◌++◌, leb,
  ltb, ◌==◌, is_some, if◌then◌else◌,
}
use gbi_backend.Base.Int.{ℤ, pos, negsuc, ltb_ℤ}
use gbi_backend.Schema.{DeviceStatus, Metrics, Device, DeviceTelemetry, LatestState}
use gbi_backend.Prisma.{Prisma}
use gbi_backend.Redis.{Redis, user_devices, device_latest, Value}
use gbi_backend.Alerts.{Assignment, Telemetry, is_assigned, evaluate}

-- A metric of the DTO after its transformation: undefined, NaN (and whether the payload had an empty
-- text there), or a number in units of 1/200.
pub data Field : Type 0 where
  missing : Field
  nan : Bool → Field
  value : ℤ → Field

pub data ErrorCode : Type 0 where
  required not_a_number below_min above_max : ErrorCode

pub data LogEntry : Type 0 where
  device_not_found device_is_deleted missing_message_id : ℕ → LogEntry
  validation_failed : ℕ → List (ℕ × ErrorCode) → LogEntry
  duplicate_ignored saved : ℕ → ℕ → LogEntry
  save_failed : ℕ → LogEntry

-- What is handed to the realtime service.
pub data Emission : Type 0 where
  telemetry : ℕ → DeviceTelemetry → Emission
  device_status : ℕ → DeviceStatus → Emission

-- An event log ONLINE or OFFLINE, a notification of it, or a message of it to the user.
pub record StatusEvent : Type 0 where
  pub device_id : ℕ
  pub user_id : ℕ
  pub status : DeviceStatus

-- The alerts' tables hold the assignments, and their own columns of the devices.
pub record State (Store : Type 0) : Type 0 where
  pub devices : List Device
  pub telemetry : List DeviceTelemetry
  pub alerts : gbi_backend.Alerts.Store
  pub event_logs : List StatusEvent
  pub notifications : List StatusEvent
  pub sent : List StatusEvent
  pub emitted : List Emission
  pub redis : Store
  pub log : List LogEntry

abbrev pub status_eq : DeviceStatus → DeviceStatus → Bool
status_eq DeviceStatus.active DeviceStatus.active = true
status_eq DeviceStatus.warning DeviceStatus.warning = true
status_eq DeviceStatus.offline DeviceStatus.offline = true
status_eq DeviceStatus.online DeviceStatus.online = true
status_eq _ _ = false

abbrev pub is_zero : ℤ → Bool
is_zero (pos n) = n == 0
is_zero (negsuc n) = false

abbrev pub sanitize : Bool → Field → Option ℤ
sanitize allow_zero missing = none
sanitize allow_zero (nan blank) = none
sanitize allow_zero (value v) = if is_zero v && not allow_zero then none else some v

abbrev pub sanitized : Metrics Field → Metrics (Option ℤ)
sanitized dto = record {
  pm25 = sanitize false dto.pm25;
  pm10 = sanitize false dto.pm10;
  tvoc = sanitize false dto.tvoc;
  co2 = sanitize false dto.co2;
  temperature = sanitize true dto.temperature;
  humidity = sanitize false dto.humidity;
  noise = sanitize false dto.noise;
  aqi = sanitize false dto.aqi;
}

abbrev pub all_metrics_present : Metrics (Option ℤ) → Bool
all_metrics_present m =
    is_some m.pm25
    && is_some m.pm10
    && is_some m.tvoc
    && is_some m.co2
    && is_some m.temperature
    && is_some m.humidity
    && is_some m.noise
    && is_some m.aqi

-- Whether an `Int` column holds the value: a null, or 32 bits with a sign. The DTO rounds these
-- metrics, so that the value is a whole number of 200 of the units.
abbrev pub fits_int : Option ℤ → Bool
fits_int none = true
fits_int (some (pos n)) = leb n (2147483647 * 200)
fits_int (some (negsuc n)) = ltb n (2147483648 * 200)

-- Whether the row can be created: temperature and humidity are `Float` columns.
abbrev pub fits_columns : Metrics (Option ℤ) → Bool
fits_columns m =
    fits_int m.pm25
    && fits_int m.pm10
    && fits_int m.tvoc
    && fits_int m.co2
    && fits_int m.noise
    && fits_int m.aqi

abbrev pub new_status : Metrics (Option ℤ) → DeviceStatus
new_status m = if all_metrics_present m then DeviceStatus.online else DeviceStatus.warning

-- The error of a field under its rules `@Min` and `@Max`
abbrev pub field_error : ℤ → ℤ → Field → Option ErrorCode
field_error low high missing = none
field_error low high (nan true) = some required
field_error low high (nan false) = some not_a_number
field_error low high (value v) =
    if ltb_ℤ v low then some below_min else if ltb_ℤ high v then some above_max else none

abbrev pub with_error : ℕ → Option ErrorCode → List (ℕ × ErrorCode) → List (ℕ × ErrorCode)
with_error parameter none rest = rest
with_error parameter (some code) rest = (parameter, code) ∷ rest

-- The invalid fields, under the numbers of the metrics; temperature may be negative.
abbrev pub invalid_fields : Metrics Field → List (ℕ × ErrorCode)
invalid_fields dto = with_error 0 (field_error (pos 0) (pos 400000) dto.pm25) (
    with_error 1 (field_error (pos 0) (pos 400000) dto.pm10) (
      with_error 2 (field_error (pos 0) (pos 12000000) dto.tvoc) (
        with_error 3 (field_error (pos 0) (pos 4000000) dto.co2) (
          with_error 4 (field_error (negsuc 9999) (pos 20000) dto.temperature) (
            with_error 5 (field_error (pos 0) (pos 20000) dto.humidity) (
              with_error 6 (field_error (pos 0) (pos 40000) dto.noise)
                (with_error 7 (field_error (pos 0) (pos 100000) dto.aqi) [])))))))

-- `dto[param]` as the alerts see it: a comparison with NaN is false, like one with nothing.
abbrev pub reading_of : Field → Option ℤ
reading_of missing = none
reading_of (nan blank) = none
reading_of (value v) = some v

abbrev pub readings : Metrics Field → Telemetry
readings dto parameter =
    if parameter == 0
    then reading_of dto.pm25
    else if parameter == 1
    then reading_of dto.pm10
    else if parameter == 2
    then reading_of dto.tvoc
    else if parameter == 3
    then reading_of dto.co2
    else if parameter == 4
    then reading_of dto.temperature
    else if parameter == 5
    then reading_of dto.humidity
    else if parameter == 6
    then reading_of dto.noise
    else if parameter == 7
    then reading_of dto.aqi
    else none

abbrev pub has_device_id : ℕ → Device → Bool
has_device_id device_id d = d.device_id == device_id

abbrev pub has_id : ℕ → Device → Bool
has_id id d = d.id == id

-- The primary key of a telemetry row
abbrev pub at_instant : ℕ → ℕ → DeviceTelemetry → Bool
at_instant id now r = (r.device_id == id) && (r.timestamp == now)

abbrev pub beat : DeviceStatus → ℕ → Device → Device
beat status now d = record d { status = status; last_heartbeat_at = some now }

abbrev pub is_before : Option ℕ → ℕ → ℕ → Bool
is_before none timeout now = false
is_before (some t) timeout now = ltb (t + timeout) now

-- not deleted, not OFFLINE, and without a heartbeat since the cutoff
abbrev pub is_dead : ℕ → ℕ → Device → Bool
is_dead timeout now d =
    not d.is_deleted
    && not (status_eq d.status DeviceStatus.offline)
    && is_before d.last_heartbeat_at timeout now

abbrev pub switched_off : Device → Device
switched_off d = record d { status = DeviceStatus.offline }

module _ (db : Prisma) (kv : Redis) where
  open db use {find_first, find_many, create, update_many}
  open kv use {Store, set_ex, del}

  -- `redis.del` of the device lists of the assigned users
  forget_lists : List Assignment → Store → Store
  forget_lists [] r = r
  forget_lists (a ∷ rest) r = forget_lists rest (del (user_devices a.user_id) r)

  -- an event log, a notification and a message for each assigned user
  pub notify : ℕ → DeviceStatus → List Assignment → State kv.Store → State kv.Store
  notify id status [] s = s
  notify id status (a ∷ rest) s =
      let event : StatusEvent = record { device_id = id; user_id = a.user_id; status = status } in
      notify id status rest (record s {
        event_logs = create event s.event_logs;
        notifications = create event s.notifications;
        sent = s.sent ++ event ∷ [];
      })

  -- the branch for a changed status
  report_change : Device → DeviceStatus → List Assignment → State Store → State Store
  unfolding forget_lists
  report_change device status assignments s =
      if status_eq device.status status then s else record s {
        emitted = s.emitted ++ device_status device.device_id status ∷ [];
        redis = forget_lists assignments s.redis;
      }

  -- both branches, the second for a device that was OFFLINE and is ONLINE
  announce : Device → DeviceStatus → State Store → State Store
  unfolding report_change notify
  announce device status s =
      let assignments = find_many (is_assigned device.id) s.alerts.assignments in
      let changed = report_change device status assignments s in
      if status_eq device.status DeviceStatus.offline && status_eq status DeviceStatus.online
      then notify device.id DeviceStatus.online assignments changed
      else changed

  logged : LogEntry → State Store → State Store
  logged entry s = record s { log = s.log ++ entry ∷ [] }

  -- the transaction, and what is logged and emitted of it
  store_row : Device → DeviceTelemetry → DeviceStatus → State Store → State Store
  store_row device row status s = record s {
    telemetry = create row s.telemetry;
    devices = update_many (has_id device.id) (beat status row.timestamp) s.devices;
    log = s.log ++ saved device.device_id row.message_id ∷ [];
    emitted = s.emitted ++ telemetry device.device_id row ∷ [];
  }

  -- the alerts, and the latest state in Redis, which lives for `ttl` seconds
  finish : Device → DeviceTelemetry → DeviceStatus → Metrics Field → ℕ → State Store → State Store
  finish device row status dto ttl s = record s {
    alerts = evaluate db device.id (readings dto) row.timestamp s.alerts;
    redis =
        set_ex (device_latest device.device_id)
          (Value.state (record {
            message_id = row.message_id;
            timestamp = row.timestamp;
            status = status;
            last_heartbeat_at = row.timestamp;
            metrics = row.metrics;
          }))
          ttl row.timestamp s.redis;
  }

  -- from the transaction on, which fails where a column cannot hold its value, and where a row has
  -- the key already
  save : Device → ℕ → Metrics Field → (ttl now : ℕ) → State Store → State Store
  unfolding announce logged store_row finish
  save device message_id dto ttl now s =
      let metrics = sanitized dto in
      let status = new_status metrics in
      let row : DeviceTelemetry = record {
        device_id = device.id;
        timestamp = now;
        message_id = message_id;
        metrics = metrics;
      } in
      if not (fits_columns metrics)
      then logged (save_failed device.device_id) s
      else elim (find_first (at_instant device.id now) s.telemetry) [
        | some old ↦ logged (duplicate_ignored device.device_id message_id) s
        | none ↦
            finish device row status dto ttl
              (announce device status (store_row device row status s))
      ]

  log_invalid : ℕ → List (ℕ × ErrorCode) → State Store → State Store
  unfolding logged
  log_invalid device_id [] s = s
  log_invalid device_id (e ∷ rest) s = logged (validation_failed device_id (e ∷ rest)) s

  -- `none` for a message without an id
  unfoldable pub handle_telemetry :
      ℕ → Option ℕ → Metrics Field → (ttl now : ℕ) → State kv.Store → State kv.Store
  unfolding save logged log_invalid
  handle_telemetry device_id message_id dto ttl now s =
      elim (find_first (has_device_id device_id) s.devices) [
        | none ↦ logged (device_not_found device_id) s
        | some device ↦
            if device.is_deleted then logged (device_is_deleted device_id) s else elim message_id [
              | none ↦
                  logged (missing_message_id device_id)
                    (log_invalid device_id (invalid_fields dto) s)
              | some m ↦ save device m dto ttl now (log_invalid device_id (invalid_fields dto) s)
            ]
      ]

  -- the loop over the dead devices
  report_offline : List Device → State Store → State Store
  unfolding forget_lists notify
  report_offline [] s = s
  report_offline (d ∷ rest) s =
      let assignments = find_many (is_assigned d.id) s.alerts.assignments in
      let told =
        notify d.id DeviceStatus.offline assignments (record s {
          emitted = s.emitted ++ device_status d.device_id DeviceStatus.offline ∷ [];
        }) in
      report_offline rest (record told { redis = forget_lists assignments told.redis })

  -- `timeout` is intervalSeconds * thresholdMisses in milliseconds.
  unfoldable pub check_offline_devices : (timeout now : ℕ) → State kv.Store → State kv.Store
  unfolding report_offline
  check_offline_devices timeout now s = elim (find_many (is_dead timeout now) s.devices) [
    | [] ↦ s
    | d ∷ rest ↦
        report_offline (d ∷ rest)
          (record s { devices = update_many (is_dead timeout now) switched_off s.devices })
  ]
