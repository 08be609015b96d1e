-- ===== src/Telemetry/Ingest.antt =====
-- What one message does: handleTelemetry of src/mqtt/mqtt.consumer.ts.
use gbi_backend.Base.{
  ℕ, suc, ◌≡◌, ◌⊎◌, refl, ◌∙◌, ap, inl, inr, Bool, true, false, not, ◌&&◌, Option, none, some, List,
  [], ◌∷◌, ◌++◌, Bool-cases, Option-cases, arith, ◌<◌, leb, ◌==◌, update_where, count_where,
  count_where-append_one,
}
use gbi_backend.Base.Int.{ℤ, pos}
use gbi_backend.Schema.{DeviceStatus, Metrics, Device, DeviceTelemetry}
use gbi_backend.Prisma.{Prisma}
use gbi_backend.Redis.{Redis}
use gbi_backend.Alerts.{Assignment, is_assigned, evaluate}
use gbi_backend.Telemetry.{
  save_failed, fits_int, fits_columns, Field, value, State, StatusEvent, sanitize, sanitized,
  new_status, invalid_fields, readings, has_device_id, has_id, at_instant, beat, is_zero, ErrorCode,
  notify, report_change, announce, store_row, finish, save, logged, log_invalid, handle_telemetry,
  status_eq,
}

-- A number, which is not zero unless that is allowed
abbrev pub IsReading : Bool → Field → Type 0
IsReading allow_zero f = (v : ℤ) × (f ≡ value v) × ((is_zero v && not allow_zero) ≡ false)

module _ (db : Prisma) (kv : Redis) where
  -- The tables that a report of a status does not touch
  abbrev Kept : State kv.Store → State kv.Store → Type 0
  Kept s t = (t.devices ≡ s.devices) × (t.telemetry ≡ s.telemetry) × (t.alerts ≡ s.alerts)

  pub notify_keeps :
      (id : ℕ) (status : DeviceStatus) (users : List Assignment) (s : State kv.Store)
      → Kept s (notify db kv id status users s)
  unfolding notify
  notify_keeps id status [] s = (refl, refl, refl)
  notify_keeps id status (a ∷ rest) s =
      let event : StatusEvent = record { device_id = id; user_id = a.user_id; status = status } in
      notify_keeps id status rest (record s {
        event_logs = db.create event s.event_logs;
        notifications = db.create event s.notifications;
        sent = s.sent ++ event ∷ [];
      })

  report_change_keeps :
      (device : Device) (status : DeviceStatus) (users : List Assignment) (s : State kv.Store)
      → Kept s (report_change db kv device status users s)
  unfolding report_change
  report_change_keeps device status users s = elim (Bool-cases (status_eq device.status status)) [
    | inl same ↦ (ground arith, ground arith, ground arith)
    | inr other ↦ (ground arith, ground arith, ground arith)
  ]

  announce_keeps :
      (device : Device) (status : DeviceStatus) (s : State kv.Store)
      → Kept s (announce db kv device status s)
  unfolding announce
  announce_keeps device status s =
      let users = db.find_many (is_assigned device.id) s.alerts.assignments in
      let changed = report_change db kv device status users s in
      let (a, b, c) = report_change_keeps device status users s in
      let (a', b', c') = notify_keeps device.id DeviceStatus.online users changed in
      (ground arith, ground arith, ground arith)

  log_invalid_keeps :
      (device_id : ℕ) (errors : List (ℕ × ErrorCode)) (s : State kv.Store)
      → Kept s (log_invalid db kv device_id errors s)
  unfolding log_invalid logged
  log_invalid_keeps device_id [] s = (refl, refl, refl)
  log_invalid_keeps device_id (e ∷ rest) s = (refl, refl, refl)

  -- The row that a message leaves
  abbrev pub row_of : Device → ℕ → Metrics Field → ℕ → DeviceTelemetry
  row_of device m dto now = record {
    device_id = device.id;
    timestamp = now;
    message_id = m;
    metrics = sanitized dto;
  }

  save_effect :
      (device : Device) (m : ℕ) (dto : Metrics Field) (ttl now : ℕ) (s : State kv.Store)
      → fits_columns (sanitized dto) ≡ true
      → db.find_first (at_instant device.id now) s.telemetry ≡ none
      → ((save db kv device m dto ttl now s).devices
          ≡ update_where (has_id device.id) (beat (new_status (sanitized dto)) now) s.devices)
        × ((save db kv device m dto ttl now s).telemetry
            ≡ s.telemetry ++ row_of device m dto now ∷ [])
        × ((save db kv device m dto ttl now s).alerts
            ≡ evaluate db device.id (readings dto) now s.alerts)
  unfolding save store_row finish
  save_effect device m dto ttl now s fit h =
      let status = new_status (sanitized dto) in
      let row = row_of device m dto now in
      let (a, b, c) = announce_keeps device status (store_row db kv device row status s) in
      (
        rw (fit, h, save) (a ∙ db.update_many_lem (has_id device.id) (beat status now) s.devices),
        rw (fit, h, save) (b ∙ db.create_lem row s.telemetry),
        rw (fit, h, save) (ap (evaluate db device.id (readings dto) now) c),
      )

  -- A message with an id, of a device that is there, is saved.
  reaches_save :
      (device_id m : ℕ) (device : Device) (dto : Metrics Field) (ttl now : ℕ) (s : State kv.Store)
      → db.find_first (has_device_id device_id) s.devices ≡ some device
      → device.is_deleted ≡ false
      → handle_telemetry db kv device_id (some m) dto ttl now s
        ≡ save db kv device m dto ttl now (log_invalid db kv device_id (invalid_fields dto) s)
  unfolding handle_telemetry
  reaches_save device_id m device dto ttl now s e live = ground arith

  -- What a message changes in the tables, where its metrics fit their columns
  pub handle_telemetry_effect :
      (device_id m : ℕ) (device : Device) (dto : Metrics Field) (ttl now : ℕ) (s : State kv.Store)
      → db.find_first (has_device_id device_id) s.devices ≡ some device
      → device.is_deleted ≡ false
      → fits_columns (sanitized dto) ≡ true
      → db.find_first (at_instant device.id now) s.telemetry ≡ none
      → ((handle_telemetry db kv device_id (some m) dto ttl now s).devices
          ≡ update_where (has_id device.id) (beat (new_status (sanitized dto)) now) s.devices)
        × ((handle_telemetry db kv device_id (some m) dto ttl now s).telemetry
            ≡ s.telemetry ++ row_of device m dto now ∷ [])
        × ((handle_telemetry db kv device_id (some m) dto ttl now s).alerts
            ≡ evaluate db device.id (readings dto) now s.alerts)
  handle_telemetry_effect device_id m device dto ttl now s e live fit h =
      let told = log_invalid db kv device_id (invalid_fields dto) s in
      let (a, b, c) = log_invalid_keeps device_id (invalid_fields dto) s in
      let (a', b', c') = save_effect device m dto ttl now told fit (rw b h) in
      let it = reaches_save device_id m device dto ttl now s e live in
      (
        rw it (a' ∙ ap (update_where (has_id device.id) (beat (new_status (sanitized dto)) now)) a),
        rw it (b' ∙ ap (λ rows. rows ++ row_of device m dto now ∷ []) b),
        rw it (c' ∙ ap (evaluate db device.id (readings dto) now) c),
      )

  log_invalid_logs :
      (device_id : ℕ) (errors : List (ℕ × ErrorCode)) (s : State kv.Store)
      → record (log_invalid db kv device_id errors s) { log = s.log } ≡ s
  unfolding log_invalid logged
  log_invalid_logs device_id [] s = refl
  log_invalid_logs device_id (e ∷ rest) s = refl

  -- A metric that is a number above 2147483647, in units of 1/200
  abbrev pub IsBeyond : Field → Type 0
  IsBeyond f = (n : ℕ) × (f ≡ value (pos n)) × (429496729400 < n)

  beyond_unfit : (f : Field) → IsBeyond f → fits_int (sanitize false f) ≡ false
  beyond_unfit f (n, e, h) =
      let z : (n == 0) ≡ false = ground arith in
      let w : leb n 429496729400 ≡ false = ground arith in rw (e, z) w

  abbrev pub IsOverflowing : Metrics Field → Type 0
  IsOverflowing dto =
      IsBeyond dto.pm25
      ⊎ IsBeyond dto.pm10
      ⊎ IsBeyond dto.tvoc
      ⊎ IsBeyond dto.co2
      ⊎ IsBeyond dto.noise
      ⊎ IsBeyond dto.aqi

  overflowing_unfit :
      (dto : Metrics Field) → IsOverflowing dto → fits_columns (sanitized dto) ≡ false
  overflowing_unfit dto (inl h) = let k = beyond_unfit dto.pm25 h in ground arith
  overflowing_unfit dto (inr (inl h)) = let k = beyond_unfit dto.pm10 h in ground arith
  overflowing_unfit dto (inr (inr (inl h))) = let k = beyond_unfit dto.tvoc h in ground arith
  overflowing_unfit dto (inr (inr (inr (inl h)))) = let k = beyond_unfit dto.co2 h in ground arith
  overflowing_unfit dto (inr (inr (inr (inr (inl h))))) =
      let k = beyond_unfit dto.noise h in ground arith
  overflowing_unfit dto (inr (inr (inr (inr (inr h))))) =
      let k = beyond_unfit dto.aqi h in ground arith

  unfit_logs :
      (device : Device) (m : ℕ) (dto : Metrics Field) (ttl now : ℕ) (s : State kv.Store)
      → fits_columns (sanitized dto) ≡ false
      → save db kv device m dto ttl now s ≡ logged db kv (save_failed device.device_id) s
  unfolding save
  unfit_logs device m dto ttl now s h = rw h refl

  -- A message in which PM2.5, PM10, TVOC, CO2, the noise or the AQI is a number above 2147483647
  -- changes nothing but the log, whether or not its device is found: no status, no heartbeat, no
  -- row, no alert, no notification, and nothing is emitted.
  pub handle_telemetry_overflow :
      (device_id : ℕ) (message_id : Option ℕ) (dto : Metrics Field) (ttl now : ℕ)
      (s : State kv.Store)
      → IsOverflowing dto
      → record (handle_telemetry db kv device_id message_id dto ttl now s) { log = s.log } ≡ s
  unfolding handle_telemetry logged
  handle_telemetry_overflow device_id message_id dto ttl now s h =
      let told = log_invalid db kv device_id (invalid_fields dto) s in
      let kept = log_invalid_logs device_id (invalid_fields dto) s in
      elim (Option-cases (db.find_first (has_device_id device_id) s.devices)) [
        | inl e ↦ ground arith
        | inr (device, e) ↦ elim (Bool-cases device.is_deleted) [
          | inl gone ↦ ground arith
          | inr live ↦ elim (Option-cases message_id) [
            | inl q ↦ ground arith
            | inr (m, q) ↦
                let k = unfit_logs device m dto ttl now told (overflowing_unfit dto h) in
                ground arith
          ]
        ]
      ]

  abbrev pub has_message : ℕ → ℕ → DeviceTelemetry → Bool
  has_message id m r = (r.device_id == id) && (r.message_id == m)

  -- A message whose metrics fit their columns that comes a second time, while its device is
  -- found and not deleted both times and has no row at either instant, is stored a second time:
  -- the rows of the device with its id become two more than before both.
  pub handle_telemetry_twice :
      (device_id m : ℕ) (device again : Device) (dto : Metrics Field) (ttl now later : ℕ)
      (s : State kv.Store)
      → db.find_first (has_device_id device_id) s.devices ≡ some device
      → device.is_deleted ≡ false
      → fits_columns (sanitized dto) ≡ true
      → db.find_first (at_instant device.id now) s.telemetry ≡ none
      → db.find_first
          (has_device_id device_id)
          (handle_telemetry db kv device_id (some m) dto ttl now s).devices
        ≡ some again
      → again.is_deleted ≡ false
      → again.id ≡ device.id
      → db.find_first
          (at_instant again.id later)
          (handle_telemetry db kv device_id (some m) dto ttl now s).telemetry
        ≡ none
      → count_where
          (has_message device.id m)
          (handle_telemetry db kv device_id
            (some m)
            dto
            ttl
            later
            (handle_telemetry db kv device_id (some m) dto ttl now s)).telemetry
        ≡ suc (suc (count_where (has_message device.id m) s.telemetry))
  handle_telemetry_twice device_id m device again dto ttl now later s e live fit h e' live' same
        h' =
      let once = handle_telemetry db kv device_id (some m) dto ttl now s in
      let (_, a, _) = handle_telemetry_effect device_id m device dto ttl now s e live fit h in
      let (_, b, _) =
        handle_telemetry_effect device_id m again dto ttl later once e' live' fit h' in
      rw
        (
          b,
          a,
          count_where-append_one (has_message device.id m)
              (s.telemetry ++ row_of device m dto now ∷ []) (row_of again m dto later),
          count_where-append_one (has_message device.id m) s.telemetry (row_of device m dto now),
        )
        (ground arith)
