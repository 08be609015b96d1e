-- ===== src/Telemetry/Offline.antt =====
-- The offline detector of src/mqtt/offline-detector.service.ts, together with the heartbeats of
-- src/mqtt/mqtt.consumer.ts.
use gbi_backend.Base.{
  ℕ, ◌+◌, ◌≡◌, ◌≤◌, ◌<◌, refl, sym, ◌∙◌, inl, inr, true, false, none, some, List, [], ◌∷◌, ◌++◌,
  Bool-cases, arith, update_where, update_where_unmatched, All, All-update_where, All-of_members,
  All-imp,
}
use gbi_backend.Schema.{DeviceStatus, Metrics, Device}
use gbi_backend.Prisma.{Prisma}
use gbi_backend.Prisma.Unique.{find_many-none}
use gbi_backend.Redis.{Redis}
use gbi_backend.Alerts.{is_assigned}
use gbi_backend.Telemetry.{
  State, Field, fits_columns, sanitized, new_status, has_device_id, has_id, at_instant, beat,
  status_eq, is_before, is_dead, switched_off, notify, forget_lists, report_offline,
  check_offline_devices, handle_telemetry, Emission,
}
use gbi_backend.Telemetry.Ingest.{handle_telemetry_effect, notify_keeps}

module _ (db : Prisma) (kv : Redis) (timeout : ℕ) where
  report_offline_keeps :
      (dead : List Device) (s : State kv.Store) → (report_offline db kv dead s).devices ≡ s.devices
  unfolding report_offline
  report_offline_keeps [] s = refl
  report_offline_keeps (d ∷ rest) s =
      let users = db.find_many (is_assigned d.id) s.alerts.assignments in
      let spoken : State kv.Store = record s {
        emitted = s.emitted ++ Emission.device_status d.device_id DeviceStatus.offline ∷ [];
      } in
      let told = notify db kv d.id DeviceStatus.offline users spoken in
      let (a, _, _) = notify_keeps db kv d.id DeviceStatus.offline users spoken in
      report_offline_keeps rest (record told { redis = forget_lists db kv users told.redis }) ∙ a

  none_dead :
      (now : ℕ) (rows : List Device)
      → db.find_many (is_dead timeout now) rows ≡ []
      → All (λ d. is_dead timeout now d ≡ false) rows
  none_dead now rows e =
      All-of_members (λ d. is_dead timeout now d ≡ false) rows
        (λ d m. elim (Bool-cases (is_dead timeout now d)) [
          | inl dead ↦
              let found = rw e at (db.find_many_complete (is_dead timeout now) rows d m dead) in
              absurd (elim found [ ])
          | inr alive ↦ alive
        ])

  -- Exactly the dead devices are switched off.
  pub check_offline_devices_effect :
      (now : ℕ) (s : State kv.Store)
      → (check_offline_devices db kv timeout now s).devices
        ≡ update_where (is_dead timeout now) switched_off s.devices
  unfolding check_offline_devices
  check_offline_devices_effect now s = go (db.find_many (is_dead timeout now) s.devices) refl
    where
      go :
          (dead : List Device)
          → db.find_many (is_dead timeout now) s.devices ≡ dead
          → (check_offline_devices db kv timeout now s).devices
            ≡ update_where (is_dead timeout now) switched_off s.devices
      go [] e =
          rw (e, check_offline_devices)
            (sym (
              update_where_unmatched (is_dead timeout now) switched_off s.devices
                (none_dead now s.devices e)))
      go (d ∷ rest) e =
          rw (e, check_offline_devices)
            (report_offline_keeps (d ∷ rest) _
              ∙ db.update_many_lem (is_dead timeout now) switched_off s.devices)

  switched_off_alive :
      (now : ℕ) (rows : List Device)
      → All
          (λ d. is_dead timeout now d ≡ false)
          (update_where (is_dead timeout now) switched_off rows)
  switched_off_alive now rows =
      All-update_where (λ d. Unit {0}) (λ d. is_dead timeout now d ≡ false) (is_dead timeout now)
        switched_off rows (λ d u h. ground arith) (λ d u h. h)
        (All-of_members (λ d. Unit {0}) rows (λ d m. tt))

  -- A second run of the offline detector at the same time changes nothing: it writes, logs and
  -- sends nothing more.
  pub check_offline_devices_again :
      (now : ℕ) (s : State kv.Store)
      → check_offline_devices db kv timeout now (check_offline_devices db kv timeout now s)
        ≡ check_offline_devices db kv timeout now s
  check_offline_devices_again now s = quiet (check_offline_devices db kv timeout now s) nothing
    where
      nothing :
          db.find_many (is_dead timeout now) (check_offline_devices db kv timeout now s).devices
          ≡ []
      nothing =
          find_many-none db (is_dead timeout now)
            (check_offline_devices db kv timeout now s).devices
            (rw (check_offline_devices_effect now s) (switched_off_alive now s.devices))

      quiet :
          (t : State kv.Store)
          → db.find_many (is_dead timeout now) t.devices ≡ []
          → check_offline_devices db kv timeout now t ≡ t
      quiet t h = unfold check_offline_devices in ground arith

  silent_before :
      (d : Device) (t now : ℕ)
      → d.last_heartbeat_at ≡ some t
      → t + timeout < now
      → is_before d.last_heartbeat_at timeout now ≡ true
  silent_before d t now e late = rw e (ground arith)

  -- Not deleted, and silent for longer than the timeout
  abbrev pub IsSilent : ℕ → Device → Type 0
  IsSilent now d =
      (d.is_deleted ≡ false) × ((t : ℕ) × (d.last_heartbeat_at ≡ some t) × (t + timeout < now))

  -- After a run of the offline detector every device that is not deleted and whose last
  -- heartbeat is older than the timeout is OFFLINE.
  pub check_offline_devices_marks :
      (now : ℕ) (s : State kv.Store)
      → All
          (λ d. IsSilent now d → d.status ≡ DeviceStatus.offline)
          (check_offline_devices db kv timeout now s).devices
  check_offline_devices_marks now s = rw (check_offline_devices_effect now s) (
      All-imp (λ d. is_dead timeout now d ≡ false)
        (λ d. IsSilent now d → d.status ≡ DeviceStatus.offline)
        (update_where (is_dead timeout now) switched_off s.devices)
        (λ d alive (k, (t, e, late)).
          let b = silent_before d t now e late in offline_of_eq d.status (ground arith))
        (switched_off_alive now s.devices))
    where
      offline_of_eq :
          (st : DeviceStatus) → status_eq st DeviceStatus.offline ≡ true → st ≡ DeviceStatus.offline
      offline_of_eq DeviceStatus.active h = absurd (ground arith)
      offline_of_eq DeviceStatus.warning h = absurd (ground arith)
      offline_of_eq DeviceStatus.offline h = refl
      offline_of_eq DeviceStatus.online h = absurd (ground arith)

  -- After a message of a device that is found and not deleted, at an instant for which it has no
  -- row, and whose metrics fit their columns, a run of the offline detector up to the timeout
  -- later leaves the device in the status that the message gave it.
  pub handle_telemetry-check_offline_devices :
      (device_id m : ℕ) (device : Device) (dto : Metrics Field) (ttl now later : ℕ)
      (s : State kv.Store)
      → db.find_first (has_device_id device_id) s.devices ≡ some device
      → device.is_deleted ≡ false
      → fits_columns (sanitized dto) ≡ true
      → db.find_first (at_instant device.id now) s.telemetry ≡ none
      → later ≤ now + timeout
      → All
          (λ d. d.id ≡ device.id → d.status ≡ new_status (sanitized dto))
          (check_offline_devices db kv timeout later
            (handle_telemetry db kv device_id (some m) dto ttl now s)).devices
  handle_telemetry-check_offline_devices device_id m device dto ttl now later s e live fit h le =
      let heard = handle_telemetry db kv device_id (some m) dto ttl now s in
      let status = new_status (sanitized dto) in
      let (a, _, _) = handle_telemetry_effect db kv device_id m device dto ttl now s e live fit h in
      rw (check_offline_devices_effect later heard, a)
        (All-update_where
          (λ d. d.id ≡ device.id → (d.status ≡ status) × (d.last_heartbeat_at ≡ some now))
          (λ d. d.id ≡ device.id → d.status ≡ status) (is_dead timeout later) switched_off
          (update_where (has_id device.id) (beat status now) s.devices)
          (λ d p dead same. let (_, b) = p same in absurd (ground arith))
          (λ d p alive same. let (st, _) = p same in st)
          (All-update_where (λ d. Unit {0})
            (λ d. d.id ≡ device.id → (d.status ≡ status) × (d.last_heartbeat_at ≡ some now))
            (has_id device.id) (beat status now) s.devices (λ d u hit same. (refl, refl))
            (λ d u miss same. absurd (ground arith))
            (All-of_members (λ d. Unit {0}) s.devices (λ d m. tt))))
