-- ===== src/Telemetry/Tests.antt =====
-- Runs of the telemetry consumer (src/mqtt/mqtt.consumer.ts) and of the offline detector
-- (src/mqtt/offline-detector.service.ts).
use gbi_backend.Base.{◌≡◌, refl, inl, true, false, none, some, [], ◌∷◌, arith, All, count_where}
use gbi_backend.Base.Int.{pos}
use gbi_backend.Schema.{DeviceStatus, Metrics, Device}
use gbi_backend.Prisma.Memory.{memory}
use gbi_backend.Redis.Memory.{memory_redis}
use gbi_backend.Alerts.{evaluate}
use gbi_backend.Telemetry.{
  State, Field, value, missing, nan, beat, handle_telemetry, check_offline_devices, invalid_fields,
  above_max, required,
}
use gbi_backend.Telemetry.Ingest.{has_message, handle_telemetry_overflow, handle_telemetry_twice}
use gbi_backend.Telemetry.Offline.{
  IsSilent, check_offline_devices_marks, handle_telemetry-check_offline_devices,
}

-- A message with all metrics; the temperature is 0.
abbrev full : Metrics Field
full = record {
  pm25 = value (pos 5000);
  pm10 = value (pos 2000);
  tvoc = value (pos 2000);
  co2 = value (pos 80000);
  temperature = value (pos 0);
  humidity = value (pos 8000);
  noise = value (pos 6000);
  aqi = value (pos 9000);
}

-- Device 7 is OFFLINE, and was heard last at 100.
abbrev station : Device
station = record {
  id = 7;
  device_id = 70;
  status = DeviceStatus.offline;
  last_heartbeat_at = some 100;
  is_deleted = false;
}

abbrev site : State memory_redis.Store
site = record {
  devices = station ∷ [];
  telemetry = [];
  alerts = record {
    devices = record { id = 7; group_id = none } ∷ [];
    assignments = record { device_id = 7; user_id = 1; unassigned_at = none } ∷ [];
    device_thresholds = [];
    group_thresholds = [];
    states = [];
    event_logs = [];
    notifications = [];
    sent = [];
  };
  event_logs = [];
  notifications = [];
  sent = [];
  emitted = [];
  redis = λ k. none;
  log = [];
}

-- The same, with the device ONLINE
abbrev awake : State memory_redis.Store
awake = record site { devices = record station { status = DeviceStatus.online } ∷ [] }

telemetry_unfold : Unit {0}
unfolding handle_telemetry check_offline_devices
telemetry_unfold = tt

back_online :
    (handle_telemetry memory memory_redis 70 (some 1) full 600 200 site).event_logs
    ≡ record { device_id = 7; user_id = 1; status = DeviceStatus.online } ∷ []
unfolding telemetry_unfold
back_online = refl

goes_offline :
    (check_offline_devices memory memory_redis 1000 2000
      (handle_telemetry memory memory_redis 70 (some 1) full 600 200 site)).devices
    ≡ record station { last_heartbeat_at = some 200 } ∷ []
unfolding telemetry_unfold evaluate
goes_offline = refl

invalid_runs :
    invalid_fields (record full { pm25 = value (pos 400200); co2 = nan true; noise = missing })
    ≡ (0, above_max) ∷ (3, required) ∷ []
invalid_runs = refl

handle_telemetry_overflow_example :
    record (handle_telemetry memory memory_redis 70
      (some 1)
      (record full { pm25 = value (pos 600000000000) })
      600
      200
      site) { log = site.log }
    ≡ site
handle_telemetry_overflow_example =
    handle_telemetry_overflow memory memory_redis 70 (some 1)
      (record full { pm25 = value (pos 600000000000) }) 600 200 site
      (inl (600000000000, refl, omega arith))

handle_telemetry_twice_example :
    count_where
      (has_message memory memory_redis 7 1)
      (handle_telemetry memory memory_redis 70
        (some 1)
        full
        600
        300
        (handle_telemetry memory memory_redis 70 (some 1) full 600 200 site)).telemetry
    ≡ 2
unfolding telemetry_unfold
handle_telemetry_twice_example =
    handle_telemetry_twice memory memory_redis 70 1 station (beat DeviceStatus.online 200 station)
      full 600 200 300 site refl refl refl refl refl refl refl refl

check_offline_devices_marks_example :
    All
      (λ d. IsSilent memory memory_redis 1000 2000 d → d.status ≡ DeviceStatus.offline)
      (check_offline_devices memory memory_redis 1000 2000 awake).devices
check_offline_devices_marks_example =
    check_offline_devices_marks memory memory_redis 1000 2000 awake

handle_telemetry-check_offline_devices_example :
    All
      (λ d. d.id ≡ 7 → d.status ≡ DeviceStatus.online)
      (check_offline_devices memory memory_redis 1000 1200
        (handle_telemetry memory memory_redis 70 (some 1) full 600 200 site)).devices
handle_telemetry-check_offline_devices_example =
    handle_telemetry-check_offline_devices memory memory_redis 1000 70 1 station full 600 200 1200
      site refl refl refl refl (omega arith)
