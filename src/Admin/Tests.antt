-- ===== src/Admin/Tests.antt =====
-- Runs of the administration (src/module/admin).
use gbi_backend.Base.{Memᴰ}
use gbi_backend.Base.{
  ℕ, ◌≡◌, ◌≢◌, ◌≤◌, ◌+◌, refl, true, false, none, some, Option, List, [], ◌∷◌, text_eq, All,
  Distinct, length, select,
}
use gbi_backend.Base.Normal.{normalize}
use gbi_backend.Base.Texts.{codes}
use gbi_backend.Http.{ok, err, conflict, device_claimed}
use gbi_backend.Schema.{PremiumStatus, User, RefreshToken}
use gbi_backend.Prisma.Memory.{memory}
use gbi_backend.Redis.Memory.{memory_redis}
use gbi_backend.Auth.{
  Bcrypt, Config, Env, update_user, check_lockout, clear_failures, generate_tokens,
}
use gbi_backend.Devices.{ClaimDeviceDto, claim_device}
use gbi_backend.Admin.{State, restrict_user, unrestrict_user}
use gbi_backend.Admin.Restrict.{Door, by_login, by_refresh, enter, restrict_user_shuts}
use gbi_backend.Admin.Fleet.{
  Device, new_device, air_quality_monitor, force_unassign, force_unassign-claim_device,
}
use gbi_backend.Admin.Rows.{IsListed}
use gbi_backend.Admin.Bulk.{
  SheetRow, BulkReport, RowError, is_body, read_rows, id_of, create_all, create_listed,
  bulk_create_devices, empty_device_id, already_registered,
}
use gbi_backend.Admin.Accounting.{bulk_create_devices_sound}
use gbi_backend.Admin.Delete.{EventLog, IsForgotten, groups_of, delete_user, delete_user_forgets}

abbrev prefixing : Bcrypt
prefixing = record {
  hash = λ t salt. salt ∷ t;
  compare = λ t h. elim h [ [] ↦ false | x ∷ xs ↦ text_eq t xs ];
}

abbrev limits : Config
limits = record { max_attempts = 3; lockout_ttl = 60; refresh_days = 7 }

abbrev env : Env
env = record { now = 5; uuid = 20; token = 20; otp = 55 ∷ []; salt = 3; is_suppressed = false }

abbrev carl : User
carl = record {
  id = 1;
  email = codes "carl";
  password_hash = some (3 ∷ codes "pw");
  google_id = none;
  name = none;
  organization = none;
  phone = none;
  email_verified = true;
  phone_verified = false;
  city = none;
  is_restricted = false;
  is_profile_complete = false;
  is_premium = false;
  premium_status = PremiumStatus.free;
  premium_expiry = none;
}

abbrev session : RefreshToken
session = record {
  id = 10;
  user_id = 1;
  token = 10;
  expires_at = 100000;
  revoked_at = none;
  is_persistent = true;
}

abbrev office : State memory_redis.Store
office = record {
  admins = [];
  accounts = record { users = carl ∷ []; tokens = session ∷ []; redis = λ k. none; mails = [] };
}

abbrev door : Door
door = by_login (codes "Carl") (codes "pw") true env

-- The door is open before the restriction.
door_runs : enter memory memory_redis limits prefixing door office ≡ some 1
unfolding enter gbi_backend.Auth.login check_lockout clear_failures generate_tokens text_eq
    normalize
door_runs = refl

restrict_user_shuts_example :
    (enter memory memory_redis limits prefixing door
        (restrict_user memory memory_redis limits 1 office).1
      ≢ some 1)
    × (enter memory memory_redis limits prefixing
          (by_refresh 10 env)
          (unrestrict_user memory memory_redis limits 1
            (restrict_user memory memory_redis limits 1 office).1).1
        ≢ some 1)
unfolding restrict_user update_user
restrict_user_shuts_example =
    restrict_user_shuts memory memory_redis limits prefixing door 10 env 1 office refl

abbrev stock : gbi_backend.Devices.State memory_redis.Store
stock = record {
  devices = record { id = 7; device_id = 70; group_id = none } ∷ [];
  groups = [];
  assignments = [];
  meta = [];
  telemetry = [];
  device_thresholds = [];
  group_thresholds = [];
  redis = λ k. none;
}

abbrev dto : ClaimDeviceDto
dto = record { device_id = 70; name = []; location = []; city = []; pincode = [] }

force_unassign-claim_device_example :
    claim_device memory memory_redis 2 dto
      (force_unassign memory memory_redis 7 9 (claim_device memory memory_redis 1 dto stock).1).1
    ≡ (
      err conflict device_claimed,
      (force_unassign memory memory_redis 7 9 (claim_device memory memory_redis 1 dto stock).1).1,
    )
unfolding claim_device
force_unassign-claim_device_example =
    force_unassign-claim_device memory memory_redis 1 9 2 dto dto stock
      (record { id = 7; device_id = 70; group_id = none }) refl refl refl

abbrev sheet_row : ℕ → Option ℕ → SheetRow
sheet_row number device_id = record { number = number; device_id = device_id; type = none }

-- A header, a device that is there, an empty row, and a new device that stands twice.
abbrev sheet : List SheetRow
sheet =
    sheet_row 1 (some 0)
    ∷ sheet_row 2 (some 70)
    ∷ sheet_row 3 none
    ∷ sheet_row 4 (some 71)
    ∷ sheet_row 5 (some 71)
    ∷ []

abbrev fleet : List Device
fleet = new_device 7 70 air_quality_monitor ∷ []

abbrev row_error : ℕ → Option ℕ → gbi_backend.Admin.Bulk.Failure → RowError
row_error n d f = record { row = n; device_id = d; reason = f }

abbrev sheet_report : BulkReport
sheet_report = record {
  success_count = 1;
  failure_count = 2;
  total_processed = 4;
  errors = row_error 2 (some 70) already_registered ∷ row_error 3 none empty_device_id ∷ [];
}

-- The second row of the same device is neither a success nor a failure.
sheet_runs : (bulk_create_devices memory (λ n. n) (some (sheet ∷ [])) fleet).0 ≡ ok sheet_report
unfolding bulk_create_devices create_listed create_all text_eq
sheet_runs = refl

bulk_create_devices_sound_example :
    (4 ≡ length (select is_body sheet))
    × (1 + 2 ≤ 4)
    × Distinct id_of (bulk_create_devices memory (λ n. n) (some (sheet ∷ [])) fleet).1
    × All
        (λ r.
          (id : ℕ)
          → IsListed r id
          → (d : Device) × Memᴰ d (bulk_create_devices memory (λ n. n) (some (sheet ∷ [])) fleet).1
            × (d.device_id ≡ id))
        sheet
bulk_create_devices_sound_example =
    bulk_create_devices_sound memory (λ n. n) sheet [] fleet sheet_report (tt, tt) sheet_runs

abbrev records : gbi_backend.Admin.Delete.State
records = record {
  users = carl ∷ [];
  groups = record { id = 5; user_id = 1; name = [] } ∷ [];
  devices = record { id = 7; device_id = 70; group_id = some 5 } ∷ [];
  meta = [];
  assignments = record { device_id = 7; user_id = 1; unassigned_at = none } ∷ [];
  alert_states = [];
  notifications = [];
  event_logs =
      record { device_id = 7; user_id = some 1 } ∷ record { device_id = 7; user_id = some 2 } ∷ [];
  tokens = session ∷ [];
}

delete_runs :
    (delete_user memory 1 records).1.event_logs
    ≡ record { device_id = 7; user_id = none } ∷ record { device_id = 7; user_id = some 2 } ∷ []
unfolding delete_user
delete_runs = refl

delete_user_forgets_example :
    IsForgotten memory 1 (groups_of memory 1 records) (delete_user memory 1 records).1
unfolding delete_user
delete_user_forgets_example = delete_user_forgets memory 1 records refl
