-- ===== src/Devices.antt =====
-- Devices and their groups: the operations that write of
-- src/module/devices/devices.service.ts and devices.repository.ts, and of src/groups/groups.service.ts.
pub mod Update
pub mod Calls
pub mod Claim
pub mod Mutex
mod Tests
use gbi_backend.Base.{
  ℕ, Bool, true, false, not, ◌&&◌, Option, none, some, List, [], ◌∷◌, Text, ◌==◌, is_some,
  if◌then◌else◌,
}
use gbi_backend.Http.{
  bad_request, forbidden, conflict, not_found, internal, device_not_found, device_claimed,
  device_access, metadata_not_found, in_group_threshold, group_access, device_in_group,
  individual_threshold, not_in_group, record_not_found, Action, pure, throw, throw_if, gets,
  or_throw, modify, transaction, ◌>>=◌, ◌>>◌,
}
use gbi_backend.Schema.{DeviceTelemetry}
use gbi_backend.Prisma.{Prisma}
use gbi_backend.Redis.{Redis, user_devices}
use gbi_backend.Alerts.{Assignment, ThresholdRow, Thresholds, is_assigned, owned_by, is_null}

-- The columns of a device that this part uses.
pub record Device : Type 0 where
  pub id : ℕ
  pub device_id : ℕ
  pub group_id : Option ℕ

pub record DeviceGroup : Type 0 where
  pub id : ℕ
  pub user_id : ℕ
  pub name : Text

pub record UserDevice : Type 0 where
  pub device_id : ℕ
  pub user_id : ℕ
  pub name : Text
  pub location : Text
  pub city : Text
  pub pincode : Text

pub record State (Store : Type 0) : Type 0 where
  pub devices : List Device
  pub groups : List DeviceGroup
  pub assignments : List Assignment
  pub meta : List UserDevice
  pub telemetry : List DeviceTelemetry
  pub device_thresholds : List ThresholdRow
  pub group_thresholds : List ThresholdRow
  pub redis : Store

pub record ClaimDeviceDto : Type 0 where
  pub device_id : ℕ
  pub name : Text
  pub location : Text
  pub city : Text
  pub pincode : Text

abbrev pub has_device_id : ℕ → Device → Bool
has_device_id device_id d = d.device_id == device_id

abbrev pub has_id : ℕ → Device → Bool
has_id id d = d.id == id

abbrev pub owned_group : ℕ → ℕ → DeviceGroup → Bool
owned_group group_id user_id g = (g.id == group_id) && (g.user_id == user_id)

abbrev pub assigned_to : ℕ → ℕ → Assignment → Bool
assigned_to user_id id a = (a.user_id == user_id) && (a.device_id == id) && is_null a.unassigned_at

abbrev pub in_group : ℕ → Device → Bool
in_group group_id d = elim d.group_id [ none ↦ false | some g ↦ g == group_id ]

abbrev pub with_group : Option ℕ → Device → Device
with_group group_id d = record d { group_id = group_id }

abbrev pub with_thresholds : Thresholds → ThresholdRow → ThresholdRow
with_thresholds thresholds t = record t { thresholds = thresholds }

abbrev pub released : ℕ → Assignment → Assignment
released now a = record a { unassigned_at = some now }

abbrev pub new_assignment : ℕ → ℕ → Assignment
new_assignment user_id id = record { device_id = id; user_id = user_id; unassigned_at = none }

-- whether a threshold is of a device that is in the group
abbrev pub of_member : List Device → ℕ → ThresholdRow → Bool
of_member [] group_id t = false
of_member (d ∷ rest) group_id t =
    let later = of_member rest group_id t in
    if (d.id == t.owner) && in_group group_id d then true else later

module _ (db : Prisma) (kv : Redis) where
  open db use {find_first, create, update_many, delete_many}
  open kv use {Store, del}

  abbrev Call : Type 0
  Call = Action (State Store) (Unit {0})

  forget_list : ℕ → Call
  forget_list user_id = modify (λ s. record s { redis = del (user_devices user_id) s.redis })

  -- the transaction of `claimDevice`; the metadata of a device are unique
  claim : ℕ → ClaimDeviceDto → Call
  claim user_id dto = transaction (do
    device ←
        or_throw (← gets (λ s. find_first (has_device_id dto.device_id) s.devices)) not_found
          device_not_found
    existing ← gets (λ s. find_first (is_assigned device.id) s.assignments)
    throw_if (is_some existing) conflict device_claimed
    modify (λ s. record s { assignments = create (new_assignment user_id device.id) s.assignments })
    taken ← gets (λ s. find_first (λ m. m.device_id == device.device_id) s.meta)
    throw_if (is_some taken) conflict device_claimed
    modify (λ s. record s {
      meta =
          create
            (record {
              device_id = device.device_id;
              user_id = user_id;
              name = dto.name;
              location = dto.location;
              city = dto.city;
              pincode = dto.pincode;
            })
            s.meta;
    }))

  unfoldable pub claim_device : ℕ → ClaimDeviceDto → Action (State kv.Store) (Unit {0})
  unfolding claim forget_list
  claim_device user_id dto = do claim user_id dto; forget_list user_id

  unfoldable pub unclaim_device : (user_id device_id now : ℕ) → Action (State kv.Store) (Unit {0})
  unclaim_device user_id device_id now = do
    device ←
        or_throw (← gets (λ s. find_first (has_device_id device_id) s.devices)) not_found
          device_not_found
    own ← gets (λ s. find_first (assigned_to user_id device.id) s.assignments)
    throw_if (not (is_some own)) forbidden device_access
    modify (λ s. record s {
      telemetry = delete_many (λ t. t.device_id == device.id) s.telemetry;
      assignments = update_many (assigned_to user_id device.id) (released now) s.assignments;
      meta = delete_many (λ m. (m.user_id == user_id) && (m.device_id == device.device_id)) s.meta;
    })

  pub upsert : ℕ → Thresholds → List ThresholdRow → List ThresholdRow
  upsert owner thresholds rows = elim (find_first (owned_by owner) rows) [
    | some old ↦ update_many (owned_by owner) (with_thresholds thresholds) rows
    | none ↦ create (record { owner = owner; thresholds = thresholds }) rows
  ]

  unfoldable pub set_device_threshold :
      (user_id device_id : ℕ) → Thresholds → Action (State kv.Store) (Unit {0})
  unfolding upsert forget_list
  set_device_threshold user_id device_id thresholds = do
    device ←
        or_throw (← gets (λ s. find_first (has_device_id device_id) s.devices)) not_found
          device_not_found
    throw_if (is_some device.group_id) conflict in_group_threshold
    modify (λ s. record s { device_thresholds = upsert device.id thresholds s.device_thresholds })
    forget_list user_id

  unfoldable pub remove_device_threshold :
      (user_id device_id : ℕ) → Action (State kv.Store) (Unit {0})
  unfolding forget_list
  remove_device_threshold user_id device_id = do
    device ←
        or_throw (← gets (λ s. find_first (has_device_id device_id) s.devices)) not_found
          device_not_found
    old ←
        or_throw (← gets (λ s. find_first (owned_by device.id) s.device_thresholds)) internal
          record_not_found
    modify
        (λ s. record s { device_thresholds = delete_many (owned_by device.id) s.device_thresholds })
    forget_list user_id

  unfoldable pub create_group :
      (user_id : ℕ) → Text → (uuid : ℕ) → Action (State kv.Store) (Unit {0})
  create_group user_id name uuid = modify (λ s. record s {
    groups = create (record { id = uuid; user_id = user_id; name = name }) s.groups;
  })

  unfoldable pub add_device_to_group :
      (user_id group_id device_id : ℕ) → Action (State kv.Store) (Unit {0})
  add_device_to_group user_id group_id device_id = do
    group ←
        or_throw (← gets (λ s. find_first (owned_group group_id user_id) s.groups)) forbidden
          group_access
    device ←
        or_throw (← gets (λ s. find_first (has_device_id device_id) s.devices)) not_found
          device_not_found
    own ←
        or_throw (← gets (λ s. find_first (assigned_to user_id device.id) s.assignments)) forbidden
          device_access
    throw_if (is_some device.group_id) bad_request device_in_group
    individual ← gets (λ s. find_first (owned_by device.id) s.device_thresholds)
    throw_if (is_some individual) bad_request individual_threshold
    modify (λ s. record s {
      devices = update_many (has_id device.id) (with_group (some group_id)) s.devices;
    })

  unfoldable pub remove_device_from_group :
      (user_id group_id device_id : ℕ) → Action (State kv.Store) (Unit {0})
  remove_device_from_group user_id group_id device_id = do
    group ← gets (λ s. find_first (owned_group group_id user_id) s.groups)
    device ←
        or_throw
          (← gets (λ s.
            find_first (λ d. (d.device_id == device_id) && in_group group_id d && is_some group)
              s.devices))
          not_found not_in_group
    modify (λ s. record s { devices = update_many (has_id device.id) (with_group none) s.devices })

  unfoldable pub set_group_threshold :
      (user_id group_id : ℕ) → Thresholds → Action (State kv.Store) (Unit {0})
  unfolding upsert
  set_group_threshold user_id group_id thresholds = do
    group ←
        or_throw (← gets (λ s. find_first (owned_group group_id user_id) s.groups)) forbidden
          group_access
    conflicting ← gets (λ s. find_first (of_member s.devices group_id) s.device_thresholds)
    throw_if (is_some conflicting) bad_request individual_threshold
    modify (λ s. record s { group_thresholds = upsert group_id thresholds s.group_thresholds })

  unfoldable pub remove_group_threshold :
      (user_id group_id : ℕ) → Action (State kv.Store) (Unit {0})
  remove_group_threshold user_id group_id = do
    group ←
        or_throw (← gets (λ s. find_first (owned_group group_id user_id) s.groups)) forbidden
          group_access
    old ←
        or_throw (← gets (λ s. find_first (owned_by group_id) s.group_thresholds)) internal
          record_not_found
    modify (λ s. record s { group_thresholds = delete_many (owned_by group_id) s.group_thresholds })

  unfoldable pub delete_group : (user_id group_id : ℕ) → Action (State kv.Store) (Unit {0})
  delete_group user_id group_id = do
    group ←
        or_throw (← gets (λ s. find_first (owned_group group_id user_id) s.groups)) not_found
          group_access
    modify (λ s. record s {
      group_thresholds = delete_many (owned_by group_id) s.group_thresholds;
      devices = update_many (in_group group_id) (with_group none) s.devices;
      groups = delete_many (λ g. g.id == group_id) s.groups;
    })
