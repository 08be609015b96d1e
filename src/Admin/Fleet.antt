-- ===== src/Admin/Fleet.antt =====
-- Administration of devices in src/module/admin/admin.service.ts and admin.repository.ts: the
-- creation of one, its deletion, which only marks it, and the end of its assignment.
use gbi_backend.Base.{
  ℕ, ◌≡◌, inl, inr, Bool, true, false, Option, none, some, List, Text, [], ◌∷◌, ◌++◌, All-member,
  Memᴰ, member-append_one, Option-cases, arith, ◌==◌, is_some,
}
use gbi_backend.Base.Texts.{codes}
use gbi_backend.Http.{
  ok, err, conflict, not_found, device_exists, device_claimed, device_not_found, Action, pure,
  throw_if, gets, or_throw, modify, ◌>>=◌, ◌>>◌,
}
use gbi_backend.Schema.{DeviceStatus}
use gbi_backend.Prisma.{Prisma}
use gbi_backend.Redis.{Redis}
use gbi_backend.Alerts.{is_assigned}
use gbi_backend.Devices.{State, ClaimDeviceDto, UserDevice, released, claim_device}

-- The columns of a device that the administration uses.
pub record Device : Type 0 where
  pub id : ℕ
  pub device_id : ℕ
  pub type : Text
  pub status : DeviceStatus
  pub deleted_at : Option ℕ
  pub is_deleted : Bool

abbrev pub has_device_id : ℕ → Device → Bool
has_device_id device_id d = d.device_id == device_id

-- DeviceType.AIR_QUALITY_MONITOR, which is also the default of the column
abbrev pub air_quality_monitor : Text
air_quality_monitor = codes "Air Quality Monitor"

abbrev pub type_of : Option Text → Text
type_of none = air_quality_monitor
type_of (some t) = t

abbrev pub new_device : ℕ → ℕ → Text → Device
new_device uuid device_id type = record {
  id = uuid;
  device_id = device_id;
  type = type;
  status = DeviceStatus.offline;
  deleted_at = none;
  is_deleted = false;
}

abbrev pub deleted : ℕ → Device → Device
deleted now d = record d { is_deleted = true; deleted_at = some now; status = DeviceStatus.offline }

module _ (db : Prisma) where
  open db use {find_first, create, update_many}

  unfoldable pub create_device :
      (device_id : ℕ) → Option Text → (uuid : ℕ) → Action (List Device) Device
  create_device device_id type uuid = do
    exists ← gets (λ s. find_first (has_device_id device_id) s)
    throw_if (is_some exists) conflict device_exists
    modify (λ s. create (new_device uuid device_id (type_of type)) s)
    pure (new_device uuid device_id (type_of type))

  unfoldable pub soft_delete_device : (device_id now : ℕ) → Action (List Device) (Unit {0})
  soft_delete_device device_id now = do
    found ←
        or_throw (← gets (λ s. find_first (has_device_id device_id) s)) not_found device_not_found
    modify (λ s. update_many (has_device_id device_id) (deleted now) s)

module _ (db : Prisma) (kv : Redis) where
  unfoldable pub force_unassign : (id now : ℕ) → Action (State kv.Store) (Unit {0})
  force_unassign id now =
      modify (λ s. record s {
        assignments = db.update_many (is_assigned id) (released now) s.assignments;
      })

  -- The metadata of a device, whoever wrote them
  abbrev meta_of : gbi_backend.Devices.Device → UserDevice → Bool
  meta_of d m = m.device_id == d.device_id

  claim_device_meta :
      (user_id : ℕ) (dto : ClaimDeviceDto) (s : State kv.Store) (d : gbi_backend.Devices.Device)
      → (claim_device db kv user_id dto s).0 ≡ ok tt
      → db.find_first (gbi_backend.Devices.has_device_id dto.device_id) s.devices ≡ some d
      → ((claim_device db kv user_id dto s).1.devices ≡ s.devices)
        × ((m : UserDevice) × Memᴰ m (claim_device db kv user_id dto s).1.meta
            × (meta_of d m ≡ true))
  unfolding claim_device
  claim_device_meta user_id dto s d h e =
      elim (Option-cases (db.find_first (is_assigned d.id) s.assignments)) [
        | inr (a, f) ↦ absurd (ground arith)
        | inl f ↦ elim (Option-cases (db.find_first (meta_of d) s.meta)) [
          | inr (m, g) ↦ absurd (ground arith)
          | inl g ↦
              let row : UserDevice = record {
                device_id = d.device_id;
                user_id = user_id;
                name = dto.name;
                location = dto.location;
                city = dto.city;
                pincode = dto.pincode;
              } in
              let meta : (claim_device db kv user_id dto s).1.meta ≡ s.meta ++ row ∷ [] =
                ground (arith, db.create_lem row s.meta) in
              (ground arith, (row, rw meta (member-append_one s.meta row), ground arith))
        ]
      ]

  claim_device_refused :
      (user_id : ℕ) (dto : ClaimDeviceDto) (s : State kv.Store) (d : gbi_backend.Devices.Device)
      (m : UserDevice)
      → db.find_first (gbi_backend.Devices.has_device_id dto.device_id) s.devices ≡ some d
      → Memᴰ m s.meta
      → meta_of d m ≡ true
      → claim_device db kv user_id dto s ≡ (err conflict device_claimed, s)
  unfolding claim_device
  claim_device_refused user_id dto s d m e i h =
      elim (Option-cases (db.find_first (is_assigned d.id) s.assignments)) [
        | inr (a, f) ↦ ground arith
        | inl f ↦ elim (Option-cases (db.find_first (meta_of d) s.meta)) [
          | inr (x, g) ↦ ground arith
          | inl g ↦
              let miss : meta_of d m ≡ false =
                All-member (λ r. meta_of d r ≡ false) s.meta m
                  (db.find_first_missing (meta_of d) s.meta g) i in
              absurd (ground arith)
        ]
      ]

  -- Once a user has claimed a device and an admin has ended the assignment, every claim of the
  -- device is refused as claimed already and changes nothing, whoever makes it.
  pub force_unassign-claim_device :
      (user_id now other : ℕ) (dto again : ClaimDeviceDto) (s : State kv.Store)
      (d : gbi_backend.Devices.Device)
      → (claim_device db kv user_id dto s).0 ≡ ok tt
      → db.find_first (gbi_backend.Devices.has_device_id dto.device_id) s.devices ≡ some d
      → again.device_id ≡ dto.device_id
      → claim_device db kv other again
          (force_unassign d.id now (claim_device db kv user_id dto s).1).1
        ≡ (
          err conflict device_claimed,
          (force_unassign d.id now (claim_device db kv user_id dto s).1).1,
        )
  unfolding force_unassign
  force_unassign-claim_device user_id now other dto again s d h e same =
      let (kept, (m, i, own)) = claim_device_meta user_id dto s d h e in
      claim_device_refused other again
        (force_unassign d.id now (claim_device db kv user_id dto s).1).1 d m (rw (same, kept) e) i
        own
