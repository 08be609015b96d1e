-- ===== src/Devices/Update.antt =====
-- The change of a device's metadata: updateDevice in src/module/devices/devices.service.ts and
-- updateDeviceMeta in devices.repository.ts.
use gbi_backend.Base.{
  ℕ, Bool, true, false, not, ◌&&◌, Option, none, some, List, [], ◌∷◌, Text, ◌==◌, is_some,
  if◌then◌else◌,
}
use gbi_backend.Http.{
  forbidden, not_found, device_not_found, device_access, metadata_not_found, Action, throw_if, gets,
  or_throw, modify, ◌>>=◌, ◌>>◌,
}
use gbi_backend.Prisma.{Prisma}
use gbi_backend.Redis.{Redis, user_devices}
use gbi_backend.Alerts.{Assignment, is_null}
use gbi_backend.Devices.{Device, UserDevice, State, has_device_id}

-- A field that is left out stays as it is.
pub record UpdateDeviceDto : Type 0 where
  pub name : Option Text
  pub location : Option Text
  pub city : Option Text
  pub pincode : Option Text

abbrev pub or_kept : Option Text → Text → Text
or_kept none old = old
or_kept (some t) old = t

abbrev pub with_meta : UpdateDeviceDto → UserDevice → UserDevice
with_meta dto m = record m {
  name = or_kept dto.name m.name;
  location = or_kept dto.location m.location;
  city = or_kept dto.city m.city;
  pincode = or_kept dto.pincode m.pincode;
}

abbrev pub open_of : ℕ → Assignment → Bool
open_of user_id a = (a.user_id == user_id) && is_null a.unassigned_at

-- The assignment is of the device with the name.
abbrev pub is_of : List Device → ℕ → Assignment → Bool
is_of [] device_id a = false
is_of (d ∷ rest) device_id a =
    let later = is_of rest device_id a in
    if (d.id == a.device_id) && (d.device_id == device_id) then true else later

abbrev pub any_of : List Device → ℕ → List Assignment → Bool
any_of devices device_id [] = false
any_of devices device_id (a ∷ rest) =
    let later = any_of devices device_id rest in if is_of devices device_id a then true else later

abbrev pub meta_of : (user_id device_id : ℕ) → UserDevice → Bool
meta_of user_id device_id m = (m.device_id == device_id) && (m.user_id == user_id)

module _ (db : Prisma) (kv : Redis) where
  open db use {find_first, find_many, update_many}

  -- `updateMany` that counts no row is answered as not found; the row of another user is none.
  unfoldable pub update_device :
      (user_id device_id : ℕ) → UpdateDeviceDto → Action (State kv.Store) (Unit {0})
  update_device user_id device_id dto = do
    device ←
        or_throw (← gets (λ s. find_first (has_device_id device_id) s.devices)) not_found
          device_not_found
    own ← gets (λ s. any_of s.devices device_id (find_many (open_of user_id) s.assignments))
    throw_if (not own) forbidden device_access
    meta ← gets (λ s. find_first (meta_of user_id device_id) s.meta)
    modify (λ s. record s { meta = update_many (meta_of user_id device_id) (with_meta dto) s.meta })
    throw_if (not (is_some meta)) not_found metadata_not_found
    modify (λ s. record s { redis = kv.del (user_devices user_id) s.redis })
