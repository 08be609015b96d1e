-- ===== src/Devices/Calls.antt =====
-- Sequences of the operations of src/module/devices/devices.service.ts and
-- src/groups/groups.service.ts that write.
use gbi_backend.Base.{ℕ, List, [], ◌∷◌, Text}
use gbi_backend.Prisma.{Prisma}
use gbi_backend.Redis.{Redis}
use gbi_backend.Alerts.{Thresholds}
use gbi_backend.Devices.{
  State, ClaimDeviceDto, claim_device, unclaim_device, set_device_threshold,
  remove_device_threshold, create_group, add_device_to_group, remove_device_from_group,
  set_group_threshold, remove_group_threshold, delete_group,
}
use gbi_backend.Devices.Update.{UpdateDeviceDto, update_device}

pub data DeviceCall : Type 0 where
  claiming : ℕ → ClaimDeviceDto → DeviceCall
  updating : (user_id device_id : ℕ) → UpdateDeviceDto → DeviceCall
  unclaiming : (user_id device_id now : ℕ) → DeviceCall
  setting grouping : (user_id id : ℕ) → Thresholds → DeviceCall
  unsetting ungrouping deleting : (user_id id : ℕ) → DeviceCall
  creating : (user_id : ℕ) → Text → (uuid : ℕ) → DeviceCall
  adding removing : (user_id group_id device_id : ℕ) → DeviceCall

module _ (db : Prisma) (kv : Redis) where
  unfoldable pub run_call : DeviceCall → State kv.Store → State kv.Store
  run_call (claiming user_id dto) s = (claim_device db kv user_id dto s).1
  run_call (updating user_id device_id dto) s = (update_device db kv user_id device_id dto s).1
  run_call (unclaiming user_id device_id now) s = (unclaim_device db kv user_id device_id now s).1
  run_call (setting user_id device_id thresholds) s =
      (set_device_threshold db kv user_id device_id thresholds s).1
  run_call (unsetting user_id device_id) s = (remove_device_threshold db kv user_id device_id s).1
  run_call (creating user_id name uuid) s = (create_group db kv user_id name uuid s).1
  run_call (adding user_id group_id device_id) s =
      (add_device_to_group db kv user_id group_id device_id s).1
  run_call (removing user_id group_id device_id) s =
      (remove_device_from_group db kv user_id group_id device_id s).1
  run_call (grouping user_id group_id thresholds) s =
      (set_group_threshold db kv user_id group_id thresholds s).1
  run_call (ungrouping user_id group_id) s = (remove_group_threshold db kv user_id group_id s).1
  run_call (deleting user_id group_id) s = (delete_group db kv user_id group_id s).1

  unfoldable pub run_calls : List DeviceCall → State kv.Store → State kv.Store
  unfolding run_call
  run_calls [] s = s
  run_calls (c ∷ rest) s = run_calls rest (run_call c s)
