-- ===== src/Devices/Tests.antt =====
-- Runs of the operations on devices and groups (src/module/devices, src/groups).
use gbi_backend.Base.{◌≡◌, refl, none, some, List, [], ◌∷◌, arith}
use gbi_backend.Base.Int.{pos}
use gbi_backend.Http.{err, conflict, device_claimed}
use gbi_backend.Prisma.Memory.{memory}
use gbi_backend.Redis.Memory.{memory_redis}
use gbi_backend.Alerts.{Thresholds}
use gbi_backend.Devices.{
  State, ClaimDeviceDto, claim_device, unclaim_device, set_device_threshold, add_device_to_group,
  remove_device_threshold, create_group,
}
use gbi_backend.Devices.Update.{update_device}
use gbi_backend.Devices.Calls.{
  DeviceCall, claiming, updating, unclaiming, setting, unsetting, creating, adding, run_calls,
}
use gbi_backend.Devices.Claim.{IsClaimedOnce, run_calls-IsClaimedOnce}
use gbi_backend.Devices.Mutex.{IsSound, run_calls-IsSound}

-- Device 7 is free.
abbrev stock : State memory_redis.Store
stock = record {
  devices = record { id = 7; device_id = 70; group_id = none } ∷ [];
  groups = [];
  assignments = [];
  meta = [];
  telemetry = [];
  device_thresholds = [];
  group_thresholds = [];
  redis = λ k. none;
}

abbrev dto : ClaimDeviceDto
dto = record { device_id = 70; name = []; location = []; city = []; pincode = [] }

abbrev dusty : Thresholds
dusty = (0, pos 4000) ∷ []

abbrev story : List DeviceCall
story =
    claiming 1 dto
    ∷ updating 1 70 (record { name = some []; location = none; city = none; pincode = none })
    ∷ claiming 2 dto
    ∷ creating 1 [] 5
    ∷ setting 1 70 dusty
    ∷ adding 1 5 70
    ∷ unsetting 1 70
    ∷ adding 1 5 70
    ∷ setting 1 70 dusty
    ∷ unclaiming 1 70 9
    ∷ claiming 2 dto
    ∷ []

claimed_already :
    (claim_device memory memory_redis 2 dto (claim_device memory memory_redis 1 dto stock).1).0
    ≡ err conflict device_claimed
unfolding claim_device
claimed_already = refl

-- The group is entered once the device's threshold is gone.
story_runs :
    (run_calls memory memory_redis story stock).devices
    ≡ record { id = 7; device_id = 70; group_id = some 5 } ∷ []
unfolding run_calls update_device claim_device unclaim_device set_device_threshold
    add_device_to_group remove_device_threshold create_group
story_runs = refl

run_calls-IsClaimedOnce_example :
    IsClaimedOnce (run_calls memory memory_redis story stock).assignments
run_calls-IsClaimedOnce_example =
    run_calls-IsClaimedOnce memory memory_redis story stock (λ id. omega arith)

run_calls-IsSound_example : IsSound memory memory_redis (run_calls memory memory_redis story stock)
run_calls-IsSound_example = run_calls-IsSound memory memory_redis story stock ((tt, tt), tt)
