-- ===== src/Devices/Claim.antt =====
-- The claims of devices in src/module/devices/devices.repository.ts (claimDevice, unclaimDevice).
use gbi_backend.Base.{
  ℕ, ◌≤◌, ◌≡◌, inl, inr, ◌⊎◌, none, List, [], ◌∷◌, ◌++◌, Bool-cases, Option-cases, arith, ◌==◌,
  count_where, count_where-append_one, count_where-update_where, count_where-eq_zero, update_where,
}
use gbi_backend.Prisma.{Prisma}
use gbi_backend.Redis.{Redis}
use gbi_backend.Alerts.{Assignment, is_assigned}
use gbi_backend.Devices.{
  State, ClaimDeviceDto, has_device_id, assigned_to, released, new_assignment, claim_device,
  unclaim_device, set_device_threshold, remove_device_threshold, create_group, add_device_to_group,
  remove_device_from_group, set_group_threshold, remove_group_threshold, delete_group,
}
use gbi_backend.Devices.Update.{update_device}
use gbi_backend.Devices.Calls.{
  DeviceCall, run_call, run_calls, claiming, updating, unclaiming, setting, unsetting, creating,
  adding, removing, grouping, ungrouping, deleting,
}

-- Every device has at most one user.
abbrev pub IsClaimedOnce : List Assignment → Type 0
IsClaimedOnce rows = (id : ℕ) → count_where (is_assigned id) rows ≤ 1

claim_once :
    (user_id id : ℕ) (rows : List Assignment)
    → count_where (is_assigned id) rows ≡ 0
    → IsClaimedOnce rows
    → IsClaimedOnce (rows ++ new_assignment user_id id ∷ [])
claim_once user_id id rows e h i =
    let step = count_where-append_one (is_assigned i) rows (new_assignment user_id id) in
    let one = h i in
    elim (Bool-cases (id == i)) [
      | inl same ↦
          let k : id ≡ i = ground arith in
          let z : count_where (is_assigned i) rows ≡ 0 = rw k at e in ground arith
      | inr other ↦ ground arith
    ]

release_once :
    (user_id id now : ℕ) (rows : List Assignment)
    → IsClaimedOnce rows
    → IsClaimedOnce (update_where (assigned_to user_id id) (released now) rows)
release_once user_id id now rows h i =
    let less =
      count_where-update_where (is_assigned i) (assigned_to user_id id) (released now) rows
        (λ a p q. absurd (ground arith)) in
    let one = h i in omega arith

module _ (db : Prisma) (kv : Redis) where
  -- A claim leaves the assignments, or adds one of a device that had none.
  claim_device_outcomes :
      (user_id : ℕ) (dto : ClaimDeviceDto) (s : State kv.Store)
      → ((claim_device db kv user_id dto s).1.assignments ≡ s.assignments)
        ⊎ ((id : ℕ) × (db.find_first (is_assigned id) s.assignments ≡ none)
            × ((claim_device db kv user_id dto s).1.assignments
                ≡ s.assignments ++ new_assignment user_id id ∷ []))
  unfolding claim_device
  claim_device_outcomes user_id dto s =
      elim (Option-cases (db.find_first (has_device_id dto.device_id) s.devices)) [
        | inl e ↦ inl (ground arith)
        | inr (d, e) ↦ elim (Option-cases (db.find_first (is_assigned d.id) s.assignments)) [
          | inr (a, f) ↦ inl (ground arith)
          | inl f ↦ elim (Option-cases (db.find_first (λ m. m.device_id == d.device_id) s.meta)) [
            | inl g ↦
                inr (
                  d.id,
                  f,
                  ground (arith, db.create_lem (new_assignment user_id d.id) s.assignments),
                )
            | inr (m, g) ↦ inl (ground arith)
          ]
        ]
      ]

  claim_device-IsClaimedOnce :
      (user_id : ℕ) (dto : ClaimDeviceDto) (s : State kv.Store)
      → IsClaimedOnce s.assignments
      → IsClaimedOnce (claim_device db kv user_id dto s).1.assignments
  claim_device-IsClaimedOnce user_id dto s h = elim (claim_device_outcomes user_id dto s) [
    | inl e ↦ rw e h
    | inr (id, f, e) ↦ rw e (
        claim_once user_id id s.assignments
          (count_where-eq_zero (is_assigned id) s.assignments
            (db.find_first_missing (is_assigned id) s.assignments f))
          h)
  ]

  unclaim_device-IsClaimedOnce :
      (user_id device_id now : ℕ) (s : State kv.Store)
      → IsClaimedOnce s.assignments
      → IsClaimedOnce (unclaim_device db kv user_id device_id now s).1.assignments
  unfolding unclaim_device
  unclaim_device-IsClaimedOnce user_id device_id now s h =
      elim (Option-cases (db.find_first (has_device_id device_id) s.devices)) [
        | inl e ↦ rw e h
        | inr (d, e) ↦
            elim (Option-cases (db.find_first (assigned_to user_id d.id) s.assignments)) [
              | inl f ↦ rw (e, f) h
              | inr (a, f) ↦
                  rw
                    (
                      e,
                      f,
                      db.update_many_lem (assigned_to user_id d.id) (released now) s.assignments,
                    )
                    (release_once user_id d.id now s.assignments h)
            ]
      ]

  run_call-IsClaimedOnce :
      (c : DeviceCall) (s : State kv.Store)
      → IsClaimedOnce s.assignments
      → IsClaimedOnce (run_call db kv c s).assignments
  unfolding run_call
  run_call-IsClaimedOnce (claiming user_id dto) s h = claim_device-IsClaimedOnce user_id dto s h
  run_call-IsClaimedOnce (updating user_id device_id dto) s h =
      let k : (update_device db kv user_id device_id dto s).1.assignments ≡ s.assignments =
        unfold update_device in ground arith in
      rw k h
  run_call-IsClaimedOnce (unclaiming user_id device_id now) s h =
      unclaim_device-IsClaimedOnce user_id device_id now s h
  run_call-IsClaimedOnce (setting user_id device_id thresholds) s h =
      let k : (set_device_threshold db kv user_id device_id thresholds s).1.assignments
          ≡ s.assignments =
        unfold set_device_threshold in ground arith in
      rw k h
  run_call-IsClaimedOnce (unsetting user_id device_id) s h =
      let k : (remove_device_threshold db kv user_id device_id s).1.assignments ≡ s.assignments =
        unfold remove_device_threshold in ground arith in
      rw k h
  run_call-IsClaimedOnce (creating user_id name uuid) s h =
      let k : (create_group db kv user_id name uuid s).1.assignments ≡ s.assignments =
        unfold create_group in ground arith in
      rw k h
  run_call-IsClaimedOnce (adding user_id group_id device_id) s h =
      let k : (add_device_to_group db kv user_id group_id device_id s).1.assignments
          ≡ s.assignments =
        unfold add_device_to_group in ground arith in
      rw k h
  run_call-IsClaimedOnce (removing user_id group_id device_id) s h =
      let k : (remove_device_from_group db kv user_id group_id device_id s).1.assignments
          ≡ s.assignments =
        unfold remove_device_from_group in ground arith in
      rw k h
  run_call-IsClaimedOnce (grouping user_id group_id thresholds) s h =
      let k : (set_group_threshold db kv user_id group_id thresholds s).1.assignments
          ≡ s.assignments =
        unfold set_group_threshold in ground arith in
      rw k h
  run_call-IsClaimedOnce (ungrouping user_id group_id) s h =
      let k : (remove_group_threshold db kv user_id group_id s).1.assignments ≡ s.assignments =
        unfold remove_group_threshold in ground arith in
      rw k h
  run_call-IsClaimedOnce (deleting user_id group_id) s h =
      let k : (delete_group db kv user_id group_id s).1.assignments ≡ s.assignments =
        unfold delete_group in ground arith in
      rw k h

  -- After any sequence of claims, releases and changes of metadata, thresholds and groups that
  -- starts where every device has at most one open assignment, every device has at most one open
  -- assignment.
  pub run_calls-IsClaimedOnce :
      (calls : List DeviceCall) (s : State kv.Store)
      → IsClaimedOnce s.assignments
      → IsClaimedOnce (run_calls db kv calls s).assignments
  unfolding run_calls
  run_calls-IsClaimedOnce [] s h = h
  run_calls-IsClaimedOnce (c ∷ rest) s h =
      run_calls-IsClaimedOnce rest (run_call db kv c s) (run_call-IsClaimedOnce c s h)
