-- ===== src/Devices/Mutex.antt =====
-- A device has a threshold of its own or is in a group, never both: setDeviceThreshold of
-- src/module/devices/devices.service.ts and addDeviceToGroup of src/groups/groups.service.ts.
use gbi_backend.Base.{
  ℕ, ◌≡◌, refl, sym, inl, inr, Bool, false, ◌&&◌, none, some, List, [], ◌∷◌, Option-cases, arith,
  ◌==◌, is_some, update_where, All, All-imp, All-update_where, All-remove_where, All-append_one,
  All-of_members, Distinct, Distinct-eq, Distinct-update_where, Memᴰ,
}
use gbi_backend.Prisma.{Prisma}
use gbi_backend.Redis.{Redis}
use gbi_backend.Alerts.{ThresholdRow, Thresholds, owned_by}
use gbi_backend.Devices.{
  State, Device, has_device_id, has_id, in_group, with_group, with_thresholds, owned_group,
  assigned_to, upsert, claim_device, unclaim_device, set_device_threshold, remove_device_threshold,
  create_group, add_device_to_group, remove_device_from_group, set_group_threshold,
  remove_group_threshold, delete_group,
}
use gbi_backend.Devices.Update.{update_device}
use gbi_backend.Devices.Calls.{
  DeviceCall, run_call, run_calls, claiming, updating, unclaiming, setting, unsetting, creating,
  adding, removing, grouping, ungrouping, deleting,
}

-- A threshold of the device means that it is in no group.
abbrev pub IsApart : Device → ThresholdRow → Type 0
IsApart d t = t.owner ≡ d.id → d.group_id ≡ none

abbrev pub IsExclusive : List Device → List ThresholdRow → Type 0
IsExclusive ds ts = All (λ t. All (λ d. IsApart d t) ds) ts

abbrev pub id_of : Device → ℕ
id_of d = d.id

-- Leaving a group keeps the exclusion.
ungroup :
    (p : Device → Bool) (ds : List Device) (ts : List ThresholdRow)
    → IsExclusive ds ts
    → IsExclusive (update_where p (with_group none) ds) ts
ungroup p ds ts h =
    All-imp (λ t. All (λ d. IsApart d t) ds)
      (λ t. All (λ d. IsApart d t) (update_where p (with_group none) ds)) ts
      (λ t k.
        All-update_where (λ d. IsApart d t) (λ d. IsApart d t) p (with_group none) ds
          (λ d a hit e. refl) (λ d a miss. a) k)
      h

-- So does entering a group without a threshold.
enter :
    (id g : ℕ) (ds : List Device) (ts : List ThresholdRow)
    → All (λ t. owned_by id t ≡ false) ts
    → IsExclusive ds ts
    → IsExclusive (update_where (has_id id) (with_group (some g)) ds) ts
enter id g ds [] free h = tt
enter id g ds (t ∷ ts) (f, free) (k, h) = (
  All-update_where (λ d. IsApart d t) (λ d. IsApart d t) (has_id id) (with_group (some g)) ds
      (λ d a hit e. absurd (ground arith)) (λ d a miss. a) k,
  enter id g ds ts free h,
)

reset :
    (id : ℕ) (thresholds : Thresholds) (ds : List Device) (ts : List ThresholdRow)
    → IsExclusive ds ts
    → IsExclusive ds (update_where (owned_by id) (with_thresholds thresholds) ts)
reset id thresholds ds ts h =
    All-update_where (λ t. All (λ d. IsApart d t) ds) (λ t. All (λ d. IsApart d t) ds) (owned_by id)
      (with_thresholds thresholds) ts (λ t k hit. k) (λ t k miss. k) h

-- The device that was found is in no group, and ids are unique.
only_device :
    (d : Device) (ds : List Device) (thresholds : Thresholds)
    → Distinct id_of ds
    → Memᴰ d ds
    → d.group_id ≡ none
    → All (λ x. IsApart x (record { owner = d.id; thresholds = thresholds })) ds
only_device d ds thresholds uniq m e =
    All-of_members (λ x. IsApart x (record { owner = d.id; thresholds = thresholds })) ds
      (λ x mx same. let q : x ≡ d = Distinct-eq id_of ds x d uniq mx m (sym same) in rw q e)

module _ (db : Prisma) (kv : Redis) where
  abbrev pub IsSound : State kv.Store → Type 0
  IsSound s = Distinct id_of s.devices × IsExclusive s.devices s.device_thresholds

  upsert-IsExclusive :
      (d : Device) (thresholds : Thresholds) (ds : List Device) (ts : List ThresholdRow)
      → Distinct id_of ds
      → Memᴰ d ds
      → d.group_id ≡ none
      → IsExclusive ds ts
      → IsExclusive ds (upsert db kv d.id thresholds ts)
  unfolding upsert
  upsert-IsExclusive d thresholds ds ts uniq m e h =
      elim (Option-cases (db.find_first (owned_by d.id) ts)) [
        | inl f ↦
            rw (f, upsert, db.create_lem (record { owner = d.id; thresholds = thresholds }) ts)
              (All-append_one (λ t. All (λ x. IsApart x t) ds) ts
                (record { owner = d.id; thresholds = thresholds }) h
                (only_device d ds thresholds uniq m e))
        | inr (old, f) ↦
            rw (f, upsert, db.update_many_lem (owned_by d.id) (with_thresholds thresholds) ts)
              (reset d.id thresholds ds ts h)
      ]

  set_device_threshold-IsSound :
      (user_id device_id : ℕ) (thresholds : Thresholds) (s : State kv.Store)
      → IsSound s
      → IsSound (set_device_threshold db kv user_id device_id thresholds s).1
  unfolding set_device_threshold
  set_device_threshold-IsSound user_id device_id thresholds s (uniq, h) =
      elim (Option-cases (db.find_first (has_device_id device_id) s.devices)) [
        | inl e ↦ rw e (uniq, h)
        | inr (d, e) ↦ elim (Option-cases d.group_id) [
          | inr (g, f) ↦ rw (e, f) (uniq, h)
          | inl f ↦
              let (_, m) = db.find_first_found (has_device_id device_id) s.devices d e in
              rw (e, f)
                (uniq, upsert-IsExclusive d thresholds s.devices s.device_thresholds uniq m f h)
        ]
      ]

  add_device_to_group-IsSound :
      (user_id group_id device_id : ℕ) (s : State kv.Store)
      → IsSound s
      → IsSound (add_device_to_group db kv user_id group_id device_id s).1
  unfolding add_device_to_group
  add_device_to_group-IsSound user_id group_id device_id s (uniq, h) =
      elim (Option-cases (db.find_first (owned_group group_id user_id) s.groups)) [
        | inl e ↦ rw e (uniq, h)
        | inr (g, e) ↦ elim (Option-cases (db.find_first (has_device_id device_id) s.devices)) [
          | inl f ↦ rw (e, f) (uniq, h)
          | inr (d, f) ↦
              elim (Option-cases (db.find_first (assigned_to user_id d.id) s.assignments)) [
                | inl a ↦ rw (e, f, a) (uniq, h)
                | inr (own, a) ↦ elim (Option-cases d.group_id) [
                  | inr (old, k) ↦ rw (e, f, a, k) (uniq, h)
                  | inl k ↦
                      elim (Option-cases (db.find_first (owned_by d.id) s.device_thresholds)) [
                        | inr (t, l) ↦ rw (e, f, a, k, l) (uniq, h)
                        | inl l ↦
                            rw
                              (
                                e,
                                f,
                                a,
                                k,
                                l,
                                db.update_many_lem (has_id d.id) (with_group (some group_id))
                                    s.devices,
                              )
                              (
                                Distinct-update_where id_of (has_id d.id)
                                    (with_group (some group_id)) s.devices (λ x. refl) uniq,
                                enter d.id group_id s.devices s.device_thresholds
                                    (db.find_first_missing (owned_by d.id) s.device_thresholds l) h,
                              )
                      ]
                ]
              ]
        ]
      ]

  remove_device_threshold-IsSound :
      (user_id device_id : ℕ) (s : State kv.Store)
      → IsSound s
      → IsSound (remove_device_threshold db kv user_id device_id s).1
  unfolding remove_device_threshold
  remove_device_threshold-IsSound user_id device_id s (uniq, h) =
      elim (Option-cases (db.find_first (has_device_id device_id) s.devices)) [
        | inl e ↦ rw e (uniq, h)
        | inr (d, e) ↦ elim (Option-cases (db.find_first (owned_by d.id) s.device_thresholds)) [
          | inl f ↦ rw (e, f) (uniq, h)
          | inr (t, f) ↦
              rw (e, f, db.delete_many_lem (owned_by d.id) s.device_thresholds)
                (
                  uniq,
                  All-remove_where (λ t. All (λ x. IsApart x t) s.devices) (owned_by d.id)
                      s.device_thresholds h,
                )
        ]
      ]

  -- The devices that some filter accepts leave their groups.
  leave-IsSound :
      (p : Device → Bool) (s : State kv.Store)
      → IsSound s
      → Distinct id_of (db.update_many p (with_group none) s.devices)
        × IsExclusive (db.update_many p (with_group none) s.devices) s.device_thresholds
  leave-IsSound p s (uniq, h) = rw (db.update_many_lem p (with_group none) s.devices) (
    Distinct-update_where id_of p (with_group none) s.devices (λ x. refl) uniq,
    ungroup p s.devices s.device_thresholds h,
  )

  remove_device_from_group-IsSound :
      (user_id group_id device_id : ℕ) (s : State kv.Store)
      → IsSound s
      → IsSound (remove_device_from_group db kv user_id group_id device_id s).1
  unfolding remove_device_from_group
  remove_device_from_group-IsSound user_id group_id device_id s h =
      let group = db.find_first (owned_group group_id user_id) s.groups in
      elim (Option-cases (
        db.find_first (λ d. (d.device_id == device_id) && in_group group_id d && is_some group)
          s.devices)) [ inl e ↦ rw e h | inr (d, e) ↦ rw e (leave-IsSound (has_id d.id) s h) ]

  delete_group-IsSound :
      (user_id group_id : ℕ) (s : State kv.Store)
      → IsSound s
      → IsSound (delete_group db kv user_id group_id s).1
  unfolding delete_group
  delete_group-IsSound user_id group_id s h =
      elim (Option-cases (db.find_first (owned_group group_id user_id) s.groups)) [
        | inl e ↦ rw e h
        | inr (g, e) ↦ rw e (leave-IsSound (in_group group_id) s h)
      ]

  -- The calls that write neither the devices nor their thresholds
  untouched :
      (s t : State kv.Store)
      → t.devices ≡ s.devices
      → t.device_thresholds ≡ s.device_thresholds
      → IsSound s
      → IsSound t
  untouched s t e f h = rw (e, f) h

  run_call-IsSound :
      (c : DeviceCall) (s : State kv.Store) → IsSound s → IsSound (run_call db kv c s)
  unfolding run_call
  run_call-IsSound (claiming user_id dto) s h =
      untouched s (claim_device db kv user_id dto s).1 (unfold claim_device in ground arith)
        (unfold claim_device in ground arith) h
  run_call-IsSound (unclaiming user_id device_id now) s h =
      untouched s (unclaim_device db kv user_id device_id now s).1
        (unfold unclaim_device in ground arith) (unfold unclaim_device in ground arith) h
  run_call-IsSound (setting user_id device_id thresholds) s h =
      set_device_threshold-IsSound user_id device_id thresholds s h
  run_call-IsSound (unsetting user_id device_id) s h =
      remove_device_threshold-IsSound user_id device_id s h
  run_call-IsSound (updating user_id device_id dto) s h =
      untouched s (update_device db kv user_id device_id dto s).1
        (unfold update_device in ground arith) (unfold update_device in ground arith) h
  run_call-IsSound (creating user_id name uuid) s h =
      untouched s (create_group db kv user_id name uuid s).1 (unfold create_group in refl)
        (unfold create_group in refl) h
  run_call-IsSound (adding user_id group_id device_id) s h =
      add_device_to_group-IsSound user_id group_id device_id s h
  run_call-IsSound (removing user_id group_id device_id) s h =
      remove_device_from_group-IsSound user_id group_id device_id s h
  run_call-IsSound (grouping user_id group_id thresholds) s h =
      untouched s (set_group_threshold db kv user_id group_id thresholds s).1
        (unfold set_group_threshold in ground arith) (unfold set_group_threshold in ground arith) h
  run_call-IsSound (ungrouping user_id group_id) s h =
      untouched s (remove_group_threshold db kv user_id group_id s).1
        (unfold remove_group_threshold in ground arith)
        (unfold remove_group_threshold in ground arith) h
  run_call-IsSound (deleting user_id group_id) s h = delete_group-IsSound user_id group_id s h

  -- After any sequence of claims, releases and changes of metadata, thresholds and groups that
  -- starts where device ids are unique and no device with a threshold of its own is in a group,
  -- the same holds.
  pub run_calls-IsSound :
      (calls : List DeviceCall) (s : State kv.Store) → IsSound s → IsSound (run_calls db kv calls s)
  unfolding run_calls
  run_calls-IsSound [] s h = h
  run_calls-IsSound (c ∷ rest) s h =
      run_calls-IsSound rest (run_call db kv c s) (run_call-IsSound c s h)

  -- The answer to a request for a threshold of a device, and the thresholds that it leaves, are
  -- the same for any two users who make it.
  pub set_device_threshold_any_user :
      (user_id other device_id : ℕ) (thresholds : Thresholds) (s : State kv.Store)
      → ((set_device_threshold db kv user_id device_id thresholds s).0
          ≡ (set_device_threshold db kv other device_id thresholds s).0)
        × ((set_device_threshold db kv user_id device_id thresholds s).1.device_thresholds
            ≡ (set_device_threshold db kv other device_id thresholds s).1.device_thresholds)
  unfolding set_device_threshold
  set_device_threshold_any_user user_id other device_id thresholds s =
      elim (Option-cases (db.find_first (has_device_id device_id) s.devices)) [
        | inl e ↦ (ground arith, ground arith)
        | inr (d, e) ↦ elim (Option-cases d.group_id) [
          | inr (g, f) ↦ (ground arith, ground arith)
          | inl f ↦ (ground arith, ground arith)
        ]
      ]
