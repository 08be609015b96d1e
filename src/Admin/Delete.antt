-- ===== src/Admin/Delete.antt =====
-- The deletion of a user in src/module/admin/admin.repository.ts (deleteUser).
use gbi_backend.Base.{
  ℕ, ◌≡◌, refl, ◌⊎◌, inl, inr, Bool, true, false, Option, none, some, List, [], ◌∷◌, map, All,
  All-of_members, All-update_where, All-remove_where_kept, Memᴰ, Option-cases, Bool-cases, arith,
  ◌==◌,
}
use gbi_backend.Http.{
  Status, Reason, ok, err, bad_request, not_found, user_not_found, profile_complete, internal,
  record_not_found, Action, pure, throw_if, gets, or_throw, modify, transaction, ◌>>=◌, ◌>>◌,
}
use gbi_backend.Schema.{User, RefreshToken}
use gbi_backend.Prisma.{Prisma}
use gbi_backend.Alerts.{Assignment, AlertState, Notification}
use gbi_backend.Devices.{Device, DeviceGroup, UserDevice, with_group}
use gbi_backend.Auth.{has_user_id, token_of}
use gbi_backend.Admin.Bulk.{includes_id}

-- A log is kept when its user is gone.
pub record EventLog : Type 0 where
  pub device_id : ℕ
  pub user_id : Option ℕ

pub record State : Type 0 where
  pub users : List User
  pub groups : List DeviceGroup
  pub devices : List Device
  pub meta : List UserDevice
  pub assignments : List Assignment
  pub alert_states : List AlertState
  pub notifications : List Notification
  pub event_logs : List EventLog
  pub tokens : List RefreshToken

abbrev pub in_groups : List ℕ → Device → Bool
in_groups ids d = elim d.group_id [ none ↦ false | some g ↦ includes_id ids g ]

abbrev pub log_of : ℕ → EventLog → Bool
log_of user_id l = elim l.user_id [ none ↦ false | some u ↦ u == user_id ]

abbrev pub group_of : ℕ → DeviceGroup → Bool
group_of user_id g = g.user_id == user_id

abbrev pub anonymous : EventLog → EventLog
anonymous l = record l { user_id = none }

module _ (db : Prisma) where
  open db use {find_first, find_many, update_many, delete_many}

  abbrev Call : Type 0
  Call = Action State (Unit {0})

  -- steps 1 and 2, where the user has a group
  leave_groups : List ℕ → Call
  leave_groups [] = pure tt
  leave_groups (id ∷ ids) = modify (λ s. record s {
    devices = update_many (in_groups (id ∷ ids)) (with_group none) s.devices;
    groups = delete_many (λ g. includes_id (id ∷ ids) g.id) s.groups;
  })

  unfoldable pub delete_user : ℕ → Action State (Unit {0})
  unfolding leave_groups
  delete_user user_id = do
    user ←
        or_throw (← gets (λ s. find_first (has_user_id user_id) s.users)) not_found user_not_found
    throw_if user.is_profile_complete bad_request profile_complete
    transaction (do
      groups ← gets (λ s. map (λ (g : DeviceGroup). g.id) (find_many (group_of user_id) s.groups))
      leave_groups groups
      modify (λ s. record s { meta = delete_many (λ m. m.user_id == user_id) s.meta })
      modify (λ s. record s { assignments = delete_many (λ a. a.user_id == user_id) s.assignments })
      modify
          (λ s. record s { alert_states = delete_many (λ a. a.user_id == user_id) s.alert_states })
      modify (λ s. record s {
        notifications = delete_many (λ n. n.user_id == user_id) s.notifications;
      })
      modify (λ s. record s { event_logs = update_many (log_of user_id) anonymous s.event_logs })
      modify (λ s. record s { tokens = delete_many (token_of user_id) s.tokens })
      found ←
          or_throw (← gets (λ s. find_first (has_user_id user_id) s.users)) internal
            record_not_found
      modify (λ s. record s { users = delete_many (has_user_id user_id) s.users }))

  -- The state that the steps leave, from the ids of the user's groups on.
  abbrev without : ℕ → List ℕ → State → State
  without user_id ids s = record {
    users = delete_many (has_user_id user_id) s.users;
    groups = (leave_groups ids s).1.groups;
    devices = (leave_groups ids s).1.devices;
    meta = delete_many (λ m. m.user_id == user_id) s.meta;
    assignments = delete_many (λ a. a.user_id == user_id) s.assignments;
    alert_states = delete_many (λ a. a.user_id == user_id) s.alert_states;
    notifications = delete_many (λ n. n.user_id == user_id) s.notifications;
    event_logs = update_many (log_of user_id) anonymous s.event_logs;
    tokens = delete_many (token_of user_id) s.tokens;
  }

  abbrev pub groups_of : ℕ → State → List ℕ
  groups_of user_id s = map (λ (g : DeviceGroup). g.id) (find_many (group_of user_id) s.groups)

  leave_groups_lem :
      (ids : List ℕ) (s : State)
      → leave_groups ids s ≡ (
        ok tt,
        record s {
          groups = (leave_groups ids s).1.groups;
          devices = (leave_groups ids s).1.devices;
        },
      )
  unfolding leave_groups
  leave_groups_lem [] s = refl
  leave_groups_lem (id ∷ ids) s = refl

  delete_user_outcomes :
      (user_id : ℕ) (s : State)
      → ((code : Status) × (why : Reason) × (delete_user user_id s ≡ (err code why, s)))
        ⊎ ((u : User) × (find_first (has_user_id user_id) s.users ≡ some u)
            × (u.is_profile_complete ≡ false)
            × (delete_user user_id s ≡ (ok tt, without user_id (groups_of user_id s) s)))
  unfolding delete_user
  delete_user_outcomes user_id s = elim (Option-cases (find_first (has_user_id user_id) s.users)) [
    | inl e ↦ inl (not_found, user_not_found, ground arith)
    | inr (u, e) ↦ elim (Bool-cases u.is_profile_complete) [
      | inl p ↦ inl (bad_request, profile_complete, ground arith)
      | inr p ↦ let l = leave_groups_lem (groups_of user_id s) s in inr (u, e, p, ground arith)
    ]
  ]

  -- Nothing in the tables refers to the user, and no device to a group that the user had.
  abbrev pub IsForgotten : ℕ → List ℕ → State → Type 0
  IsForgotten user_id groups s =
      All (λ u. has_user_id user_id u ≡ false) s.users
      × All (λ g. group_of user_id g ≡ false) s.groups
      × All (λ d. in_groups groups d ≡ false) s.devices
      × All (λ m. (m.user_id == user_id) ≡ false) s.meta
      × All (λ a. (a.user_id == user_id) ≡ false) s.assignments
      × All (λ a. (a.user_id == user_id) ≡ false) s.alert_states
      × All (λ n. (n.user_id == user_id) ≡ false) s.notifications
      × All (λ l. log_of user_id l ≡ false) s.event_logs
      × All (λ r. token_of user_id r ≡ false) s.tokens

  removed-All :
      {Row : Type 0} (p : Row → Bool) (t : List Row) → All (λ r. p r ≡ false) (delete_many p t)
  removed-All p t = rw (db.delete_many_lem p t) (
      All-remove_where_kept (λ r. Unit {0}) (λ r. p r ≡ false) p t (λ r u k. k)
        (All-of_members (λ r. Unit {0}) t (λ r m. tt)))

  changed-All :
      {Row : Type 0} (p : Row → Bool) (f : Row → Row) (t : List Row)
      → ((r : Row) → p (f r) ≡ false)
      → All (λ r. p r ≡ false) (update_many p f t)
  changed-All p f t g = rw (db.update_many_lem p f t) (
      All-update_where (λ r. Unit {0}) (λ r. p r ≡ false) p f t (λ r u k. g r) (λ r u k. k)
        (All-of_members (λ r. Unit {0}) t (λ r m. tt)))

  includes_id-member :
      {Row : Type 0} (key : Row → ℕ) (x : Row) (t : List Row)
      → Memᴰ x t
      → includes_id (map key t) (key x) ≡ true
  includes_id-member key x [] m = elim m [ ]
  includes_id-member key x (y ∷ t) (Memᴰ.head e) =
      rw e (elim (Bool-cases (key y == key y)) [
        | inl k ↦ ground arith
        | inr k ↦ absurd (ground arith)
      ])
  includes_id-member key x (y ∷ t) (Memᴰ.tail m) =
      let more = includes_id-member key x t m in
      elim (Bool-cases (key y == key x)) [ inl k ↦ ground arith | inr k ↦ ground arith ]

  leave_groups_devices :
      (ids : List ℕ) (s : State) → All (λ d. in_groups ids d ≡ false) (leave_groups ids s).1.devices
  unfolding leave_groups
  leave_groups_devices [] s =
      All-of_members (λ d. in_groups [] d ≡ false) s.devices
        (λ d m. elim (Option-cases d.group_id) [ inl e ↦ rw e | inr (g, e) ↦ rw e ])
  leave_groups_devices (id ∷ ids) s =
      changed-All (in_groups (id ∷ ids)) (with_group none) s.devices (λ d. refl)

  leave_groups_groups :
      (user_id : ℕ) (ids : List ℕ) (s : State)
      → ((g : DeviceGroup)
          → Memᴰ g s.groups
          → group_of user_id g ≡ true
          → includes_id ids g.id ≡ true)
      → All (λ g. group_of user_id g ≡ false) (leave_groups ids s).1.groups
  unfolding leave_groups
  leave_groups_groups user_id [] s h =
      All-of_members (λ g. group_of user_id g ≡ false) s.groups
        (λ g m. elim (Bool-cases (group_of user_id g)) [
          | inl e ↦ absurd (let k = h g m e in ground arith)
          | inr e ↦ e
        ])
  leave_groups_groups user_id (id ∷ ids) s h =
      rw (db.delete_many_lem (λ (g : DeviceGroup). includes_id (id ∷ ids) g.id) s.groups) (
        All-remove_where_kept (λ g. group_of user_id g ≡ true → includes_id (id ∷ ids) g.id ≡ true)
          (λ g. group_of user_id g ≡ false) (λ g. includes_id (id ∷ ids) g.id) s.groups
          (λ g i k. elim (Bool-cases (group_of user_id g)) [
            | inl e ↦ absurd (let q = i e in ground arith)
            | inr e ↦ e
          ])
          (All-of_members (λ g. group_of user_id g ≡ true → includes_id (id ∷ ids) g.id ≡ true)
            s.groups h))

  -- After a deletion of a user that succeeded, no user, group, metadata, assignment, alert
  -- state, notification, log or token refers to that user, and no device to a group that the
  -- user had.
  pub delete_user_forgets :
      (user_id : ℕ) (s : State)
      → (delete_user user_id s).0 ≡ ok tt
      → IsForgotten user_id (groups_of user_id s) (delete_user user_id s).1
  delete_user_forgets user_id s h = elim (delete_user_outcomes user_id s) [
    | inl (code, why, q) ↦ absurd (ground arith)
    | inr (u, e, p, q) ↦ rw q (
      removed-All (has_user_id user_id) s.users,
      leave_groups_groups user_id (groups_of user_id s) s (λ g m own.
          includes_id-member (λ (x : DeviceGroup). x.id) g (find_many (group_of user_id) s.groups)
            (db.find_many_complete (group_of user_id) s.groups g m own)),
      leave_groups_devices (groups_of user_id s) s,
      removed-All (λ (m : UserDevice). m.user_id == user_id) s.meta,
      removed-All (λ (a : Assignment). a.user_id == user_id) s.assignments,
      removed-All (λ (a : AlertState). a.user_id == user_id) s.alert_states,
      removed-All (λ (n : Notification). n.user_id == user_id) s.notifications,
      changed-All (log_of user_id) anonymous s.event_logs (λ l. refl),
      removed-All (token_of user_id) s.tokens,
    )
  ]
