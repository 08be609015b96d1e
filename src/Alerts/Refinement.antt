-- ===== src/Alerts/Refinement.antt =====
-- The evaluation of a message (src/alerts/alerts.service.ts, evaluateWithThresholds) is one step of the
-- machine of each assigned user and each parameter.
use gbi_backend.Base.{
  ℕ, ◌≡◌, ◌≢◌, refl, ◌∙◌, inl, inr, Bool, true, false, ◌&&◌, Option, none, some, List, [], ◌∷◌,
  Memᴰ, All, All-of_members, Distinct, All-member, Option-cases, Bool-cases, arith, ◌==◌,
  if◌then◌else◌,
}
use gbi_backend.Base.Int.{ℤ}
use gbi_backend.Prisma.{Prisma}
use gbi_backend.Alerts.{
  Level, normal, alerting, trigger, resolve, keep, Decision, decide, AlertState, Assignment, Store,
  Thresholds, Telemetry, is_key, in_users, in_params, is_assigned, snapshot, or_normal, act,
  check_param, check_params, check_users, evaluate, select_thresholds,
}
use gbi_backend.Alerts.Hysteresis.{next_level}
use gbi_backend.Alerts.Levels.{
  state_key, level_in, level_in-member, level_in-missing, level_in-upsert,
}

abbrev pub find_threshold : Thresholds → ℕ → Option ℤ
find_threshold [] parameter = none
find_threshold ((p, t) ∷ rest) parameter =
    let later = find_threshold rest parameter in if p == parameter then some t else later

in_params-absent : (p : ℕ) (ths : Thresholds) → All (λ e. p ≢ e.0) ths → in_params ths p ≡ false
in_params-absent p [] h = refl
in_params-absent p ((q, t) ∷ rest) h = ground (arith, in_params-absent p rest h.1, h.0)

in_users-absent :
    (u : ℕ) (us : List Assignment) → All (λ a. u ≢ a.user_id) us → in_users us u ≡ false
in_users-absent u [] h = refl
in_users-absent u (a ∷ rest) h = ground (arith, in_users-absent u rest h.1, h.0)

-- One step of a parameter's machine: a threshold and a reading are both needed.
abbrev pub after_reading : Option ℤ → Option ℤ → Level → Level
after_reading none value level = level
after_reading (some t) none level = level
after_reading (some t) (some v) level = next_level level v t

module _ (db : Prisma) (device_id : ℕ) (telemetry : Telemetry) (states : List AlertState)
    (now : ℕ) where
  abbrev old_level : ℕ → ℕ → Level
  old_level user_id parameter = or_normal (snapshot states user_id parameter)

  act-level :
      (w : Decision) (u p : ℕ) (v t : ℤ) (s : Store) (u' d' p' : ℕ)
      → level_in (act db device_id telemetry states now w u p v t s).states u' d' p' ≡ (
          if (u == u') && (device_id == d') && (p == p')
          then elim w [ trigger ↦ alerting | resolve ↦ normal | keep ↦ level_in s.states u' d' p' ]
          else level_in s.states u' d' p')
  unfolding act
  act-level trigger u p v t s u' d' p' = level_in-upsert db _ s.states u' d' p'
  act-level resolve u p v t s u' d' p' = level_in-upsert db _ s.states u' d' p'
  act-level keep u p v t s u' d' p' = ground arith

  check_param-level :
      (u p : ℕ) (t : ℤ) (s : Store)
      → level_in s.states u device_id p ≡ old_level u p
      → level_in (check_param db device_id telemetry states now u p t s).states u device_id p
        ≡ after_reading (some t) (telemetry p) (old_level u p)
  unfolding check_param
  check_param-level u p t s h = elim (Option-cases (telemetry p)) [
    | inl e ↦ ground arith
    | inr (v, e) ↦ ground (arith, act-level (decide (old_level u p) v t) u p v t s u device_id p)
  ]

  check_param-other :
      (u p : ℕ) (t : ℤ) (s : Store) (u' d' p' : ℕ)
      → ((u == u') && (device_id == d') && (p == p')) ≡ false
      → level_in (check_param db device_id telemetry states now u p t s).states u' d' p'
        ≡ level_in s.states u' d' p'
  unfolding check_param
  check_param-other u p t s u' d' p' ne = elim (Option-cases (telemetry p)) [
    | inl e ↦ ground arith
    | inr (v, e) ↦ ground (arith, act-level (decide (old_level u p) v t) u p v t s u' d' p')
  ]

  check_params-absent :
      (u : ℕ) (ths : Thresholds) (s : Store) (u' d' p' : ℕ)
      → ((u == u') && (device_id == d') && in_params ths p') ≡ false
      → level_in (check_params db device_id telemetry states now u ths s).states u' d' p'
        ≡ level_in s.states u' d' p'
  unfolding check_params
  check_params-absent u [] s u' d' p' ne = refl
  check_params-absent u ((p, t) ∷ rest) s u' d' p' ne =
      check_params-absent u rest (check_param db device_id telemetry states now u p t s) u' d' p'
        (ground arith)
      ∙ check_param-other u p t s u' d' p' (ground arith)

  check_params-level :
      (u : ℕ) (ths : Thresholds) (s : Store) (p' : ℕ)
      → Distinct (λ (e : ℕ × ℤ). e.0) ths
      → (in_params ths p' ≡ true → level_in s.states u device_id p' ≡ old_level u p')
      → level_in (check_params db device_id telemetry states now u ths s).states u device_id p'
        ≡ after_reading (find_threshold ths p') (telemetry p') (level_in s.states u device_id p')
  unfolding check_params
  check_params-level u [] s p' uniq h = refl
  check_params-level u ((p, t) ∷ rest) s p' uniq h = elim (Bool-cases (p == p')) [
    | inl e ↦
        let absent : in_params rest p ≡ false = in_params-absent p rest uniq.0 in
        let old : level_in s.states u device_id p' ≡ old_level u p' = h (ground arith) in
        check_params-absent u rest (check_param db device_id telemetry states now u p t s) u
          device_id p' (ground arith)
        ∙ ground (arith, check_param-level u p t s, old)
    | inr e ↦
        let same = check_param-other u p t s u device_id p' (ground arith) in
        check_params-level u rest (check_param db device_id telemetry states now u p t s) p' uniq.1
          (λ i. same ∙ h (ground arith))
        ∙ ground (arith, same)
  ]

  check_users-absent :
      (us : List Assignment) (ths : Thresholds) (s : Store) (u' d' p' : ℕ)
      → (in_users us u' && (device_id == d') && in_params ths p') ≡ false
      → level_in (check_users db device_id telemetry states now us ths s).states u' d' p'
        ≡ level_in s.states u' d' p'
  unfolding check_users
  check_users-absent [] ths s u' d' p' ne = refl
  check_users-absent (a ∷ rest) ths s u' d' p' ne =
      check_users-absent rest ths (check_params db device_id telemetry states now a.user_id ths s)
        u' d' p' (ground arith)
      ∙ check_params-absent a.user_id ths s u' d' p' (ground arith)

  check_users-level :
      (us : List Assignment) (ths : Thresholds) (s : Store) (u' p' : ℕ)
      → Distinct (λ (a : Assignment). a.user_id) us
      → Distinct (λ (e : ℕ × ℤ). e.0) ths
      → in_users us u' ≡ true
      → (in_params ths p' ≡ true → level_in s.states u' device_id p' ≡ old_level u' p')
      → level_in (check_users db device_id telemetry states now us ths s).states u' device_id p'
        ≡ after_reading (find_threshold ths p') (telemetry p') (level_in s.states u' device_id p')
  unfolding check_users
  check_users-level [] ths s u' p' uniq keys hit h = cc
  check_users-level (a ∷ rest) ths s u' p' uniq keys hit h = elim (Bool-cases (a.user_id == u')) [
    | inl e ↦
        let absent : in_users rest a.user_id ≡ false = in_users-absent a.user_id rest uniq.0 in
        let me : a.user_id ≡ u' = ground arith in
        check_users-absent rest ths (check_params db device_id telemetry states now a.user_id ths s)
          u' device_id p' (ground arith)
        ∙ rw me (check_params-level u' ths s p' keys h)
    | inr e ↦
        let same = check_params-absent a.user_id ths s u' device_id p' (ground arith) in
        check_users-level rest ths (check_params db device_id telemetry states now a.user_id ths s)
          u' p' uniq.1 keys (ground arith) (λ i. same ∙ h i)
        ∙ ground (arith, same)
  ]

abbrev is_row : ℕ → ℕ → AlertState → Bool
is_row u p r = (r.user_id == u) && (r.parameter == p)

snapshot-some :
    (rows : List AlertState) (u p : ℕ) (l : Level)
    → snapshot rows u p ≡ some l
    → (r : AlertState) × Memᴰ r rows × (is_row u p r ≡ true) × (r.state ≡ l)
snapshot-some [] u p l h = cc
snapshot-some (s ∷ rest) u p l h = elim (Option-cases (snapshot rest u p)) [
  | inl e ↦ (s, Memᴰ.head refl, ground arith, ground arith)
  | inr (k, e) ↦
      let (r, m, hit, same) = snapshot-some rest u p k e in (r, Memᴰ.tail m, hit, ground arith)
]

snapshot-none :
    (rows : List AlertState) (u p : ℕ)
    → snapshot rows u p ≡ none
    → All (λ r. is_row u p r ≡ false) rows
snapshot-none [] u p h = tt
snapshot-none (s ∷ rest) u p h = elim (Option-cases (snapshot rest u p)) [
  | inl e ↦ (ground arith, snapshot-none rest u p e)
  | inr (k, e) ↦ absurd (ground arith)
]

module _ (db : Prisma) (device_id : ℕ) where
  abbrev wanted : List Assignment → Thresholds → AlertState → Bool
  wanted us ths r = (r.device_id == device_id) && in_users us r.user_id && in_params ths r.parameter

  -- The snapshot holds the levels of the table.
  old_level-eq-level_in :
      (us : List Assignment) (ths : Thresholds) (rows : List AlertState) (u p : ℕ)
      → Distinct state_key rows
      → in_users us u ≡ true
      → in_params ths p ≡ true
      → level_in rows u device_id p ≡ or_normal (snapshot (db.find_many (wanted us ths) rows) u p)
  old_level-eq-level_in us ths rows u p uniq hu hp =
      elim (Option-cases (snapshot (db.find_many (wanted us ths) rows) u p)) [
        | inl e ↦ rw e (
            level_in-missing u device_id p rows
              (All-of_members (λ r. is_key u device_id p r ≡ false) rows (λ r m. missing e r m)))
        | inr (l, e) ↦
            let (r, m, hit, same) = snapshot-some (db.find_many (wanted us ths) rows) u p l e in
            let (q, k) = db.find_many_sound (wanted us ths) rows r m in
            rw e (level_in-member u device_id p rows r uniq k (ground arith) ∙ same)
      ]
    where
      missing :
          snapshot (db.find_many (wanted us ths) rows) u p ≡ none
          → (r : AlertState) → Memᴰ r rows
          → is_key u device_id p r ≡ false
      missing e r m = elim (Bool-cases (is_key u device_id p r)) [
        | inr no_key ↦ no_key
        | inl key ↦
            let a : r.user_id ≡ u = ground arith in
            let b : r.parameter ≡ p = ground arith in
            let q : wanted us ths r ≡ true = ground arith in
            let none_found =
              All-member (λ r. is_row u p r ≡ false) (db.find_many (wanted us ths) rows) r
                (snapshot-none (db.find_many (wanted us ths) rows) u p e)
                (db.find_many_complete (wanted us ths) rows r m q) in
            absurd (ground arith)
      ]

  -- Where the stored states have unique keys, the assigned users found are distinct and the
  -- chosen thresholds name each parameter once, an evaluation moves the level of every assigned
  -- user and every parameter of the device by one step of the two-level machine, on the
  -- parameter's threshold and reading where both are there, and leaves the level of every other
  -- user, device and parameter as it was.
  pub evaluate-level :
      (telemetry : Telemetry) (now : ℕ) (s : Store) (u d p : ℕ)
      → Distinct state_key s.states
      → Distinct
          (λ (a : Assignment). a.user_id)
          (db.find_many (is_assigned device_id) s.assignments)
      → Distinct (λ (e : ℕ × ℤ). e.0) (select_thresholds db device_id s)
      → level_in (evaluate db device_id telemetry now s).states u d p ≡ (
          if (d == device_id) && in_users (db.find_many (is_assigned device_id) s.assignments) u
          then after_reading
              (find_threshold (select_thresholds db device_id s) p)
              (telemetry p)
              (level_in s.states u d p)
          else level_in s.states u d p)
  unfolding evaluate
  evaluate-level telemetry now s u d p uniq users keys =
      let us = db.find_many (is_assigned device_id) s.assignments in
      let ths = select_thresholds db device_id s in
      let states = db.find_many (wanted us ths) s.states in
      elim (Bool-cases ((d == device_id) && in_users us u)) [
        | inl e ↦ rw e (
            let me : d ≡ device_id = ground arith in
            rw me (
              check_users-level db device_id telemetry states now us ths s u p users keys
                (ground arith)
                (λ hp. old_level-eq-level_in us ths s.states u p uniq (ground arith) hp)))
        | inr e ↦
            rw e
              (check_users-absent db device_id telemetry states now us ths s u d p (ground arith))
      ]
