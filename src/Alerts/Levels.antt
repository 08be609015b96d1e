-- ===== src/Alerts/Levels.antt =====
-- The level that the table AlertState (src/alerts/alerts.repository.ts) holds for a user, a device and a
-- parameter, and how the upsert of a row changes it.
use gbi_backend.Base.{
  ℕ, ◌≡◌, refl, ap, inl, inr, true, false, ◌&&◌, List, [], ◌∷◌, ◌++◌, Memᴰ, All, All-imp, Distinct,
  All-member, Option-cases, Bool-cases, arith, ◌==◌, if◌then◌else◌, update_where, subst, ◌≢◌,
}
use gbi_backend.Prisma.{Prisma}
use gbi_backend.Alerts.{Level, normal, AlertState, is_key, upsert_alert_state}

-- The unique key [userId, deviceId, parameter].
abbrev pub state_key : AlertState → ℕ × ℕ × ℕ
state_key s = (s.user_id, s.device_id, s.parameter)

unfoldable pub level_in : List AlertState → (user_id device_id parameter : ℕ) → Level
level_in [] user_id device_id parameter = normal
level_in (s ∷ rest) user_id device_id parameter =
    let later = level_in rest user_id device_id parameter in
    if is_key user_id device_id parameter s then s.state else later

module _ (u d p : ℕ) where
  level_in-append_miss :
      (rows : List AlertState) (r : AlertState)
      → is_key u d p r ≡ false
      → level_in (rows ++ r ∷ []) u d p ≡ level_in rows u d p
  unfolding level_in
  level_in-append_miss [] r e = rw e
  level_in-append_miss (s ∷ rows) r e =
      ap (λ later. if is_key u d p s then s.state else later) (level_in-append_miss rows r e)

  level_in-append_hit :
      (rows : List AlertState) (r : AlertState)
      → All (λ s. is_key u d p s ≡ false) rows
      → is_key u d p r ≡ true
      → level_in (rows ++ r ∷ []) u d p ≡ r.state
  unfolding level_in
  level_in-append_hit [] r h e = rw e
  level_in-append_hit (s ∷ rows) r h e = rw (h.0) (level_in-append_hit rows r h.1 e)

  pub level_in-missing :
      (rows : List AlertState)
      → All (λ s. is_key u d p s ≡ false) rows
      → level_in rows u d p ≡ normal
  unfolding level_in
  level_in-missing [] h = refl
  level_in-missing (s ∷ rows) h = rw (h.0) (level_in-missing rows h.1)

  pub level_in-member :
      (rows : List AlertState) (r : AlertState)
      → Distinct state_key rows
      → Memᴰ r rows
      → is_key u d p r ≡ true
      → level_in rows u d p ≡ r.state
  unfolding level_in
  level_in-member [] r uniq m e = elim m [ ]
  level_in-member (s ∷ rows) r uniq (Memᴰ.head same) e = ground arith
  level_in-member (s ∷ rows) r uniq (Memᴰ.tail m) e = elim (Bool-cases (is_key u d p s)) [
    | inl hit ↦ absurd (All-member (λ t. state_key s ≢ state_key t) rows r uniq.0 m (ground arith))
    | inr miss ↦ rw miss (level_in-member rows r uniq.1 m e)
  ]

  module _ (f : AlertState → AlertState) (l : Level)
      (same : (s : AlertState) → (state_key (f s) ≡ state_key s) × ((f s).state ≡ l)) where
    level_in-update_hit :
        (rows : List AlertState) (r : AlertState)
        → Memᴰ r rows
        → is_key u d p r ≡ true
        → level_in (update_where (is_key u d p) f rows) u d p ≡ l
    unfolding level_in
    level_in-update_hit [] r m e = elim m [ ]
    level_in-update_hit (s ∷ rows) r (Memᴰ.head q) e =
        let k : is_key u d p s ≡ true = subst (λ t. is_key u d p t ≡ true) q e in
        ground (arith, same s)
    level_in-update_hit (s ∷ rows) r (Memᴰ.tail m) e =
        ground (arith, same s, level_in-update_hit rows r m e)

    level_in-update_miss :
        (u' d' p' : ℕ) (rows : List AlertState)
        → ((u == u') && (d == d') && (p == p')) ≡ false
        → level_in (update_where (is_key u d p) f rows) u' d' p' ≡ level_in rows u' d' p'
    unfolding level_in
    level_in-update_miss u' d' p' [] ne = refl
    level_in-update_miss u' d' p' (s ∷ rows) ne =
        ground (arith, same s, level_in-update_miss u' d' p' rows ne)

-- The row that an upsert writes decides the level of its own key, and of no other.
pub level_in-upsert :
    (db : Prisma) (row : AlertState) (rows : List AlertState) (u d p : ℕ)
    → level_in (upsert_alert_state db row rows) u d p
      ≡ (if is_key u d p row then row.state else level_in rows u d p)
unfolding upsert_alert_state
level_in-upsert db row rows u d p = elim (Option-cases (db.find_first (is_key i j k) rows)) [
  | inl e ↦ elim (Bool-cases (is_key u d p row)) [
    | inl same ↦
        rw (e, upsert_alert_state, db.create_lem row rows, same)
          (level_in-append_hit u d p rows row
            (ours same (db.find_first_missing (is_key i j k) rows e)) same)
    | inr other ↦
        rw (e, upsert_alert_state, db.create_lem row rows, other)
          (level_in-append_miss u d p rows row other)
  ]
  | inr (r, e) ↦ elim (Bool-cases (is_key u d p row)) [
    | inl same ↦
        rw (e, upsert_alert_state, db.update_many_lem (is_key i j k) write rows, same)
          (hit r same (db.find_first_found (is_key i j k) rows r e))
    | inr other ↦
        rw (e, upsert_alert_state, db.update_many_lem (is_key i j k) write rows, other)
          (level_in-update_miss i j k write row.state (λ s. (refl, refl)) u d p rows (ground arith))
  ]
]
  where
    i : ℕ
    i = row.user_id

    j : ℕ
    j = row.device_id

    k : ℕ
    k = row.parameter

    write : AlertState → AlertState
    write t = record t { state = row.state; last_triggered_at = row.last_triggered_at }

    ours :
        is_key u d p row ≡ true
        → All (λ s. is_key i j k s ≡ false) rows
        → All (λ s. is_key u d p s ≡ false) rows
    ours same h =
        All-imp (λ s. is_key i j k s ≡ false) (λ s. is_key u d p s ≡ false) rows
          (λ s e. ground arith) h

    hit :
        (r : AlertState)
        → is_key u d p row ≡ true
        → (is_key i j k r ≡ true) × Memᴰ r rows
        → level_in (update_where (is_key i j k) write rows) u d p ≡ row.state
    hit r same (q, m) =
        let a : u ≡ i = ground arith in
        let b : d ≡ j = ground arith in
        let c : p ≡ k = ground arith in
        rw (a, b, c) (level_in-update_hit i j k write row.state (λ s. (refl, refl)) rows r m q)
