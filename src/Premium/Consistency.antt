-- ===== src/Premium/Consistency.antt =====
-- The membership fields of a user's row (src/module/premium/premium.repository.ts) agree with one another.
use gbi_backend.Base.{
  ℕ, ◌≡◌, refl, ◌≢◌, inl, inr, true, false, none, some, List, All, All-update_where, Option-cases,
  arith, Distinct, All-and,
}
use gbi_backend.Schema.{PremiumStatus, User}
use gbi_backend.Prisma.{Prisma}
use gbi_backend.Premium.Expiry.{handle_expired-users, overdue_ids}
use gbi_backend.Prisma.Unique.{All-found}
use gbi_backend.Premium.{
  Tables, ActivatePremiumDto, RenewPremiumDto, RevokePremiumDto, activated, renewed, revoked_at,
  lapsed, activate_premium, renew_premium, revoke_premium, handle_expired_subscriptions, id_in,
  has_id,
}

-- The premium flag is set exactly if the status is PREMIUM, and then there is an expiry date.
abbrev pub IsConsistent : User → Type 0
IsConsistent u =
    (u.is_premium ≡ true → (u.premium_status ≡ PremiumStatus.premium) × (u.premium_expiry ≢ none))
    × (u.is_premium ≡ false → u.premium_status ≢ PremiumStatus.premium)

module _ (db : Prisma) where
  users_after :
      (user_id : ℕ) (change : User → User) (t : List User)
      → ((u : User) → IsConsistent u → IsConsistent (change u))
      → All IsConsistent t
      → All IsConsistent (db.update_many (has_id user_id) change t)
  users_after user_id change t keep h = rw (db.update_many_lem (has_id user_id) change t) (
      All-update_where IsConsistent IsConsistent (has_id user_id) change t (λ u c _. keep u c)
        (λ u c _. c) h)

  pub activate_premium-IsConsistent :
      (dto : ActivatePremiumDto) (admin_id uuid now : ℕ) (d : Tables)
      → All IsConsistent d.users
      → All IsConsistent (activate_premium db dto admin_id uuid now d).1.users
  unfolding activate_premium
  activate_premium-IsConsistent dto admin_id uuid now d h = ground (
    arith,
    users_after dto.user_id (activated dto.expiry_date) d.users
        (λ u _. (λ _. (refl, λ e. cc), λ e. cc)) h,
  )

  -- A renewal does not write the flag: that it is set was checked on the row that was read.
  renewed_users :
      (user_id new_expiry : ℕ) (t : List User) (u : User)
      → Distinct (λ (w : User). w.id) t
      → db.find_first (has_id user_id) t ≡ some u
      → u.is_premium ≡ true
      → All IsConsistent t
      → All IsConsistent (db.update_many (has_id user_id) (renewed new_expiry) t)
  renewed_users user_id new_expiry t u uniq e p h =
      rw (db.update_many_lem (has_id user_id) (renewed new_expiry) t) (
        All-update_where (λ w. IsConsistent w × (w.id ≡ user_id → w ≡ u)) IsConsistent
          (has_id user_id) (renewed new_expiry) t
          (λ w c k. let same : w ≡ u = c.1 (ground arith) in (λ _. (refl, λ n. cc), λ n. cc))
          (λ w c _. c.0)
          (All-and IsConsistent (λ w. w.id ≡ user_id → w ≡ u) t h
            (All-found db (λ w. w.id) user_id t u uniq e)))

  pub renew_premium-IsConsistent :
      (dto : RenewPremiumDto) (admin_id : ℕ) (d : Tables)
      → Distinct (λ (u : User). u.id) d.users
      → All IsConsistent d.users
      → All IsConsistent (renew_premium db dto admin_id d).1.users
  unfolding renew_premium
  renew_premium-IsConsistent dto admin_id d uniq h =
      elim (Option-cases (db.find_first (has_id dto.user_id) d.users)) [
        | inl e ↦ ground arith
        | inr (u, e) ↦ ground (
          arith,
          λ (p : u.is_premium ≡ true).
              renewed_users dto.user_id dto.new_expiry_date d.users u uniq e p h,
        )
      ]

  pub revoke_premium-IsConsistent :
      (dto : RevokePremiumDto) (admin_id now : ℕ) (d : Tables)
      → All IsConsistent d.users
      → All IsConsistent (revoke_premium db dto admin_id now d).1.users
  unfolding revoke_premium
  revoke_premium-IsConsistent dto admin_id now d h =
      ground
        (arith, users_after dto.user_id (revoked_at now) d.users (λ u _. (λ e. cc, λ _ e. cc)) h)

  -- The flag and the status of an overdue user are written together.
  pub handle_expired-IsConsistent :
      (now : ℕ) (d : Tables)
      → All IsConsistent d.users
      → All IsConsistent (handle_expired_subscriptions db now d).1.users
  handle_expired-IsConsistent now d h = rw (handle_expired-users db now d) (
      All-update_where IsConsistent IsConsistent (λ u. id_in (overdue_ids db now d.users) u.id)
        lapsed d.users (λ u _ _. (λ e. cc, λ _ e. cc)) (λ u c _. c) h)
