-- ===== src/Premium/Effects.antt =====
-- What a successful call of the premium service writes (src/module/premium/premium.service.ts), and what the
-- guard then lets through.
use gbi_backend.Base.{
  ℕ, ◌≤◌, ◌<◌, ◌≡◌, refl, inl, inr, true, false, none, some, [], ◌∷◌, ◌++◌, All, All-update_where,
  All-of_members, Option-cases, arith, update_where,
}
use gbi_backend.Http.{ok, err, forbidden, premium_required}
use gbi_backend.Schema.{User, PremiumSubscription, admin}
use gbi_backend.Prisma.{Prisma}
use gbi_backend.Premium.{
  Tables, ActivatePremiumDto, RenewPremiumDto, RevokePremiumDto, has_id, activated, renewed,
  revoked_at, extended, active_of, new_subscription, activate_premium, renew_premium,
  revoke_premium,
}
use gbi_backend.Premium.Guard.{RequestUser, premium_can_activate}

abbrev pub session : User → RequestUser
session u = record { user = u; readonly = false; impersonated_by = none }

module _ (db : Prisma) where
  -- A successful activation makes the users with the given id premium until the requested date
  -- and adds exactly one ACTIVE subscription with the requested dates; the expiry date then lies
  -- after the activation date and after now.
  pub activate_premium_effect :
      (dto : ActivatePremiumDto) (admin_id uuid now : ℕ) (d : Tables) (s : PremiumSubscription)
      → (activate_premium db dto admin_id uuid now d).0 ≡ ok s
      → ((activate_premium db dto admin_id uuid now d).1.users
          ≡ update_where (has_id dto.user_id) (activated dto.expiry_date) d.users)
        × ((activate_premium db dto admin_id uuid now d).1.subs
            ≡ d.subs
              ++ new_subscription dto.user_id
                  (admin admin_id)
                  dto.activation_date
                  dto.expiry_date
                  uuid
                ∷ [])
        × (dto.activation_date < dto.expiry_date)
        × (now < dto.expiry_date)
  unfolding activate_premium
  activate_premium_effect dto admin_id uuid now d s h = (
    ground (arith, db.update_many_lem (has_id dto.user_id) (activated dto.expiry_date) d.users),
    ground (
      arith,
      db.create_lem
          (new_subscription dto.user_id (admin admin_id) dto.activation_date dto.expiry_date uuid)
          d.subs,
    ),
    ground arith,
    ground arith,
  )

  -- After a successful activation the premium guard admits the user at every time up to the
  -- requested expiry date.
  pub activate_premium_opens :
      (dto : ActivatePremiumDto) (admin_id uuid now t : ℕ) (d : Tables) (s : PremiumSubscription)
      → (activate_premium db dto admin_id uuid now d).0 ≡ ok s
      → t ≤ dto.expiry_date
      → All
          (λ w. w.id ≡ dto.user_id → premium_can_activate true (some (session w)) t ≡ ok tt)
          (activate_premium db dto admin_id uuid now d).1.users
  unfolding premium_can_activate
  activate_premium_opens dto admin_id uuid now t d s h le =
      rw ((activate_premium_effect dto admin_id uuid now d s h).0) (
        All-update_where (λ w. Unit {0})
          (λ w. w.id ≡ dto.user_id → premium_can_activate true (some (session w)) t ≡ ok tt)
          (has_id dto.user_id) (activated dto.expiry_date) d.users (λ w _ _ _. ground arith)
          (λ w _ k e. absurd (ground arith)) (All-of_members (λ w. Unit {0}) d.users (λ w _. tt)))

  -- After a successful revocation the premium guard refuses the user at every time, as not
  -- premium.
  pub revoke_premium_closes :
      (dto : RevokePremiumDto) (admin_id now t : ℕ) (d : Tables)
      → (revoke_premium db dto admin_id now d).0 ≡ ok tt
      → All
          (λ w.
            w.id ≡ dto.user_id
            → premium_can_activate true (some (session w)) t ≡ err forbidden premium_required)
          (revoke_premium db dto admin_id now d).1.users
  unfolding premium_can_activate
  revoke_premium_closes dto admin_id now t d h = rw (users_written) (
      All-update_where (λ w. Unit {0})
        (λ w.
          w.id ≡ dto.user_id
          → premium_can_activate true (some (session w)) t ≡ err forbidden premium_required)
        (has_id dto.user_id) (revoked_at now) d.users (λ w _ _ _. refl)
        (λ w _ k e. absurd (ground arith)) (All-of_members (λ w. Unit {0}) d.users (λ w _. tt)))
    where
      users_written :
          (revoke_premium db dto admin_id now d).1.users
          ≡ update_where (has_id dto.user_id) (revoked_at now) d.users
      users_written =
          unfold revoke_premium in
          ground (arith, db.update_many_lem (has_id dto.user_id) (revoked_at now) d.users)

  -- A successful renewal found a premium user with an expiry date before the requested one, and
  -- writes the requested date into that user's row and into exactly the user's ACTIVE
  -- subscriptions.
  pub renew_premium_extends :
      (dto : RenewPremiumDto) (admin_id : ℕ) (d : Tables)
      → (renew_premium db dto admin_id d).0 ≡ ok tt
      → (u : User) × (expiry : ℕ) × (db.find_first (has_id dto.user_id) d.users ≡ some u)
        × (u.is_premium ≡ true)
        × (u.premium_expiry ≡ some expiry)
        × (expiry < dto.new_expiry_date)
        × ((renew_premium db dto admin_id d).1.users
            ≡ update_where (has_id dto.user_id) (renewed dto.new_expiry_date) d.users)
        × ((renew_premium db dto admin_id d).1.subs
            ≡ update_where (active_of dto.user_id) (extended dto.new_expiry_date) d.subs)
  unfolding renew_premium
  renew_premium_extends dto admin_id d h =
      elim (Option-cases (db.find_first (has_id dto.user_id) d.users)) [
        | inl e ↦ absurd (ground arith)
        | inr (u, e) ↦ elim (Option-cases u.premium_expiry) [
          | inl n ↦ absurd (ground arith)
          | inr (t, p) ↦ (
            u,
            t,
            e,
            ground arith,
            p,
            ground arith,
            ground (
              arith,
              db.update_many_lem (has_id dto.user_id) (renewed dto.new_expiry_date) d.users,
            ),
            ground (
              arith,
              db.update_many_lem (active_of dto.user_id) (extended dto.new_expiry_date) d.subs,
            ),
          )
        ]
      ]
