-- ===== src/Payments/Purchase.antt =====
-- What a purchase writes (src/module/subscriptions/payments/payments.service.ts,
-- activateUserSubscription).
use gbi_backend.Base.{
  ℕ, ◌<◌, ◌≡◌, refl, true, none, some, [], ◌∷◌, ◌++◌, All, All-update_where, All-of_members, arith,
  update_where,
}
use gbi_backend.Http.{ok, err, Status, Reason}
use gbi_backend.Schema.{User, SubscriptionPlan, system_payment}
use gbi_backend.Prisma.{Prisma}
use gbi_backend.Premium.{has_id, activated, new_subscription}
use gbi_backend.Payments.{
  Store, activated_until, of_order, has_plan_id, new_row, add_days, activate_user_subscription,
}

module _ (db : Prisma) where
  -- A call that throws
  pub activate_user_subscription_atomic :
      (user_id plan_id order payment_id uuid now : ℕ) (s : Store) {code : Status} {why : Reason}
      → (activate_user_subscription db user_id plan_id order payment_id uuid now s).0 ≡ err code why
      → (activate_user_subscription db user_id plan_id order payment_id uuid now s).1 ≡ s
  unfolding activate_user_subscription
  activate_user_subscription_atomic user_id plan_id order payment_id uuid now s h = ground arith

  -- What the first activation of an order for a plan and a user that exist returns and writes
  pub purchase_effect :
      (user_id plan_id order payment_id uuid now : ℕ) (s : Store) (plan : SubscriptionPlan)
      (u : User)
      → db.find_first (of_order order) s.subscriptions ≡ none
      → db.find_first (has_plan_id plan_id) s.plans ≡ some plan
      → db.find_first (has_id user_id) s.premium.users ≡ some u
      → let (r, s') = activate_user_subscription db user_id plan_id order payment_id uuid now s in
        let expiry = add_days now plan.duration_days in
        (r ≡ ok (activated_until expiry))
        × (s'.premium.users ≡ update_where (has_id user_id) (activated expiry) s.premium.users)
        × (s'.premium.subs
            ≡ s.premium.subs ++ new_subscription user_id system_payment now expiry uuid ∷ [])
        × (s'.subscriptions ≡ s.subscriptions ++ new_row user_id plan order payment_id expiry ∷ [])
  unfolding activate_user_subscription
  purchase_effect user_id plan_id order payment_id uuid now s plan u e f g =
      let expiry : ℕ = add_days now plan.duration_days in
      (
        ground arith,
        ground (arith, db.update_many_lem (has_id user_id) (activated expiry) s.premium.users),
        ground (
          arith,
          db.create_lem (new_subscription user_id system_payment now expiry uuid) s.premium.subs,
        ),
        ground
            (arith, db.create_lem (new_row user_id plan order payment_id expiry) s.subscriptions),
      )

  -- The first activation of an order by a premium user whose expiry date lies later than the
  -- plan's days after now moves that user's expiry date to an earlier one.
  pub purchase_may_shorten :
      (user_id plan_id order payment_id uuid now : ℕ) (s : Store) (plan : SubscriptionPlan)
      (u : User) (expiry : ℕ)
      → db.find_first (of_order order) s.subscriptions ≡ none
      → db.find_first (has_plan_id plan_id) s.plans ≡ some plan
      → db.find_first (has_id user_id) s.premium.users ≡ some u
      → u.is_premium ≡ true
      → u.premium_expiry ≡ some expiry
      → add_days now plan.duration_days < expiry
      → All
          (λ w. w.id ≡ user_id → (t : ℕ) × (w.premium_expiry ≡ some t) × (t < expiry))
          (activate_user_subscription db user_id plan_id order payment_id uuid now
            s).1.premium.users
  purchase_may_shorten user_id plan_id order payment_id uuid now s plan u expiry e f g p q short =
      rw ((purchase_effect user_id plan_id order payment_id uuid now s plan u e f g).1) (
        All-update_where (λ w. Unit {0})
          (λ w. w.id ≡ user_id → (t : ℕ) × (w.premium_expiry ≡ some t) × (t < expiry))
          (has_id user_id) (activated (add_days now plan.duration_days)) s.premium.users
          (λ w _ _ _. (add_days now plan.duration_days, refl, short))
          (λ w _ k same. absurd (ground arith))
          (All-of_members (λ w. Unit {0}) s.premium.users (λ w _. tt)))
