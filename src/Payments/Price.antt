-- ===== src/Payments/Price.antt =====
-- What is recorded of paid orders (src/module/subscriptions/payments/payments.service.ts).
use gbi_backend.Base.{
  ℕ, ◌≡◌, ◌⊎◌, refl, ◌∙◌, inl, inr, List, [], ◌∷◌, ◌++◌, All, All-append_one, Memᴰ, Option-cases,
  arith,
}
use gbi_backend.Schema.{SubStatus, Subscription, SubscriptionPlan}
use gbi_backend.Prisma.{Prisma}
use gbi_backend.Premium.{has_id}
use gbi_backend.Payments.{
  Store, Gateway, Config, of_order, has_plan_id, new_row, add_days, activate_user_subscription,
}
use gbi_backend.Payments.Once.{Event, run_event, run_events, run_event-state}

-- The subscription is ACTIVE and of one of the plans, whose price was paid.
abbrev pub IsPriced : List SubscriptionPlan → Subscription → Type 0
IsPriced plans r =
    (p : SubscriptionPlan) × Memᴰ p plans
    × (r.plan_id ≡ p.id)
    × (r.amount_paid ≡ p.amount)
    × (r.status ≡ SubStatus.active)

abbrev pub ArePriced : List SubscriptionPlan → Store → Type 0
ArePriced plans s = (s.plans ≡ plans) × All (IsPriced plans) s.subscriptions

module _ (db : Prisma) where
  -- An activation keeps the plans, and adds no subscription or one of a plan that is there.
  activate-plans :
      (user_id plan_id order payment_id uuid now : ℕ) (s : Store)
      → let s' = (activate_user_subscription db user_id plan_id order payment_id uuid now s).1 in
        (s'.plans ≡ s.plans)
        × ((s'.subscriptions ≡ s.subscriptions)
            ⊎ ((plan : SubscriptionPlan) × Memᴰ plan s.plans
                × (s'.subscriptions
                    ≡ s.subscriptions
                      ++ new_row user_id plan order payment_id (add_days now plan.duration_days)
                        ∷ [])))
  unfolding activate_user_subscription
  activate-plans user_id plan_id order payment_id uuid now s =
      elim (Option-cases (db.find_first (of_order order) s.subscriptions)) [
        | inr (x, e) ↦ (ground arith, inl (ground arith))
        | inl e ↦ elim (Option-cases (db.find_first (has_plan_id plan_id) s.plans)) [
          | inl none_found ↦ (ground arith, inl (ground arith))
          | inr (plan, f) ↦ elim (Option-cases (db.find_first (has_id user_id) s.premium.users)) [
            | inl unknown ↦ (ground arith, inl (ground arith))
            | inr (u, g) ↦ (
              ground arith,
              inr (
                plan,
                (db.find_first_found (has_plan_id plan_id) s.plans plan f).1,
                ground (
                  arith,
                  db.create_lem
                      (new_row user_id plan order payment_id (add_days now plan.duration_days))
                      s.subscriptions,
                ),
              ),
            )
          ]
        ]
      ]

  activate-ArePriced :
      (plans : List SubscriptionPlan) (user_id plan_id order payment_id uuid now : ℕ) (s : Store)
      → ArePriced plans s
      → ArePriced plans
          (activate_user_subscription db user_id plan_id order payment_id uuid now s).1
  activate-ArePriced plans user_id plan_id order payment_id uuid now s (same, all) =
      let (kept, rows) = activate-plans user_id plan_id order payment_id uuid now s in
      (
        kept ∙ same,
        elim rows [
          | inl r ↦ rw r all
          | inr (plan, m, r) ↦ rw r (
              All-append_one (IsPriced plans) s.subscriptions
                (new_row user_id plan order payment_id (add_days now plan.duration_days)) all
                (plan, rw same at m, refl, refl, refl))
        ],
      )

  -- After any sequence of payment verifications and webhooks, in any order and with any
  -- repetition, that starts from a store in which every subscription is ACTIVE and of a stored
  -- plan whose price was paid, the plans are the same and every subscription is so.
  pub run_events-ArePriced :
      (gateway : Gateway) (config : Config) (es : List Event) (plans : List SubscriptionPlan)
      (s : Store)
      → ArePriced plans s
      → ArePriced plans (run_events db gateway config es s)
  unfolding run_events
  run_events-ArePriced gateway config [] plans s h = h
  run_events-ArePriced gateway config (e ∷ es) plans s h =
      elim (run_event-state db gateway config e s) [
        | inl same ↦
            run_events-ArePriced gateway config es plans (run_event db gateway config e s)
              (rw same h)
        | inr (user_id, plan_id, order, payment_id, uuid, now, ran) ↦
            run_events-ArePriced gateway config es plans (run_event db gateway config e s)
              (rw ran (activate-ArePriced plans user_id plan_id order payment_id uuid now s h))
      ]
