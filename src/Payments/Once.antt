-- ===== src/Payments/Once.antt =====
-- An order is activated once (src/module/subscriptions/payments/payments.service.ts), whether the
-- client's verification or the webhook comes first, and however often they are repeated.
use gbi_backend.Base.{
  ℕ, ◌+◌, ◌≡◌, ◌≢◌, ◌⊎◌, inl, inr, false, ◌&&◌, none, some, List, [], ◌∷◌, ◌++◌, All-imp, Distinct,
  Distinct-append_one, length, length-append_one, Option-cases, Bool-cases, arith, ◌==◌,
}
use gbi_backend.Http.{ok}
use gbi_backend.Schema.{Subscription, system_payment, SubscriptionPlan}
use gbi_backend.Prisma.{Prisma}
use gbi_backend.Prisma.Unique.{find_first-create}
use gbi_backend.Premium.{new_subscription, has_id}
use gbi_backend.Payments.{
  Store, Activation, already_activated, Gateway, Config, of_order, has_plan_id, new_row, add_days,
  activate_user_subscription, verify_payment, handle_webhook, payment, raw, other_event, order_paid,
  Payload,
}

-- A request: the client's verification of a payment, or a webhook of Razorpay.
pub data Event : Type 0 where
  verification : (order payment_id signature user_id uuid now : ℕ) → Event
  webhook : (body signature uuid now : ℕ) → Event

-- What the subscriptions of orders have in common with the payments' premium periods.
pub record IsOnce (before s : Store) : Type 0 where
  pub distinct : Distinct (λ (r : Subscription). r.order) s.subscriptions
  pub balanced :
      length s.premium.subs + length before.subscriptions
      ≡ length before.premium.subs + length s.subscriptions

module _ (db : Prisma) where
  -- Once an activation of an order has returned a result, every later activation of that order,
  -- for whichever user, plan and payment, reports that it was activated already and changes
  -- nothing.
  pub activate_user_subscription_twice :
      (user_id plan_id order payment_id uuid now : ℕ) (user_id' plan_id' payment_id' uuid' now' : ℕ)
      (s : Store) (r : Activation)
      → (activate_user_subscription db user_id plan_id order payment_id uuid now s).0 ≡ ok r
      → let s' = (activate_user_subscription db user_id plan_id order payment_id uuid now s).1 in
        activate_user_subscription db user_id' plan_id' order payment_id' uuid' now' s'
        ≡ (ok already_activated, s')
  unfolding activate_user_subscription
  activate_user_subscription_twice user_id plan_id order payment_id uuid now user_id' plan_id'
        payment_id' uuid' now' s r h =
      elim (Option-cases (db.find_first (of_order order) s.subscriptions)) [
        | inr (x, e) ↦ ground arith
        | inl e ↦ elim (Option-cases (db.find_first (has_plan_id plan_id) s.plans)) [
          | inl none_found ↦ absurd (ground arith)
          | inr (plan, f) ↦
              let (x, g) =
                find_first-create db (of_order order)
                  (new_row user_id plan order payment_id (add_days now plan.duration_days))
                  s.subscriptions (ground arith) in
              ground arith
        ]
      ]

  -- A call leaves the store alone, or it is the first of its order and adds one row to each of
  -- the two tables.
  pub activate_outcomes :
      (user_id plan_id order payment_id uuid now : ℕ) (s : Store)
      → let s' = (activate_user_subscription db user_id plan_id order payment_id uuid now s).1 in
        (s' ≡ s)
        ⊎ ((plan : SubscriptionPlan) × (db.find_first (of_order order) s.subscriptions ≡ none)
            × (s'.subscriptions
                ≡ s.subscriptions
                  ++ new_row user_id plan order payment_id (add_days now plan.duration_days) ∷ [])
            × (s'.premium.subs
                ≡ s.premium.subs
                  ++ new_subscription user_id system_payment now
                      (add_days now plan.duration_days)
                      uuid
                    ∷ []))
  unfolding activate_user_subscription
  activate_outcomes user_id plan_id order payment_id uuid now s =
      elim (Option-cases (db.find_first (of_order order) s.subscriptions)) [
        | inr (x, e) ↦ inl (ground arith)
        | inl e ↦ elim (Option-cases (db.find_first (has_plan_id plan_id) s.plans)) [
          | inl none_found ↦ inl (ground arith)
          | inr (plan, f) ↦ elim (Option-cases (db.find_first (has_id user_id) s.premium.users)) [
            | inl unknown ↦ inl (ground arith)
            | inr (u, g) ↦ inr (
              plan,
              e,
              ground (
                arith,
                db.create_lem
                    (new_row user_id plan order payment_id (add_days now plan.duration_days))
                    s.subscriptions,
              ),
              ground (
                arith,
                db.create_lem
                    (new_subscription user_id system_payment now (add_days now plan.duration_days)
                      uuid)
                    s.premium.subs,
              ),
            )
          ]
        ]
      ]

  activate-IsOnce :
      (before : Store) (user_id plan_id order payment_id uuid now : ℕ) (s : Store)
      → IsOnce before s
      → IsOnce before (activate_user_subscription db user_id plan_id order payment_id uuid now s).1
  activate-IsOnce before user_id plan_id order payment_id uuid now s h =
      elim (activate_outcomes user_id plan_id order payment_id uuid now s) [
        | inl same ↦ rw same h
        | inr (plan, e, rows, subs) ↦ record {
          distinct = rw rows (
              Distinct-append_one (λ (r : Subscription). r.order) s.subscriptions _ h.distinct
                (All-imp (λ r. of_order order r ≡ false) (λ r. r.order ≢ order) s.subscriptions
                  (λ r miss. ground arith)
                  (db.find_first_missing (of_order order) s.subscriptions e)));
          balanced =
              rw (rows, subs)
                (omega (
                  arith,
                  h.balanced,
                  length-append_one s.subscriptions
                      (new_row user_id plan order payment_id (add_days now plan.duration_days)),
                  length-append_one s.premium.subs (
                      new_subscription user_id system_payment now (add_days now plan.duration_days)
                        uuid),
                ));
        }
      ]

  module _ (gateway : Gateway) (config : Config) where
    unfoldable pub run_event : Event → Store → Store
    run_event (verification order payment_id signature user_id uuid now) s =
        (verify_payment db gateway config order payment_id signature user_id uuid now s).1
    run_event (webhook body signature uuid now) s =
        (handle_webhook db gateway config body signature uuid now s).1

    unfoldable pub run_events : List Event → Store → Store
    run_events [] s = s
    run_events (e ∷ es) s = run_events es (run_event e s)

    handle_webhook-state :
        (p : Payload) (body signature uuid now : ℕ) (s : Store)
        → gateway.parse body ≡ some p
        → ((handle_webhook db gateway config body signature uuid now s).1 ≡ s)
          ⊎ ((user_id plan_id order payment_id uuid' now' : ℕ) × ((handle_webhook db gateway config
                  body signature uuid now s).1
                ≡ (activate_user_subscription db user_id plan_id order payment_id uuid' now' s).1))
    unfolding handle_webhook
    handle_webhook-state other_event body signature uuid now s e = inl (ground arith)
    handle_webhook-state (order_paid o) body signature uuid now s e =
        elim (Option-cases o.user_id) [
          | inl no_user ↦ inl (ground arith)
          | inr (user_id, u) ↦ elim (Option-cases o.plan_id) [
            | inl no_plan ↦ inl (ground arith)
            | inr (plan_id, p) ↦ elim (Option-cases config.webhook_secret) [
              | inl unset ↦ inl (ground arith)
              | inr (secret, w) ↦
                  elim (Bool-cases
                    (config.enabled && gateway.hmac secret (raw body) == signature)) [
                      | inl signed ↦
                          inr (user_id, plan_id, o.order_id, o.payment_id, uuid, now, ground arith)
                      | inr refused ↦ inl (ground arith)
                    ]
            ]
          ]
        ]

    -- An event leaves the store alone or runs one activation.
    pub run_event-state :
        (e : Event) (s : Store)
        → (run_event e s ≡ s)
          ⊎ ((user_id plan_id order payment_id uuid now : ℕ) × (run_event e s
                ≡ (activate_user_subscription db user_id plan_id order payment_id uuid now s).1))
    unfolding run_event verify_payment handle_webhook
    run_event-state (verification order payment_id signature user_id uuid now) s =
        elim (Option-cases (gateway.fetch_plan order)) [
          | inl e ↦ inl (ground arith)
          | inr (plan_id, e) ↦ elim (Bool-cases config.enabled) [
            | inl on ↦
                elim (Bool-cases
                  (gateway.hmac config.key_secret (payment order payment_id) == signature)) [
                    | inl signed ↦
                        inr (user_id, plan_id, order, payment_id, uuid, now, ground arith)
                    | inr forged ↦ inl (ground arith)
                  ]
            | inr off ↦ inl (ground arith)
          ]
        ]
    run_event-state (webhook body signature uuid now) s = elim (Option-cases (gateway.parse body)) [
      | inl e ↦ inl (ground arith)
      | inr (p, e) ↦ handle_webhook-state p body signature uuid now s e
    ]

    -- After any sequence of payment verifications and webhooks, in any order and with any
    -- repetition, no two subscriptions are of one order, and as many premium periods were
    -- created as orders were recorded.
    pub run_events-IsOnce :
        (es : List Event) (before s : Store) → IsOnce before s → IsOnce before (run_events es s)
    unfolding run_events
    run_events-IsOnce [] before s h = h
    run_events-IsOnce (e ∷ es) before s h = elim (run_event-state e s) [
      | inl same ↦ run_events-IsOnce es before (run_event e s) (rw same h)
      | inr (user_id, plan_id, order, payment_id, uuid, now, ran) ↦
          run_events-IsOnce es before (run_event e s)
            (rw ran (activate-IsOnce before user_id plan_id order payment_id uuid now s h))
    ]
