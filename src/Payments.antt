-- ===== src/Payments.antt =====
-- Payments: src/module/subscriptions/payments/payments.service.ts. Razorpay, the HMAC of node's
-- crypto and the text of a webhook's body are the parameters of `Gateway`.
pub mod Once
pub mod Price
pub mod Signature
pub mod Purchase
mod Tests
use gbi_backend.Base.{
  ℕ, ◌+◌, ◌*◌, Bool, true, false, not, Option, none, some, List, ◌==◌, if◌then◌else◌,
}
use gbi_backend.Http.{
  bad_request, internal, record_not_found, payments_disabled, signature_mismatch,
  verification_failed, plan_not_found, webhook_config, Result, ok, err, Action, pure, throw,
  throw_if, gets, or_throw, modify, transaction, ◌>>=◌, ◌>>◌,
}
use gbi_backend.Schema.{
  SubStatus, Actor, system_payment, purchased, PremiumSubscription, SubscriptionPlan, Subscription,
}
use gbi_backend.Prisma.{Prisma}
use gbi_backend.Premium.{Tables, repo_activate}

-- What a signature is made of: `orderId|paymentId`, or a webhook's raw body.
pub data Signed : Type 0 where
  payment : (order payment : ℕ) → Signed
  raw : ℕ → Signed

-- `order.notes` of an order that was paid, and the payment's id.
pub record PaidOrder : Type 0 where
  pub order_id : ℕ
  pub payment_id : ℕ
  pub user_id : Option ℕ
  pub plan_id : Option ℕ

pub data Payload : Type 0 where
  order_paid : PaidOrder → Payload
  other_event : Payload

pub record Gateway : Type 0 where
  -- `createHmac('sha256', secret).update(…).digest('hex')`
  pub hmac : ℕ → Signed → ℕ
  -- `razorpay.orders.fetch(id)`, then `notes.planId`; null where it throws
  pub fetch_plan : ℕ → Option ℕ
  -- `JSON.parse` of the body; null where it throws
  pub parse : ℕ → Option Payload

-- The configuration: `ENABLE_PAYMENTS !== 'false'` and the two secrets.
pub record Config : Type 0 where
  pub enabled : Bool
  pub key_secret : ℕ
  pub webhook_secret : Option ℕ

pub record Store : Type 0 where
  pub premium : Tables
  pub plans : List SubscriptionPlan
  pub subscriptions : List Subscription

pub data Activation : Type 0 where
  already_activated : Activation
  activated_until : ℕ → Activation

-- `expiryDate.setDate(expiryDate.getDate() + days)`, on a server whose clock has no daylight
-- saving time
abbrev pub add_days : ℕ → ℕ → ℕ
add_days t days = t + days * 86400000

abbrev pub of_order : ℕ → Subscription → Bool
of_order order s = s.order == order

abbrev pub has_plan_id : ℕ → SubscriptionPlan → Bool
has_plan_id plan_id p = p.id == plan_id

-- A call of the premium repository within this store.
abbrev pub in_premium : {A : Type 0} → Action Tables A → Action Store A
in_premium m s = let (r, t) = m s.premium in (r, record s { premium = t })

abbrev pub new_row : ℕ → SubscriptionPlan → ℕ → ℕ → ℕ → Subscription
new_row user_id plan order payment_id expiry_date = record {
  order = order;
  user_id = user_id;
  plan_id = plan.id;
  payment_id = payment_id;
  amount_paid = plan.amount;
  expires_at = expiry_date;
  status = SubStatus.active;
}

module _ (db : Prisma) where
  open db use {find_first, create}

  -- the branch of the transaction that found no subscription of the order
  purchase : ℕ → ℕ → ℕ → ℕ → ℕ → ℕ → Action Store Activation
  purchase user_id plan_id order payment_id uuid now = do
    plan ←
        or_throw (← gets (λ s. find_first (has_plan_id plan_id) s.plans)) bad_request plan_not_found
    let expiry_date = add_days now plan.duration_days
    in_premium (repo_activate db user_id system_payment now expiry_date (purchased plan.name) uuid)
    modify (λ s. record s {
      subscriptions = create (new_row user_id plan order payment_id expiry_date) s.subscriptions;
    })
    pure (activated_until expiry_date)

  unfoldable pub activate_user_subscription :
      (user_id plan_id order payment_id uuid now : ℕ) → Action Store Activation
  unfolding purchase repo_activate
  activate_user_subscription user_id plan_id order payment_id uuid now = transaction (do
    existing ← gets (λ s. find_first (of_order order) s.subscriptions)
    elim existing [
      | some row ↦ pure already_activated
      | none ↦ purchase user_id plan_id order payment_id uuid now
    ])

  module _ (gateway : Gateway) (config : Config) where
    open gateway use {hmac, fetch_plan, parse}

    -- the body of the `try`
    fetch_and_activate : (order payment_id user_id uuid now : ℕ) → Action Store Activation
    fetch_and_activate order payment_id user_id uuid now = do
      plan_id ← or_throw (fetch_plan order) internal record_not_found
      activate_user_subscription user_id plan_id order payment_id uuid now

    abbrev pub or_failed : {A : Type 0} → Action Store A → Action Store A
    or_failed m s =
        let (r, s') = m s in
        elim r [ ok a ↦ (ok a, s') | err code why ↦ throw bad_request verification_failed s' ]

    unfoldable pub verify_payment :
        (order payment_id signature user_id uuid now : ℕ) → Action Store Activation
    unfolding fetch_and_activate
    verify_payment order payment_id signature user_id uuid now = do
      throw_if (not config.enabled) bad_request payments_disabled
      throw_if (not (hmac config.key_secret (payment order payment_id) == signature)) bad_request
          signature_mismatch
      or_failed (fetch_and_activate order payment_id user_id uuid now)

    -- `order.paid` with both notes activates; anything else is received and ignored
    on_event : Payload → (uuid now : ℕ) → Action Store (Unit {0})
    on_event other_event uuid now = pure tt
    on_event (order_paid o) uuid now = elim o.user_id [
      | none ↦ pure tt
      | some user_id ↦ elim o.plan_id [
        | none ↦ pure tt
        | some plan_id ↦
            activate_user_subscription user_id plan_id o.order_id o.payment_id uuid now >> pure tt
      ]
    ]

    unfoldable pub handle_webhook : (body signature uuid now : ℕ) → Action Store (Unit {0})
    unfolding on_event
    handle_webhook body signature uuid now = do
      throw_if (not config.enabled) bad_request payments_disabled
      secret ← or_throw config.webhook_secret bad_request webhook_config
      throw_if (not (hmac secret (raw body) == signature)) bad_request signature_mismatch
      payload ← or_throw (parse body) internal record_not_found
      on_event payload uuid now
