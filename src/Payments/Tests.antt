-- ===== src/Payments/Tests.antt =====
-- Runs of the payments service (src/module/subscriptions/payments/payments.service.ts).
use gbi_backend.Base.{ℕ, ◌+◌, ◌<◌, ◌≡◌, refl, true, false, none, some, List, [], ◌∷◌, All, arith}
use gbi_backend.Http.{ok, err, Reason, bad_request}
use gbi_backend.Schema.{PremiumStatus, User, SubscriptionPlan}
use gbi_backend.Prisma.Memory.{memory}
use gbi_backend.Payments.{
  Store, activated_until, Gateway, Config, Signed, payment, raw, order_paid,
  activate_user_subscription, verify_payment, handle_webhook,
}
use gbi_backend.Payments.Once.{Event, verification, webhook, IsOnce, run_events, run_events-IsOnce}
use gbi_backend.Payments.Signature.{verify_payment_unsigned}
use gbi_backend.Payments.Price.{ArePriced, run_events-ArePriced}
use gbi_backend.Payments.Purchase.{purchase_may_shorten}

abbrev plan : SubscriptionPlan
plan = record {
  id = 5;
  name = 50;
  amount = 99900;
  currency = 1;
  duration_days = 30;
  is_active = true;
}

-- A premium user whose membership ends at `expiry`.
abbrev member : ℕ → User
member expiry = record {
  id = 1;
  email = 1 ∷ [];
  password_hash = none;
  google_id = none;
  name = none;
  organization = none;
  phone = none;
  email_verified = true;
  phone_verified = false;
  city = none;
  is_restricted = false;
  is_profile_complete = false;
  is_premium = true;
  premium_status = PremiumStatus.premium;
  premium_expiry = some expiry;
}

abbrev shop : Store
shop = record {
  premium = record { users = member 9000000000 ∷ []; subs = []; history = [] };
  plans = plan ∷ [];
  subscriptions = [];
}

-- A keyed sum stands for the HMAC, and every order is of plan 5.
abbrev mix : ℕ → Signed → ℕ
mix key (payment order payment_id) = key + order + payment_id
mix key (raw body) = key + body

abbrev gateway : Gateway
gateway = record {
  hmac = mix;
  fetch_plan = λ order. some 5;
  parse = λ body.
      some (
        order_paid
          (record { order_id = body; payment_id = 3; user_id = some 1; plan_id = some 5 }));
}

abbrev config : Config
config = record { enabled = true; key_secret = 1000; webhook_secret = some 2000 }

payments_unfold : Unit {0}
unfolding activate_user_subscription verify_payment handle_webhook run_events
payments_unfold = tt

-- Order 4 is verified, announced by the webhook, and verified again with a wrong signature.
abbrev requests : List Event
requests = verification 4 3 1007 1 8 100 ∷ webhook 4 2004 9 200 ∷ verification 4 3 1 1 10 300 ∷ []

shop-IsOnce : IsOnce shop shop
shop-IsOnce = record { distinct = tt; balanced = refl }

run_events-IsOnce_example : IsOnce shop (run_events memory gateway config requests shop)
run_events-IsOnce_example = run_events-IsOnce memory gateway config requests shop shop shop-IsOnce

run_events-ArePriced_example :
    ArePriced (plan ∷ []) (run_events memory gateway config requests shop)
run_events-ArePriced_example =
    run_events-ArePriced memory gateway config requests (plan ∷ []) shop (refl, tt)

bought : (activate_user_subscription memory 1 5 4 3 8 100 shop).0 ≡ ok (activated_until 2592000100)
unfolding payments_unfold
bought = refl

verify_payment_unsigned_example :
    (why : Reason) × (verify_payment memory gateway config 4 3 1 1 8 100 shop
      ≡ (err bad_request why, shop))
verify_payment_unsigned_example =
    verify_payment_unsigned memory gateway config 4 3 1 1 8 100 shop (omega arith)

purchase_may_shorten_example :
    All
      (λ w. w.id ≡ 1 → (t : ℕ) × (w.premium_expiry ≡ some t) × (t < 9000000000))
      (activate_user_subscription memory 1 5 4 3 8 100 shop).1.premium.users
purchase_may_shorten_example =
    purchase_may_shorten memory 1 5 4 3 8 100 shop plan (member 9000000000) 9000000000 refl refl
      refl refl refl (omega arith)
