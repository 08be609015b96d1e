-- ===== src/Plans/Tests.antt =====
-- Runs of the plans (src/module/subscriptions/plans/plans.service.ts).
use gbi_backend.Base.{◌≡◌, ◌≢◌, refl, true, none, some, [], ◌∷◌}
use gbi_backend.Http.{ok}
use gbi_backend.Schema.{SubscriptionPlan}
use gbi_backend.Prisma.Memory.{memory}
use gbi_backend.Plans.{Order, create_plan, remove_plan, create_order, remove_plan-create_order}

abbrev monthly : SubscriptionPlan
monthly = record {
  id = 3;
  name = 30;
  amount = 49900;
  currency = 1;
  duration_days = 30;
  is_active = true;
}

abbrev order : Order
order = record { id = 8; amount = 49900; currency = 1; plan_id = 3 }

order_runs : (create_order memory 1 true true (some 8) 3 (monthly ∷ [])).0 ≡ ok order
unfolding create_order
order_runs = refl

-- A plan that was removed is opened again by its creation.
again_runs :
    (create_plan memory 1
      (record {
        id = 3;
        name = 30;
        amount = 50000;
        currency = none;
        duration_days = 30;
        is_active = none;
      })
      (remove_plan memory 1 3 (monthly ∷ [])).1).1
    ≡ record monthly { amount = 50000 } ∷ []
unfolding create_plan remove_plan
again_runs = refl

remove_plan-create_order_example :
    (create_order memory 1 true true (some 8) 3 (remove_plan memory 1 3 (monthly ∷ [])).1).0
    ≢ ok order
unfolding remove_plan
remove_plan-create_order_example =
    remove_plan-create_order memory 1 3 (monthly ∷ []) true true (some 8) order refl
