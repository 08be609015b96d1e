-- ===== src/Plans.antt =====
-- The plans of src/module/subscriptions/plans/plans.service.ts, and the order for one: createOrder of
-- src/module/subscriptions/payments/payments.service.ts. The payment gateway's answer is an argument.
-- The list of a plan's features, which nothing reads, is left out.
mod Tests
use gbi_backend.Base.{
  ℕ, ◌≡◌, ◌≢◌, refl, inl, inr, Bool, true, false, not, ◌&&◌, Option, none, some, List, [], ◌∷◌, All,
  All-member, All-update_where, All-of_members, Memᴰ, Option-cases, Bool-cases, arith, ◌==◌,
  is_some, if◌then◌else◌,
}
use gbi_backend.Http.{
  bad_request, not_found, conflict, internal, plan_exists, plan_not_found, record_not_found,
  unique_violation, payments_disabled, payments_unavailable, invalid_plan, order_failed, Result, ok,
  err, Action, pure, throw, throw_if, gets, or_throw, modify, ◌>>=◌, ◌>>◌,
}
use gbi_backend.Schema.{SubscriptionPlan}
use gbi_backend.Prisma.{Prisma}
use gbi_backend.Payments.{has_plan_id}

pub record CreatePlanDto : Type 0 where
  pub id : ℕ
  pub name : ℕ
  pub amount : ℕ
  pub currency : Option ℕ
  pub duration_days : ℕ
  pub is_active : Option Bool

pub record UpdatePlanDto : Type 0 where
  pub name : Option ℕ
  pub amount : Option ℕ
  pub duration_days : Option ℕ
  pub is_active : Option Bool

-- A field that is left out stays as it is, or is the column's default.
abbrev pub or_else : {A : Type 0} → Option A → A → A
or_else none old = old
or_else (some x) old = x

-- Another plan has the name: the column is unique.
abbrev pub takes_name : (id name : ℕ) → SubscriptionPlan → Bool
takes_name id name p = (p.name == name) && not (p.id == id)

abbrev pub reactivated : CreatePlanDto → SubscriptionPlan → SubscriptionPlan
reactivated dto p = record p {
  name = dto.name;
  amount = dto.amount;
  currency = or_else dto.currency p.currency;
  duration_days = dto.duration_days;
  is_active = true;
}

abbrev pub updated : UpdatePlanDto → SubscriptionPlan → SubscriptionPlan
updated dto p = record p {
  name = or_else dto.name p.name;
  amount = or_else dto.amount p.amount;
  duration_days = or_else dto.duration_days p.duration_days;
  is_active = or_else dto.is_active p.is_active;
}

abbrev pub removed : SubscriptionPlan → SubscriptionPlan
removed p = record p { is_active = false }

-- What `createOrder` returns; the public key is left out.
pub record Order : Type 0 where
  pub id : ℕ
  pub amount : ℕ
  pub currency : ℕ
  pub plan_id : ℕ

-- The second argument is the number that stands for 'INR'.
module _ (db : Prisma) (inr_currency : ℕ) where
  open db use {find_first, create, update_many}

  abbrev Call : Type 0 → Type 0
  Call A = Action (List SubscriptionPlan) A

  abbrev new_plan : CreatePlanDto → SubscriptionPlan
  new_plan dto = record {
    id = dto.id;
    name = dto.name;
    amount = dto.amount;
    currency = or_else dto.currency inr_currency;
    duration_days = dto.duration_days;
    is_active = or_else dto.is_active true;
  }

  unfoldable pub find_one : ℕ → Action (List SubscriptionPlan) SubscriptionPlan
  find_one id = do or_throw (← gets (λ s. find_first (has_plan_id id) s)) not_found plan_not_found

  -- `create`: a plan that was removed is written over; its name may be taken, which is not caught
  unfoldable pub create_plan : CreatePlanDto → Action (List SubscriptionPlan) (Unit {0})
  create_plan dto = do
    existing ← gets (λ s. find_first (has_plan_id dto.id) s)
    taken ← gets (λ s. find_first (takes_name dto.id dto.name) s)
    elim existing [
      | some plan ↦ do
        throw_if plan.is_active conflict plan_exists
        throw_if (is_some taken) internal unique_violation
        modify (λ s. update_many (has_plan_id dto.id) (reactivated dto) s)
      | none ↦ do
        throw_if (is_some taken) conflict plan_exists
        modify (λ s. create (new_plan dto) s)
    ]

  unfoldable pub update_plan : ℕ → UpdatePlanDto → Action (List SubscriptionPlan) (Unit {0})
  update_plan id dto = do
    plan ← or_throw (← gets (λ s. find_first (has_plan_id id) s)) internal record_not_found
    taken ← gets (λ s. find_first (takes_name id (or_else dto.name plan.name)) s)
    throw_if (is_some taken) internal unique_violation
    modify (λ s. update_many (has_plan_id id) (updated dto) s)

  unfoldable pub remove_plan : ℕ → Action (List SubscriptionPlan) (Unit {0})
  remove_plan id = do
    plan ← or_throw (← gets (λ s. find_first (has_plan_id id) s)) internal record_not_found
    modify (λ s. update_many (has_plan_id id) removed s)

  -- `createOrder`: whether payments are enabled, whether the client of the gateway is there, and
  -- the id that the gateway gives to the order, or none where it refuses
  unfoldable pub create_order :
      (enabled ready : Bool) → Option ℕ → (plan_id : ℕ) → Action (List SubscriptionPlan) Order
  create_order enabled ready order_id plan_id = do
    throw_if (not enabled) bad_request payments_disabled
    throw_if (not ready) bad_request payments_unavailable
    plan ← or_throw (← gets (λ s. find_first (has_plan_id plan_id) s)) bad_request invalid_plan
    throw_if (not plan.is_active) bad_request invalid_plan
    id ← or_throw order_id bad_request order_failed
    pure (record { id = id; amount = plan.amount; currency = plan.currency; plan_id = plan.id })

  abbrev IsRemoved : ℕ → SubscriptionPlan → Type 0
  IsRemoved id p = p.id ≡ id → p.is_active ≡ false

  remove_plan-IsRemoved :
      (id : ℕ) (s : List SubscriptionPlan)
      → (remove_plan id s).0 ≡ ok tt
      → All (IsRemoved id) (remove_plan id s).1
  unfolding remove_plan
  remove_plan-IsRemoved id s h = elim (Option-cases (find_first (has_plan_id id) s)) [
    | inl e ↦ absurd (ground arith)
    | inr (p, e) ↦
        rw (e, db.update_many_lem (has_plan_id id) removed s)
          (All-update_where (λ p. Unit {0}) (IsRemoved id) (has_plan_id id) removed s
            (λ p t k q. refl) (λ p t k q. absurd (ground arith))
            (All-of_members (λ p. Unit {0}) s (λ p m. tt)))
  ]

  -- After a removal of a plan that succeeded, no order for it is created, whatever the gateway
  -- answers.
  pub remove_plan-create_order :
      (id : ℕ) (s : List SubscriptionPlan) (enabled ready : Bool) (order_id : Option ℕ)
      (order : Order)
      → (remove_plan id s).0 ≡ ok tt
      → (create_order enabled ready order_id id (remove_plan id s).1).0 ≢ ok order
  unfolding create_order
  remove_plan-create_order id s enabled ready order_id order h k =
      let gone = remove_plan-IsRemoved id s h in
      elim (Option-cases (find_first (has_plan_id id) (remove_plan id s).1)) [
        | inl e ↦ ground arith
        | inr (p, e) ↦
            let (own, m) = db.find_first_found (has_plan_id id) (remove_plan id s).1 p e in
            let off : p.is_active ≡ false =
              All-member (IsRemoved id) (remove_plan id s).1 p gone m (ground arith) in
            ground arith
      ]
