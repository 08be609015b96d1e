-- ===== src/Premium/Tests.antt =====
-- Runs of the premium service (src/module/premium/premium.service.ts) on two users.
use gbi_backend.Base.{
  ℕ, ◌≡◌, ◌≢◌, ◌↔◌, ◌⊎◌, refl, Bool, true, false, ◌&&◌, ltb, Option, none, some, [], ◌∷◌, All,
  arith, update_where,
}
use gbi_backend.Http.{ok}
use gbi_backend.Schema.{PremiumStatus, User, admin}
use gbi_backend.Prisma.Memory.{memory}
use gbi_backend.Premium.{
  Tables, ActivatePremiumDto, RenewPremiumDto, RevokePremiumDto, new_subscription, activate_premium,
  renew_premium, revoke_premium, handle_expired_subscriptions,
}
use gbi_backend.Premium.Guard.{
  RequestUser, premium_can_activate, IsCurrent, premium_can_activate_iff,
}
use gbi_backend.Premium.Calls.{activate, renew, expire, run_call, run_calls, Inv, run_calls-Inv}
use gbi_backend.Premium.Expiry.{handle_expired-exact}
use gbi_backend.Premium.Effects.{session, activate_premium_opens}

abbrev user : ℕ → Bool → PremiumStatus → Option ℕ → User
user i paid status expiry = record {
  id = i;
  email = i ∷ [];
  password_hash = none;
  google_id = none;
  name = none;
  organization = none;
  phone = none;
  email_verified = true;
  phone_verified = false;
  city = none;
  is_restricted = false;
  is_profile_complete = false;
  is_premium = paid;
  premium_status = status;
  premium_expiry = expiry;
}

-- User 1 is free, and user 2 is premium until 50.
abbrev before_calls : Tables
before_calls = record {
  users = user 1 false PremiumStatus.free none ∷ user 2 true PremiumStatus.premium (some 50) ∷ [];
  subs = new_subscription 2 (admin 9) 0 50 7 ∷ [];
  history = [];
}

abbrev joining : ActivatePremiumDto
joining = record { user_id = 1; activation_date = 10; expiry_date = 100; notes = none }

abbrev joined : Tables
joined = (activate_premium memory joining 9 8 20 before_calls).1

abbrev extension : RenewPremiumDto
extension = record { user_id = 2; new_expiry_date = 90; notes = none }

abbrev ban : RevokePremiumDto
ban = record { user_id = 2; reason = [] }

calls_unfold : Unit {0}
unfolding activate_premium renew_premium revoke_premium handle_expired_subscriptions run_call
    run_calls
calls_unfold = tt

joining_runs :
    (activate_premium memory joining 9 8 20 before_calls).0
    ≡ ok (new_subscription 1 (admin 9) 10 100 8)
unfolding activate_premium
joining_runs = refl

-- At 60 user 2 has lapsed, and user 1 has not.
expiry_runs :
    (handle_expired_subscriptions memory 60 before_calls).1.users
    ≡ user 1 false PremiumStatus.free none ∷ user 2 false PremiumStatus.expired (some 50) ∷ []
unfolding handle_expired_subscriptions
expiry_runs = refl

before_calls-Inv : Inv before_calls
before_calls-Inv = record {
  distinct = omega arith;
  consistent = ground arith;
  agrees = ground arith;
}

run_calls-Inv_example : Inv (
    run_calls memory
      ((activate joining 9 8, 20) ∷ (renew extension 9, 30) ∷ (expire, 95) ∷ [])
      before_calls)
run_calls-Inv_example =
    run_calls-Inv memory ((activate joining 9 8, 20) ∷ (renew extension 9, 30) ∷ (expire, 95) ∷ [])
      before_calls before_calls-Inv

handle_expired-exact_example :
    (handle_expired_subscriptions memory 60 before_calls).1.users
    ≡ update_where
        (λ u. u.is_premium && elim u.premium_expiry [ none ↦ false | some t ↦ ltb t 60 ])
        (λ u. record u { is_premium = false; premium_status = PremiumStatus.expired })
        before_calls.users
handle_expired-exact_example = handle_expired-exact memory 60 before_calls (omega arith)

premium_can_activate_iff_example :
    (premium_can_activate true (some (session (user 2 true PremiumStatus.premium (some 50)))) 60
      ≡ ok tt)
    ↔ ((r : RequestUser) × (some (session (user 2 true PremiumStatus.premium (some 50))) ≡ some r)
        × ((r.impersonated_by ≢ none) ⊎ IsCurrent 60 r.user))
premium_can_activate_iff_example =
    premium_can_activate_iff (some (session (user 2 true PremiumStatus.premium (some 50)))) 60

activate_premium_opens_example :
    All
      (λ w. w.id ≡ 1 → premium_can_activate true (some (session w)) 99 ≡ ok tt)
      (activate_premium memory joining 9 8 20 before_calls).1.users
activate_premium_opens_example =
    activate_premium_opens memory joining 9 8 20 99 before_calls
      (new_subscription 1 (admin 9) 10 100 8) joining_runs (omega arith)
