-- ===== src/Http.antt =====
-- What a service call returns: a value, or an HTTP exception with the reason that its message
-- gives; and the actions that run on a state, which stays as written when an exception is thrown.
use gbi_backend.Base.{◌≡◌, refl, ◌⊎◌, inl, inr, Bool, Option, none, some, if◌then◌else◌}

pub data Status : Type 0 where
  bad_request unauthorized forbidden not_found conflict locked too_many_requests internal : Status

pub data Reason : Type 0 where
  user_not_found already_premium not_premium expiry_before_activation expiry_in_past : Reason
  no_current_expiry expiry_not_extended record_not_found : Reason
  authentication_required premium_required premium_expired readonly_view csrf_token : Reason
  payments_disabled payments_unavailable invalid_plan order_failed signature_mismatch : Reason
  verification_failed plan_not_found plan_exists webhook_config : Reason
  user_exists account_locked rate_limited email_suppressed already_verified invalid_otp : Reason
  invalid_credentials account_restricted email_not_verified invalid_old_password : Reason
  invalid_token token_revoked token_expired otp_required admin_not_found : Reason
  device_not_found device_claimed device_access metadata_not_found in_group_threshold : Reason
  group_access device_in_group individual_threshold not_in_group unique_violation : Reason
  invalid_timestamp no_device not_assigned report_not_found report_access no_job : Reason
  not_admin email_verified_already phone_verified_already cooldown hourly_limit : Reason
  device_exists profile_complete restricted_target otp_missing parse_failed no_worksheet no_records
        malformed_cookie :
      Reason

pub data Result {ℓ} (A : Type ℓ) : Type ℓ where
  ok : A → Result A
  err : Status → Reason → Result A

pub Result-cases {ℓ} :
    {A : Type ℓ} (r : Result A)
    → ((a : A) × (r ≡ ok a)) ⊎ ((code : Status) × (why : Reason) × (r ≡ err code why))
Result-cases (ok a) = inl (a, refl)
Result-cases (err code why) = inr (code, why, refl)

abbrev pub Action : Type 0 → Type 0 → Type 0
Action S A = S → Result A × S

module _ {S A : Type 0} where
  abbrev pub pure : A → Action S A
  pure a s = (ok a, s)

  abbrev pub throw : Status → Reason → Action S A
  throw code why s = (err code why, s)

  abbrev pub gets : (S → A) → Action S A
  gets f s = (ok (f s), s)

  abbrev pub or_throw : Option A → Status → Reason → Action S A
  or_throw none code why = throw code why
  or_throw (some a) code why = pure a

  -- `prisma.$transaction`: what the callback wrote is undone when it throws.
  abbrev pub transaction : Action S A → Action S A
  transaction m s =
      let (r, s') = m s in elim r [ ok a ↦ (ok a, s') | err code why ↦ (err code why, s) ]

module _ {S A B : Type 0} where
  infixl 5 ◌>>=◌ ◌>>◌
  abbrev pub ◌>>=◌ : Action S A → (A → Action S B) → Action S B
  ◌>>=◌ m f s = let (r, s') = m s in elim r [ ok a ↦ f a s' | err code why ↦ (err code why, s') ]

  abbrev pub ◌>>◌ : Action S A → Action S B → Action S B
  m >> k = m >>= λ _. k

module _ {S : Type 0} where
  abbrev pub throw_if : Bool → Status → Reason → Action S (Unit {0})
  throw_if test code why s = (if test then err code why else ok tt, s)

  abbrev pub modify : (S → S) → Action S (Unit {0})
  modify f s = (ok tt, f s)

-- Dropping the value of an action leaves its state.
pub state-then_pure : {S A : Type 0} (m : Action S A) (s : S) → ((m >> pure tt) s).1 ≡ (m s).1
state-then_pure m s = elim (Result-cases (m s).0) [
  | inl (a, e) ↦ rw (e, ◌>>=◌)
  | inr (code, why, e) ↦ rw (e, ◌>>=◌)
]
