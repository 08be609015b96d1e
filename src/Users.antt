-- ===== src/Users.antt =====
-- The user's own profile: src/module/users/users.service.ts and users.repository.ts. It works on the
-- users and the Redis store of src/auth/auth.service.ts, and asks that service to change a password.
pub mod Codes
mod Tests
use gbi_backend.Base.{
  ℕ, Bool, true, false, Option, none, some, [], ◌∷◌, Text, leb, ◌==◌, is_some, if◌then◌else◌,
}
use gbi_backend.Http.{
  Reason, bad_request, not_found, too_many_requests, user_not_found, email_verified_already,
  phone_verified_already, cooldown, hourly_limit, invalid_otp, Action, pure, throw, throw_if, gets,
  or_throw, ◌>>=◌, ◌>>◌,
}
use gbi_backend.Schema.{User}
use gbi_backend.Prisma.{Prisma}
use gbi_backend.Redis.{
  Redis, Channel, email, phone, otp_of, cooldown_of, count_of, Value, text, number_of,
}
use gbi_backend.Auth.{
  Config, Env, State, Bcrypt, has_user_id, otp_matches, in_redis, next_count, update_user,
  change_password,
}

-- A field that is left out stays as it is.
pub record UpdateProfileDto : Type 0 where
  pub name : Option Text
  pub organization : Option Text
  pub city : Option Text
  pub phone : Option Text

abbrev pub given : Option Text → Option Text → Option Text
given none old = old
given (some t) old = some t

abbrev pub with_profile : UpdateProfileDto → User → User
with_profile dto u = record u {
  name = given dto.name u.name;
  organization = given dto.organization u.organization;
  city = given dto.city u.city;
  phone = given dto.phone u.phone;
}

abbrev pub is_verified : Channel → User → Bool
is_verified email u = u.email_verified
is_verified phone u = u.phone_verified

-- `markEmailAsVerified` and `markPhoneAsVerified`
abbrev pub verified : Channel → User → User
verified email u = record u { email_verified = true }
verified phone u = record u { phone_verified = true }

abbrev pub verified_already : Channel → Reason
verified_already email = email_verified_already
verified_already phone = phone_verified_already

-- `requestCount && parseInt(requestCount) >= 5`
abbrev pub is_spent : Option Value → Bool
is_spent count = leb 5 (number_of count)

module _ (db : Prisma) (kv : Redis) (config : Config) where
  open db use {find_first}
  open kv use {get, set_ex, del, expire}

  abbrev Call : Type 0
  Call = Action (State kv.Store) (Unit {0})

  unfoldable pub update_profile : ℕ → UpdateProfileDto → Action (State kv.Store) User
  unfolding update_user
  update_profile user_id dto = update_user db kv config (has_user_id user_id) (with_profile dto)

  unfoldable pub change_own_password :
      Bcrypt → ℕ → (old_password new_password : Text) → Env → Action (State kv.Store) (Unit {0})
  change_own_password bcrypt user_id old_password new_password env =
      change_password db kv config bcrypt user_id old_password new_password env

  unfoldable pub check_rate_limit : ℕ → Channel → ℕ → Action (State kv.Store) (Unit {0})
  check_rate_limit user_id channel now = do
    waiting ← gets (λ s. get (cooldown_of channel user_id) now s.redis)
    throw_if (is_some waiting) too_many_requests cooldown
    count ← gets (λ s. get (count_of channel user_id) now s.redis)
    throw_if (is_spent count) too_many_requests hourly_limit
    in_redis db kv config (set_ex (cooldown_of channel user_id) (text (49 ∷ [])) 60 now)
    requests ← next_count db kv config (count_of channel user_id) now
    if is_some count
        then pure tt
        else in_redis db kv config (expire (count_of channel user_id) 3600 now)

  -- what `requestEmailVerification` and `requestPhoneVerification` do alike
  unfoldable pub request_code : Channel → ℕ → Env → Action (State kv.Store) (Unit {0})
  request_code channel user_id env = do
    user ←
        or_throw (← gets (λ s. find_first (has_user_id user_id) s.users)) not_found user_not_found
    throw_if (is_verified channel user) bad_request (verified_already channel)
    check_rate_limit user_id channel env.now
    in_redis db kv config (set_ex (otp_of channel user_id) (text env.otp) 300 env.now)

  unfoldable pub request_email_verification : ℕ → Env → Action (State kv.Store) (Unit {0})
  request_email_verification user_id env = request_code email user_id env

  unfoldable pub request_phone_verification : ℕ → Env → Action (State kv.Store) (Unit {0})
  request_phone_verification user_id env = request_code phone user_id env

  -- `verifyEmail` and `verifyPhone`
  unfoldable pub verify_code :
      Channel → ℕ → (code : Text) → (now : ℕ) → Action (State kv.Store) (Unit {0})
  unfolding update_user
  verify_code channel user_id code now = do
    stored ← gets (λ s. get (otp_of channel user_id) now s.redis)
    if otp_matches stored code then pure tt else throw bad_request invalid_otp
    updated ← update_user db kv config (has_user_id user_id) (verified channel)
    in_redis db kv config (del (otp_of channel user_id))

  unfoldable pub verify_email : ℕ → (code : Text) → (now : ℕ) → Action (State kv.Store) (Unit {0})
  verify_email user_id code now = verify_code email user_id code now

  unfoldable pub verify_phone : ℕ → (code : Text) → (now : ℕ) → Action (State kv.Store) (Unit {0})
  verify_phone user_id code now = verify_code phone user_id code now
