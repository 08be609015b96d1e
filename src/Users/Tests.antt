-- ===== src/Users/Tests.antt =====
-- Runs of the verification of a user's email and phone (src/module/users/users.service.ts).
use gbi_backend.Base.{
  ℕ, ◌≡◌, ◌≤◌, refl, true, false, none, some, List, ◌*◌, [], ◌∷◌, Text, arith, update_where,
}
use gbi_backend.Http.{ok, err, bad_request, invalid_otp}
use gbi_backend.Schema.{PremiumStatus, User}
use gbi_backend.Prisma.Memory.{memory}
use gbi_backend.Redis.{phone}
use gbi_backend.Redis.Memory.{memory_redis}
use gbi_backend.Auth.{Config, Env, State, has_user_id}
use gbi_backend.Users.{check_rate_limit, request_code, verify_code}
use gbi_backend.Users.Codes.{run_requests, run_requests_at_most, request_code-verify_code}

abbrev limits : Config
limits = record { max_attempts = 3; lockout_ttl = 60; refresh_days = 7 }

abbrev bea : User
bea = record {
  id = 4;
  email = 98 ∷ [];
  password_hash = none;
  google_id = none;
  name = none;
  organization = none;
  phone = some (49 ∷ []);
  email_verified = true;
  phone_verified = false;
  city = none;
  is_restricted = false;
  is_profile_complete = true;
  is_premium = false;
  premium_status = PremiumStatus.free;
  premium_expiry = none;
}

abbrev empty : State memory_redis.Store
empty = record { users = bea ∷ []; tokens = []; redis = λ k. none; mails = [] }

abbrev minute : ℕ → Env
minute n = record {
  now = n * 60000;
  uuid = 1;
  token = 1;
  otp = 55 ∷ 56 ∷ [];
  salt = 1;
  is_suppressed = false;
}

abbrev minutes : List Env
minutes = minute 1 ∷ minute 2 ∷ minute 2 ∷ minute 3 ∷ minute 4 ∷ minute 5 ∷ minute 6 ∷ []

-- The request that comes within the minute is refused, and so is the sixth one that is counted.
minutes_runs : (run_requests memory memory_redis limits phone 4 minutes empty).0 ≡ 5
unfolding run_requests request_code check_rate_limit
minutes_runs = refl

run_requests_at_most_example : (run_requests memory memory_redis limits phone 4 minutes empty).0 ≤ 5
run_requests_at_most_example =
    run_requests_at_most memory memory_redis limits phone 4 60000 minutes empty refl (
      (omega arith, omega arith),
      (
        (omega arith, omega arith),
        (
          (omega arith, omega arith),
          (
            (omega arith, omega arith),
            (
              (omega arith, omega arith),
              ((omega arith, omega arith), ((omega arith, omega arith), tt)),
            ),
          ),
        ),
      ),
    )

request_code-verify_code_example :
    ((verify_code memory memory_redis limits phone 4
        (55 ∷ 56 ∷ [])
        61000
        (request_code memory memory_redis limits phone 4 (minute 1) empty).1).0
      ≡ ok tt)
    × ((verify_code memory memory_redis limits phone 4
          (55 ∷ 56 ∷ [])
          61000
          (request_code memory memory_redis limits phone 4 (minute 1) empty).1).1.users
        ≡ update_where (has_user_id 4) (λ u. record u { phone_verified = true }) (bea ∷ []))
    × ((code : Text) (later : ℕ)
        → verify_code memory memory_redis limits phone 4 code later
            (verify_code memory memory_redis limits phone 4
              (55 ∷ 56 ∷ [])
              61000
              (request_code memory memory_redis limits phone 4 (minute 1) empty).1).1
          ≡ (
            err bad_request invalid_otp,
            (verify_code memory memory_redis limits phone 4
                (55 ∷ 56 ∷ [])
                61000
                (request_code memory memory_redis limits phone 4 (minute 1) empty).1).1,
          ))
unfolding request_code check_rate_limit
request_code-verify_code_example =
    request_code-verify_code memory memory_redis limits phone 4 (minute 1) 61000 empty refl refl
      (omega arith)
