-- ===== src/Auth/Tests.antt =====
-- Runs of the authentication service (src/auth/auth.service.ts).
use gbi_backend.Base.{ℕ, ◌≡◌, ◌↔◌, refl, true, false, none, some, [], ◌∷◌, Text, text_eq, arith}
use gbi_backend.Base.Normal.{normalize}
use gbi_backend.Http.{
  ok, err, locked, account_locked, unauthorized, bad_request, invalid_otp, invalid_token,
  token_revoked, too_many_requests, rate_limited,
}
use gbi_backend.Schema.{PremiumStatus, User, RefreshToken}
use gbi_backend.Prisma.Memory.{memory}
use gbi_backend.Redis.{RatePrefix, email_otp, reset_otp, lockout, text}
use gbi_backend.Redis.Memory.{memory_redis}
use gbi_backend.Auth.{
  Bcrypt, Config, Env, State, Tokens, record_failure, clear_failures, check_lockout,
  check_account_rate_limit, generate_tokens, verify_email_otp, login, change_password,
  reset_password, refresh_tokens, cleanup_expired_tokens,
}
use gbi_backend.Auth.Profile.{GoogleProfile, google_login}
use gbi_backend.Auth.Google.{IsWelcome, google_login_iff}
use gbi_backend.Auth.{update_user}
use gbi_backend.Auth.Lockout.{Attempt, run_attempts, login_locks}
use gbi_backend.Auth.Limits.{run_requests, check_account_rate_limit_counts}
use gbi_backend.Auth.Sessions.{refresh_tokens_replay, change_password_revokes}
use gbi_backend.Auth.Sound.{
  IsAdmitted, login_iff, verify_email_otp_once, IsVerifiable, verify_email_otp_iff,
}

-- A hash that only prefixes the salt.
abbrev prefixing : Bcrypt
prefixing = record {
  hash = λ t salt. salt ∷ t;
  compare = λ t h. elim h [ [] ↦ false | x ∷ xs ↦ text_eq t xs ];
}

abbrev limits : Config
limits = record { max_attempts = 3; lockout_ttl = 60; refresh_days = 7 }

abbrev at_time : ℕ → ℕ → Env
at_time now token = record {
  now = now;
  uuid = token;
  token = token;
  otp = 55 ∷ [];
  salt = 3;
  is_suppressed = false;
}

abbrev ann : User
ann = record {
  id = 1;
  email = 97 ∷ [];
  password_hash = some (3 ∷ 112 ∷ []);
  google_id = none;
  name = none;
  organization = none;
  phone = none;
  email_verified = true;
  phone_verified = false;
  city = none;
  is_restricted = false;
  is_profile_complete = false;
  is_premium = false;
  premium_status = PremiumStatus.free;
  premium_expiry = none;
}

abbrev session : ℕ → RefreshToken
session token = record {
  id = token;
  user_id = 1;
  token = token;
  expires_at = 100000;
  revoked_at = none;
  is_persistent = true;
}

-- Nothing is stored in Redis but a code for verification and one for a reset.
abbrev start : State memory_redis.Store
start = record {
  users = ann ∷ [];
  tokens = session 10 ∷ session 11 ∷ [];
  redis = λ k. elim k [
    | email_otp i ↦ some (record { value = text (55 ∷ []); expires_at = some 900 })
    | reset_otp i ↦ some (record { value = text (56 ∷ []); expires_at = some 900 })
    | _ ↦ none
  ];
  mails = [];
}

-- The email as it is typed, with a space before it and in upper case.
abbrev typed : Text
typed = 32 ∷ 65 ∷ []

abbrev guess : ℕ → Attempt
guess now = record { password = 113 ∷ []; remember_me = false; env = at_time now 20 }

login_runs :
    (login memory memory_redis limits prefixing typed (112 ∷ []) true (at_time 5 20) start).0
    ≡ ok (record { sub = 1; email = 97 ∷ []; refresh_token = 20; is_persistent = true })
unfolding text_eq login check_lockout record_failure clear_failures generate_tokens normalize
login_runs = refl

login_locks_example :
    login memory memory_redis limits prefixing typed (112 ∷ []) true (at_time 50000 20) (
      run_attempts memory memory_redis limits prefixing typed
        (guess 1 ∷ guess 2 ∷ guess 3 ∷ [])
        start)
    ≡ (
      err locked account_locked,
      run_attempts memory memory_redis limits prefixing typed
          (guess 1 ∷ guess 2 ∷ guess 3 ∷ [])
          start,
    )
unfolding text_eq normalize
login_locks_example =
    login_locks memory memory_redis limits prefixing typed (guess 1) (guess 2 ∷ []) (guess 3) start
      ann (3 ∷ 112 ∷ [])
      (record { password = 112 ∷ []; remember_me = true; env = at_time 50000 20 }) refl refl refl
      refl refl refl (refl, tt) refl (omega arith, tt) (omega arith) refl (omega arith)

-- All that the runs below unfold
auth_unfold : Unit {0}
unfolding text_eq normalize login verify_email_otp change_password reset_password refresh_tokens
    cleanup_expired_tokens check_lockout record_failure clear_failures generate_tokens
    check_account_rate_limit
auth_unfold = tt

abbrev locked_state : State memory_redis.Store
locked_state = record start {
  redis = λ k. elim k [
    | lockout i ↦ some (record { value = text []; expires_at = some 2000 })
    | _ ↦ none
  ];
}

login_iff_example :
    ((t : Tokens) × ((login memory memory_redis limits prefixing typed
          (112 ∷ [])
          true
          (at_time 5 20)
          start).0
        ≡ ok t))
    ↔ IsAdmitted memory memory_redis limits prefixing typed (112 ∷ []) true (at_time 5 20) start
login_iff_example =
    login_iff memory memory_redis limits prefixing typed (112 ∷ []) true (at_time 5 20) start

verify_email_otp_once_example :
    (verify_email_otp memory memory_redis limits prefixing typed
      (55 ∷ [])
      true
      (at_time 6 21)
      (verify_email_otp memory memory_redis limits prefixing typed
        (55 ∷ [])
        true
        (at_time 5 20)
        start).1).0
    ≡ err bad_request invalid_otp
unfolding auth_unfold
verify_email_otp_once_example =
    verify_email_otp_once memory memory_redis limits prefixing typed (55 ∷ []) (55 ∷ []) true true
      (at_time 5 20) (at_time 6 21) start
      (record { sub = 1; email = 97 ∷ []; refresh_token = 20; is_persistent = true }) refl
      (omega arith)

check_account_rate_limit_counts_example :
    (check_account_rate_limit memory memory_redis limits RatePrefix.signup_attempts typed 3 3600 9 (
      run_requests memory memory_redis limits RatePrefix.signup_attempts typed 3 3600
        (5 ∷ 6 ∷ 7 ∷ [])
        start)).0
    ≡ err too_many_requests rate_limited
unfolding auth_unfold
check_account_rate_limit_counts_example =
    check_account_rate_limit_counts memory memory_redis limits RatePrefix.signup_attempts typed 3
      3600 5 9 (6 ∷ 7 ∷ []) start refl (omega arith, (omega arith, tt)) (omega arith)

refresh_tokens_replay_example :
    refresh_tokens memory memory_redis limits 10
      (at_time 6 21)
      (refresh_tokens memory memory_redis limits 10 (at_time 5 20) start).1
    ≡ (
      err unauthorized invalid_token,
      (refresh_tokens memory memory_redis limits 10 (at_time 5 20) start).1,
    )
unfolding auth_unfold
refresh_tokens_replay_example =
    refresh_tokens_replay memory memory_redis limits 10 (at_time 5 20) (at_time 6 21) start
      (record { sub = 1; email = 97 ∷ []; refresh_token = 20; is_persistent = true })
      (((λ e. absurd (omega arith)), tt), (tt, tt)) (λ e. absurd (omega arith)) refl

abbrev revoked_session : ℕ → RefreshToken
revoked_session token = record (session token) { revoked_at = some 5 }

abbrev rehashed : User
rehashed = record ann { password_hash = some (3 ∷ 113 ∷ []) }

change_password_revokes_example :
    refresh_tokens memory memory_redis limits 11
      (at_time 6 21)
      (change_password memory memory_redis limits prefixing 1
        (112 ∷ [])
        (113 ∷ [])
        (at_time 5 20)
        start).1
    ≡ (
      err unauthorized token_revoked,
      (change_password memory memory_redis limits prefixing 1
          (112 ∷ [])
          (113 ∷ [])
          (at_time 5 20)
          start).1,
    )
unfolding auth_unfold
change_password_revokes_example =
    change_password_revokes memory memory_redis limits prefixing 1 (112 ∷ []) (113 ∷ [])
      (at_time 5 20) (at_time 6 21) start 11 (revoked_session 11) rehashed refl refl refl refl

verify_email_otp_iff_example :
    ((t : Tokens) × ((verify_email_otp memory memory_redis limits prefixing typed
          (55 ∷ [])
          true
          (at_time 5 20)
          start).0
        ≡ ok t))
    ↔ IsVerifiable memory memory_redis limits prefixing typed (55 ∷ []) true (at_time 5 20) start
verify_email_otp_iff_example =
    verify_email_otp_iff memory memory_redis limits prefixing typed (55 ∷ []) true (at_time 5 20)
      start

-- The address is the one of a user, in other letters, who is restricted.
abbrev barred : State memory_redis.Store
barred = record start { users = (record ann { is_restricted = true }) ∷ [] }

abbrev google : Text → GoogleProfile
google email = record { google_id = 77; email = email; display_name = none; hosted_domain = none }

-- In upper case the address opens a second account.
google_runs :
    (google_login memory memory_redis limits prefixing (google (65 ∷ [])) (at_time 5 20) barred).0
    ≡ ok (record { sub = 20; email = 65 ∷ []; refresh_token = 20; is_persistent = true })
unfolding google_login generate_tokens update_user text_eq
google_runs = refl

google_login_iff_example :
    ((t : Tokens) × ((google_login memory memory_redis limits prefixing
          (google (97 ∷ []))
          (at_time 5 20)
          barred).0
        ≡ ok t))
    ↔ IsWelcome memory memory_redis limits prefixing (google (97 ∷ [])) barred.users
google_login_iff_example =
    google_login_iff memory memory_redis limits prefixing (google (97 ∷ [])) (at_time 5 20) barred
      (tt, tt)
