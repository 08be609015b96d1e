-- ===== src/Auth.antt =====
-- Authentication: src/auth/auth.service.ts. The database client, Redis, bcrypt and the random values
-- are arguments. The JWT of an access token stands for its payload.
pub mod Limits
pub mod Lockout
pub mod Sessions
pub mod Sound
pub mod Profile
pub mod Google
mod Tests
use gbi_backend.Base.{
  ℕ, ◌+◌, ◌*◌, Bool, true, false, not, ◌&&◌, ◌||◌, Option, none, some, List, [], ◌∷◌, ◌++◌, Text,
  text_eq, ltb, leb, ◌==◌, is_some, if◌then◌else◌,
}
use gbi_backend.Base.Normal.{normalize}
use gbi_backend.Http.{
  bad_request, unauthorized, conflict, not_found, locked, too_many_requests, internal,
  record_not_found, user_exists, account_locked, rate_limited, email_suppressed, already_verified,
  invalid_otp, invalid_credentials, account_restricted, email_not_verified, invalid_old_password,
  invalid_token, token_revoked, token_expired, user_not_found, Action, pure, throw, throw_if, gets,
  or_throw, modify, ◌>>=◌, ◌>>◌,
}
use gbi_backend.Schema.{PremiumStatus, User, RefreshToken}
use gbi_backend.Prisma.{Prisma}
use gbi_backend.Redis.{
  Redis, RedisKey, RatePrefix, signup_attempts, email_otp_requests, forgot_pw, lockout,
  otp_failures, email_otp, reset_otp, rate, Value, text,
}

pub record Bcrypt : Type 0 where
  pub hash : Text → ℕ → Text
  pub compare : Text → Text → Bool

-- MAX_FAILED_OTP_ATTEMPTS, OTP_LOCKOUT_TTL_SECONDS and REFRESH_TOKEN_EXPIRES_IN
pub record Config : Type 0 where
  pub max_attempts : ℕ
  pub lockout_ttl : ℕ
  pub refresh_days : ℕ

-- What the environment supplies to one call: the time, the generated id, token, code and salt, and
-- whether the address is in the set of suppressed emails.
pub record Env : Type 0 where
  pub now : ℕ
  pub uuid : ℕ
  pub token : ℕ
  pub otp : Text
  pub salt : ℕ
  pub is_suppressed : Bool

pub data Mail : Type 0 where
  welcome : Text → Mail
  otp_mail reset_mail admin_reset_mail : Text → Text → Mail

pub record State (Store : Type 0) : Type 0 where
  pub users : List User
  pub tokens : List RefreshToken
  pub redis : Store
  pub mails : List Mail

-- The result of `generateTokens`: the payload of the access token, and the refresh token.
pub record Tokens : Type 0 where
  pub sub : ℕ
  pub email : Text
  pub refresh_token : ℕ
  pub is_persistent : Bool

abbrev pub has_email : Text → User → Bool
has_email email u = text_eq u.email email

abbrev pub has_user_id : ℕ → User → Bool
has_user_id user_id u = u.id == user_id

abbrev pub has_token : ℕ → RefreshToken → Bool
has_token token r = r.token == token

abbrev pub token_of : ℕ → RefreshToken → Bool
token_of user_id r = r.user_id == user_id

abbrev pub is_stale : ℕ → ℕ → RefreshToken → Bool
is_stale user_id now r = (r.user_id == user_id) && (ltb r.expires_at now || is_some r.revoked_at)

abbrev pub is_expired : ℕ → RefreshToken → Bool
is_expired now r = ltb r.expires_at now

abbrev pub revoke_at : ℕ → RefreshToken → RefreshToken
revoke_at now r = record r { revoked_at = some now }

abbrev pub is_empty : Text → Bool
is_empty [] = true
is_empty (c ∷ s) = false

-- `!(!storedOtp || storedOtp !== otp)`
abbrev pub otp_matches : Option Value → Text → Bool
otp_matches (some (text t)) otp = not (is_empty t) && text_eq t otp
otp_matches _ otp = false

abbrev pub new_user : ℕ → Text → Text → User
new_user id email hash = record {
  id = id;
  email = email;
  password_hash = some hash;
  google_id = none;
  name = none;
  organization = none;
  phone = none;
  email_verified = false;
  phone_verified = false;
  city = none;
  is_restricted = false;
  is_profile_complete = false;
  is_premium = false;
  premium_status = PremiumStatus.free;
  premium_expiry = none;
}

module _ (db : Prisma) (kv : Redis) (config : Config) where
  open db use {find_first, create, update_many, delete_many}
  open kv use {Store, get, exists, set_ex, del, incr, expire}

  abbrev Call : Type 0 → Type 0
  Call A = Action (State Store) A

  abbrev pub in_redis : (kv.Store → kv.Store) → Action (State kv.Store) (Unit {0})
  in_redis f = modify (λ s. record s { redis = f s.redis })

  unfoldable pub check_lockout : Text → ℕ → Action (State kv.Store) (Unit {0})
  check_lockout identifier now = do
    throw_if (← gets (λ s. exists (lockout identifier) now s.redis)) locked account_locked

  -- INCR as a step of the state
  abbrev pub next_count : RedisKey → ℕ → Action (State kv.Store) ℕ
  next_count key now s = let (n, r) = incr key now s.redis in pure n (record s { redis = r })

  -- the branch of `recordFailure` that locks the account
  lock : Text → ℕ → Call (Unit {0})
  lock identifier now = do
    in_redis
        (set_ex (lockout identifier) (text (116 ∷ 114 ∷ 117 ∷ 101 ∷ [])) config.lockout_ttl now)
    in_redis (del (otp_failures identifier))
    throw locked account_locked

  unfoldable pub record_failure : Text → ℕ → Action (State kv.Store) (Unit {0})
  unfolding lock
  record_failure identifier now = do
    failures ← next_count (otp_failures identifier) now
    if failures == 1
        then in_redis (expire (otp_failures identifier) config.lockout_ttl now)
        else pure tt
    if leb config.max_attempts failures then lock identifier now else pure tt

  unfoldable pub clear_failures : Text → Action (State kv.Store) (Unit {0})
  clear_failures identifier = do
    in_redis (del (otp_failures identifier))
    in_redis (del (lockout identifier))

  unfoldable pub check_account_rate_limit :
      RatePrefix → Text → (limit ttl now : ℕ) → Action (State kv.Store) (Unit {0})
  check_account_rate_limit prefix identifier limit ttl now = do
    current ← next_count (rate prefix identifier) now
    if current == 1 then in_redis (expire (rate prefix identifier) ttl now) else pure tt
    throw_if (ltb limit current) too_many_requests rate_limited

  -- generateTokens: the stale tokens of the user go, and a fresh one is stored
  unfoldable pub generate_tokens : ℕ → Text → Bool → Env → Action (State kv.Store) Tokens
  generate_tokens user_id email is_persistent env = do
    modify (λ s. record s { tokens = delete_many (is_stale user_id env.now) s.tokens })
    modify (λ s. record s {
      tokens =
          create
            (record {
              id = env.uuid;
              user_id = user_id;
              token = env.token;
              expires_at = env.now + config.refresh_days * 86400000;
              revoked_at = none;
              is_persistent = is_persistent;
            })
            s.tokens;
    })
    pure (record {
      sub = user_id;
      email = email;
      refresh_token = env.token;
      is_persistent = is_persistent;
    })

  -- `user.update` by a unique filter, which throws where no user fits
  unfoldable pub update_user : (User → Bool) → (User → User) → Action (State kv.Store) User
  update_user which change s = elim (find_first which s.users) [
    | none ↦ throw internal record_not_found s
    | some u ↦ pure (change u) (record s { users = update_many which change s.users })
  ]

  module _ (bcrypt : Bcrypt) where
    unfoldable pub signup : (email password : Text) → Env → Action (State kv.Store) Text
    signup raw_email password env = do
      let email = normalize raw_email
      check_lockout email env.now
      check_account_rate_limit signup_attempts email 3 3600 env.now
      existing ← gets (λ s. find_first (has_email email) s.users)
      throw_if (is_some existing) conflict user_exists
      modify (λ s. record s {
        users = create (new_user env.uuid email (bcrypt.hash password env.salt)) s.users;
      })
      in_redis (set_ex (email_otp email) (text env.otp) 600 env.now)
      modify (λ s. record s { mails = s.mails ++ welcome email ∷ otp_mail email env.otp ∷ [] })
      pure email

    -- `true` where a code was sent, `false` where the email is not registered
    unfoldable pub request_email_otp : Text → Env → Action (State kv.Store) Bool
    request_email_otp raw_email env = do
      let email = normalize raw_email
      throw_if env.is_suppressed bad_request email_suppressed
      check_lockout email env.now
      check_account_rate_limit email_otp_requests email 3 900 env.now
      user ← gets (λ s. find_first (has_email email) s.users)
      elim user [
        | none ↦ pure false
        | some u ↦ do
          throw_if u.email_verified conflict already_verified
          in_redis (set_ex (email_otp email) (text env.otp) 600 env.now)
          modify (λ s. record s { mails = s.mails ++ otp_mail email env.otp ∷ [] })
          pure true
      ]

    -- the check of a code: a wrong one is recorded as a failure, a right one clears the failures
    unfoldable pub check_otp : RedisKey → Text → Text → ℕ → Action (State kv.Store) (Unit {0})
    check_otp key identifier otp now = do
      stored ← gets (λ s. get key now s.redis)
      if otp_matches stored otp
          then pure tt
          else (do record_failure identifier now; throw bad_request invalid_otp)
      clear_failures identifier

    unfoldable pub verify_email_otp :
        (email otp : Text) → Bool → Env → Action (State kv.Store) Tokens
    unfolding check_otp update_user
    verify_email_otp raw_email otp remember_me env = do
      let email = normalize raw_email
      check_lockout email env.now
      check_otp (email_otp email) email otp env.now
      user ← or_throw (← gets (λ s. find_first (has_email email) s.users)) not_found user_not_found
      updated ← update_user (has_user_id user.id) (λ u. record u { email_verified = true })
      in_redis (del (email_otp email))
      generate_tokens updated.id updated.email remember_me env

    -- the failure branch of `login`
    reject : Text → ℕ → Call Tokens
    reject email now = do record_failure email now; throw unauthorized invalid_credentials

    -- the success branch of `login`, after the password
    accept : User → Text → Bool → Env → Call Tokens
    accept user email remember_me env = do
      clear_failures email
      throw_if (not user.email_verified) conflict email_not_verified
      generate_tokens user.id user.email remember_me env

    -- `login` for a user who was found and has a password
    login_user : User → Text → (email password : Text) → Bool → Env → Call Tokens
    unfolding reject accept
    login_user user hash email password remember_me env = do
      throw_if user.is_restricted unauthorized account_restricted
      if bcrypt.compare password hash
          then accept user email remember_me env
          else reject email env.now

    unfoldable pub login : (email password : Text) → Bool → Env → Action (State kv.Store) Tokens
    unfolding login_user reject accept
    login raw_email password remember_me env = do
      let email = normalize raw_email
      check_lockout email env.now
      user ← gets (λ s. find_first (has_email email) s.users)
      elim user [
        | none ↦ reject email env.now
        | some u ↦ elim u.password_hash [
          | none ↦ reject email env.now
          | some hash ↦ login_user u hash email password remember_me env
        ]
      ]

    unfoldable pub change_password :
        ℕ → (old_password new_password : Text) → Env → Action (State kv.Store) (Unit {0})
    unfolding update_user
    change_password user_id old_password new_password env = do
      user ←
          or_throw (← gets (λ s. find_first (has_user_id user_id) s.users)) unauthorized
            invalid_credentials
      hash ← or_throw user.password_hash unauthorized invalid_credentials
      throw_if (not (bcrypt.compare old_password hash)) bad_request invalid_old_password
      update_user (has_user_id user_id)
          (λ u. record u { password_hash = some (bcrypt.hash new_password env.salt) })
      modify
          (λ s. record s { tokens = update_many (token_of user_id) (revoke_at env.now) s.tokens })

    unfoldable pub forgot_password : Text → Env → Action (State kv.Store) Bool
    forgot_password raw_email env = do
      let email = normalize raw_email
      throw_if env.is_suppressed bad_request email_suppressed
      check_lockout email env.now
      check_account_rate_limit forgot_pw email 3 3600 env.now
      user ← gets (λ s. find_first (has_email email) s.users)
      elim user [
        | none ↦ pure false
        | some u ↦ do
          in_redis (set_ex (reset_otp email) (text env.otp) 600 env.now)
          modify (λ s. record s { mails = s.mails ++ reset_mail email env.otp ∷ [] })
          pure true
      ]

    unfoldable pub reset_password :
        (email otp new_password : Text) → Env → Action (State kv.Store) (Unit {0})
    unfolding check_otp update_user
    reset_password raw_email otp new_password env = do
      let email = normalize raw_email
      check_lockout email env.now
      check_otp (reset_otp email) email otp env.now
      update_user (has_email email)
          (λ u. record u { password_hash = some (bcrypt.hash new_password env.salt) })
      in_redis (del (reset_otp email))
      user ← gets (λ s. find_first (has_email email) s.users)
      elim user [
        | none ↦ pure tt
        | some u ↦
            modify
              (λ s. record s { tokens = update_many (token_of u.id) (revoke_at env.now) s.tokens })
      ]

  -- the branch of `refreshTokens` for an expired token
  drop_expired : RefreshToken → Call (Unit {0})
  drop_expired stored = do
    modify (λ s. record s { tokens = delete_many (λ r. r.id == stored.id) s.tokens })
    throw unauthorized token_expired

  -- the checks of `refreshTokens`, on the token's row and its user
  unfoldable pub refresh_tokens : ℕ → Env → Action (State kv.Store) Tokens
  unfolding drop_expired
  refresh_tokens token env = do
    stored ←
        or_throw (← gets (λ s. find_first (has_token token) s.tokens)) unauthorized invalid_token
    user ←
        or_throw (← gets (λ s. find_first (has_user_id stored.user_id) s.users)) internal
          record_not_found
    throw_if (is_some stored.revoked_at) unauthorized token_revoked
    if ltb stored.expires_at env.now then drop_expired stored else pure tt
    throw_if user.is_restricted unauthorized account_restricted
    modify (λ s. record s {
      tokens = update_many (λ r. r.id == stored.id) (revoke_at env.now) s.tokens;
    })
    generate_tokens user.id user.email stored.is_persistent env

  unfoldable pub logout : ℕ → Env → Action (State kv.Store) (Unit {0})
  logout token env =
      modify (λ s. record s { tokens = update_many (has_token token) (revoke_at env.now) s.tokens })

  unfoldable pub validate_user : ℕ → Action (State kv.Store) User
  validate_user user_id = do
    user ←
        or_throw (← gets (λ s. find_first (has_user_id user_id) s.users)) unauthorized
          user_not_found
    throw_if user.is_restricted unauthorized account_restricted
    pure user

  unfoldable pub cleanup_expired_tokens : ℕ → Action (State kv.Store) (Unit {0})
  cleanup_expired_tokens now =
      modify (λ s. record s { tokens = delete_many (is_expired now) s.tokens })
