-- ===== src/Admin.antt =====
-- Administration of accounts: src/module/admin/admin.service.ts and admin.repository.ts. The users,
-- the refresh tokens and the Redis store are those of src/auth/auth.service.ts. The signature of a
-- token is checked by the JWT package, so a token that verifies stands for its payload.
pub mod Restrict
pub mod Fleet
pub mod Bulk
pub mod Rows
pub mod Accounting
pub mod Delete
mod Tests
use gbi_backend.Base.{
  ℕ, Bool, true, false, not, ◌&&◌, Option, none, some, List, [], ◌∷◌, ◌++◌, map, Text, text_eq,
  ◌==◌, is_some, if◌then◌else◌,
}
use gbi_backend.Base.Normal.{lower, trim, normalize}
use gbi_backend.Http.{
  bad_request, unauthorized, internal, invalid_credentials, invalid_token, admin_not_found,
  user_not_found, restricted_target, invalid_otp, record_not_found, Action, pure, throw, throw_if,
  gets, or_throw, modify, ◌>>=◌, ◌>>◌,
}
use gbi_backend.Schema.{User}
use gbi_backend.Prisma.{Prisma}
use gbi_backend.Redis.{Redis, lockout, otp_failures, admin_otp, Value, text}
use gbi_backend.Auth.{
  Config, Env, Bcrypt, has_user_id, token_of, otp_matches, admin_reset_mail, update_user,
}

pub record Admin : Type 0 where
  pub id : ℕ
  pub email : Text
  pub password_hash : Text

pub record State (Store : Type 0) : Type 0 where
  pub admins : List Admin
  pub accounts : gbi_backend.Auth.State Store

-- The payload of an admin token; the access token and the refresh token of `generateTokens` have
-- the same but for the mark.
pub record Payload : Type 0 where
  pub sub : ℕ
  pub is_admin : Bool
  pub is_refresh_token : Bool

-- The payload of the token that lets an admin act as a user.
pub record Impersonation : Type 0 where
  pub sub : ℕ
  pub email : Text
  pub readonly : Bool
  pub impersonated_by : ℕ

abbrev pub has_admin_id : ℕ → Admin → Bool
has_admin_id id a = a.id == id

-- `findCaseInsensitive`: the address is trimmed, and both sides are compared without case.
abbrev pub has_admin_email : Text → Admin → Bool
has_admin_email email a = text_eq (map lower a.email) (map lower (trim email))

-- `identifier.toLowerCase().trim()`
abbrev pub norm : Text → Text
norm identifier = trim (map lower identifier)

abbrev pub access : ℕ → Payload
access admin_id = record { sub = admin_id; is_admin = true; is_refresh_token = false }

abbrev pub refresh : ℕ → Payload
refresh admin_id = record { sub = admin_id; is_admin = true; is_refresh_token = true }

abbrev pub restricted : Bool → User → User
restricted value u = record u { is_restricted = value }

module _ (db : Prisma) (kv : Redis) (config : Config) where
  open db use {find_first, update_many, delete_many}
  open kv use {get, set_ex, del}

  abbrev Call : Type 0 → Type 0
  Call A = Action (State kv.Store) A

  -- a call of the accounts as a call of the whole state
  in_accounts : {A : Type 0} → Action (gbi_backend.Auth.State kv.Store) A → Call A
  in_accounts call s = let (r, accounts) = call s.accounts in (r, record s { accounts = accounts })

  in_redis : (kv.Store → kv.Store) → Call (Unit {0})
  unfolding in_accounts
  in_redis f = in_accounts (modify (λ a. record a { redis = f a.redis }))

  unfoldable pub login :
      Bcrypt → (email password : Text) → Action (State kv.Store) (Payload × Payload)
  login bcrypt email password = do
    admin ←
        or_throw (← gets (λ s. find_first (has_admin_email email) s.admins)) unauthorized
          invalid_credentials
    throw_if (not (bcrypt.compare password admin.password_hash)) unauthorized invalid_credentials
    pure (access admin.id, refresh admin.id)

  -- `refreshTokens`: the payload of the given token, none where it does not verify
  unfoldable pub refresh_tokens : Option Payload → Action (State kv.Store) (Payload × Payload)
  refresh_tokens token = do
    payload ← or_throw token unauthorized invalid_token
    throw_if (not (payload.is_admin && payload.is_refresh_token)) unauthorized invalid_token
    admin ←
        or_throw (← gets (λ s. find_first (has_admin_id payload.sub) s.admins)) unauthorized
          invalid_token
    pure (access payload.sub, refresh payload.sub)

  unfoldable pub impersonate_user : (admin_id user_id : ℕ) → Action (State kv.Store) Impersonation
  impersonate_user admin_id user_id = do
    user ←
        or_throw (← gets (λ s. find_first (has_user_id user_id) s.accounts.users)) bad_request
          user_not_found
    throw_if user.is_restricted bad_request restricted_target
    pure (record { sub = user.id; email = user.email; readonly = true; impersonated_by = admin_id })

  unfoldable pub restrict_user : ℕ → Action (State kv.Store) (Unit {0})
  unfolding in_accounts update_user
  restrict_user user_id = in_accounts (do
    user ← update_user db kv config (has_user_id user_id) (restricted true)
    modify (λ a. record a { tokens = delete_many (token_of user_id) a.tokens }))

  unfoldable pub unrestrict_user : ℕ → Action (State kv.Store) User
  unfolding in_accounts update_user
  unrestrict_user user_id =
      in_accounts (update_user db kv config (has_user_id user_id) (restricted false))

  unfoldable pub unlock_user : Text → Action (State kv.Store) (Unit {0})
  unfolding in_redis
  unlock_user identifier = do
    in_redis (del (lockout (norm identifier)))
    in_redis (del (otp_failures (norm identifier)))

  -- `forgotPassword`: whether a code was stored and mailed, which the answer does not tell
  unfoldable pub forgot_password : (email otp : Text) → (now : ℕ) → Action (State kv.Store) Bool
  unfolding in_redis in_accounts
  forgot_password email otp now = do
    admin ← gets (λ s. find_first (has_admin_email email) s.admins)
    elim admin [
      | none ↦ pure false
      | some a ↦ do
        in_redis (set_ex (admin_otp a.email) (text otp) 600 now)
        in_accounts
            (modify (λ x. record x { mails = x.mails ++ admin_reset_mail a.email otp ∷ [] }))
        pure true
    ]

  unfoldable pub reset_password :
      Bcrypt → (email otp new_password : Text) → (salt now : ℕ) → Action (State kv.Store) (Unit {0})
  unfolding in_redis
  reset_password bcrypt email otp new_password salt now = do
    stored ← gets (λ s. get (admin_otp email) now s.accounts.redis)
    throw_if (not (otp_matches stored otp)) bad_request invalid_otp
    admin ←
        or_throw (← gets (λ s. find_first (has_admin_email email) s.admins)) bad_request
          admin_not_found
    modify (λ s. record s {
      admins =
          update_many (has_admin_id admin.id)
            (λ a. record a { password_hash = bcrypt.hash new_password salt }) s.admins;
    })
    in_redis (del (admin_otp email))
