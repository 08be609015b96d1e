-- ===== src/Auth/Profile.antt =====
-- The rest of src/auth/auth.service.ts: the code for a phone, the completion of a profile, and the
-- login with Google. Whether a phone must be verified is an argument.
use gbi_backend.Base.{
  ℕ, Bool, true, false, not, ◌&&◌, ◌||◌, Option, none, some, [], ◌∷◌, ◌++◌, select, Text, leb, ◌==◌,
  is_some, if◌then◌else◌,
}
use gbi_backend.Base.Normal.{trim, normalize}
use gbi_backend.Http.{
  internal, unique_violation, bad_request, unauthorized, not_found, user_not_found,
  account_restricted, otp_missing, Action, pure, throw, throw_if, gets, or_throw, modify, ◌>>=◌,
  ◌>>◌,
}
use gbi_backend.Schema.{PremiumStatus, User}
use gbi_backend.Prisma.{Prisma}
use gbi_backend.Redis.{Redis, phone_otp, otp_requests, text}
use gbi_backend.Auth.{
  Bcrypt, Config, Env, State, Tokens, welcome, is_empty, has_email, has_user_id, in_redis,
  update_user, check_lockout, check_account_rate_limit, check_otp, generate_tokens,
}

-- `replace(/[^\d+]/g, '')`
abbrev pub is_dialled : ℕ → Bool
is_dialled c = (leb 48 c && leb c 57) || c == 43

abbrev pub dialled : Text → Text
dialled phone = select is_dialled (trim phone)

pub record CompleteProfileDto : Type 0 where
  pub name : Text
  pub organization : Option Text
  pub city : Text
  pub phone : Text
  pub otp : Option Text
  pub password : Option Text
  pub remember_me : Bool

pub record GoogleProfile : Type 0 where
  pub google_id : ℕ
  pub email : Text
  pub display_name : Option Text
  pub hosted_domain : Option Text

abbrev pub is_truthy : Option Text → Bool
is_truthy none = false
is_truthy (some t) = not (is_empty t)

abbrev pub or_old : Option Text → Option Text → Option Text
or_old none old = old
or_old (some t) old = some t

abbrev pub completed : CompleteProfileDto → Option Text → Bool → User → User
completed dto hash verified u = record u {
  name = some dto.name;
  organization = or_old dto.organization u.organization;
  city = some dto.city;
  phone = some (dialled dto.phone);
  password_hash = or_old hash u.password_hash;
  phone_verified = verified;
  is_profile_complete = true;
}

-- whether the row has something to gain from the Google profile
abbrev pub is_unlinked : GoogleProfile → User → Bool
is_unlinked p u =
    not (is_some u.google_id) || (not (is_truthy u.organization) && is_truthy p.hosted_domain)

-- The column `googleId` is unique.
abbrev pub has_google_id : ℕ → User → Bool
has_google_id google_id u = elim u.google_id [ none ↦ false | some g ↦ g == google_id ]

abbrev pub linked : GoogleProfile → User → User
linked p u = record u {
  email_verified = true;
  google_id = if is_some u.google_id then u.google_id else some p.google_id;
  organization =
      if not (is_truthy u.organization) && is_truthy p.hosted_domain
      then p.hosted_domain
      else u.organization;
}

abbrev pub google_user : ℕ → GoogleProfile → User
google_user id p = record {
  id = id;
  email = p.email;
  password_hash = none;
  google_id = some p.google_id;
  name = p.display_name;
  organization = p.hosted_domain;
  phone = none;
  email_verified = true;
  phone_verified = false;
  city = none;
  is_restricted = false;
  is_profile_complete = false;
  is_premium = false;
  premium_status = PremiumStatus.free;
  premium_expiry = none;
}

module _ (db : Prisma) (kv : Redis) (config : Config) (bcrypt : Bcrypt) where
  open db use {find_first, create}
  open kv use {set_ex, del}

  -- whether a code was sent
  unfoldable pub request_phone_otp : (required : Bool) → Text → Env → Action (State kv.Store) Bool
  request_phone_otp false raw_phone env = pure false
  request_phone_otp true raw_phone env = do
    let phone = dialled raw_phone
    check_lockout db kv config phone env.now
    check_account_rate_limit db kv config otp_requests phone 3 900 env.now
    in_redis db kv config (set_ex (phone_otp phone) (text env.otp) 300 env.now)
    pure true

  -- the part of `completeProfile` that reads the code, where one is required
  check_phone : Bool → CompleteProfileDto → ℕ → Action (State kv.Store) (Unit {0})
  check_phone false dto now = pure tt
  check_phone true dto now = elim dto.otp [
    | none ↦ throw bad_request otp_missing
    | some otp ↦ do
      throw_if (is_empty otp) bad_request otp_missing
      check_otp db kv config bcrypt (phone_otp (dialled dto.phone)) (dialled dto.phone) otp now
  ]

  -- `if (password) passwordHash = await bcrypt.hash(password, 12)`
  abbrev new_hash : Option Text → ℕ → Option Text
  new_hash none salt = none
  new_hash (some password) salt =
      if is_empty password then none else some (bcrypt.hash password salt)

  unfoldable pub complete_profile :
      (required : Bool) → CompleteProfileDto → Text → Env → Action (State kv.Store) Tokens
  unfolding check_phone update_user
  complete_profile required dto user_email env = do
    let email = normalize user_email
    check_lockout db kv config (if required then dialled dto.phone else email) env.now
    check_phone required dto env.now
    user ← or_throw (← gets (λ s. find_first (has_email email) s.users)) not_found user_not_found
    updated ←
        update_user db kv config (has_user_id user.id)
          (completed dto (new_hash dto.password env.salt) required)
    if required then in_redis db kv config (del (phone_otp (dialled dto.phone))) else pure tt
    generate_tokens db kv config updated.id updated.email dto.remember_me env

  -- the branch of `googleLogin` for a user who is there
  admit : GoogleProfile → User → Action (State kv.Store) User
  unfolding update_user
  admit p u = do
    taken ← gets (λ s. find_first (has_google_id p.google_id) s.users)
    throw_if (not (is_some u.google_id) && is_some taken) internal unique_violation
    user ←
        if is_unlinked p u then update_user db kv config (has_user_id u.id) (linked p) else pure u
    throw_if user.is_restricted unauthorized account_restricted
    pure user

  -- the branch for a new one
  enrol : GoogleProfile → Env → Action (State kv.Store) User
  enrol p env = do
    taken ← gets (λ s. find_first (has_google_id p.google_id) s.users)
    throw_if (is_some taken) internal unique_violation
    modify (λ s. record s { users = create (google_user env.uuid p) s.users })
    modify (λ s. record s { mails = s.mails ++ welcome p.email ∷ [] })
    pure (google_user env.uuid p)

  unfoldable pub google_login : GoogleProfile → Env → Action (State kv.Store) Tokens
  unfolding admit enrol
  google_login p env = do
    existing ← gets (λ s. find_first (has_email p.email) s.users)
    user ← elim existing [ none ↦ enrol p env | some u ↦ admit p u ]
    generate_tokens db kv config user.id user.email true env
