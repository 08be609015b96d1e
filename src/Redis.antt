-- ===== src/Redis.antt =====
-- The Redis server, a service that the source calls. What it stores under each key is visible
-- through `entry`, and the client is a parameter with the documented effect of each command on
-- that. Times are in milliseconds, and a TTL is in seconds.
pub mod Memory
use gbi_backend.Base.{
  ◌==◌, ℕ, suc, ◌+◌, ◌*◌, ◌≡◌, refl, Bool, true, false, Option, none, some, Text, text_eq,
  text_eq_refl, ltb, if◌then◌else◌,
}
use gbi_backend.Schema.{LatestState}

pub data RatePrefix : Type 0 where
  signup_attempts email_otp_requests forgot_pw otp_requests : RatePrefix

-- The two verifications of a user: `email` and `phone`
pub data Channel : Type 0 where
  email phone : Channel

abbrev pub channel_eq : Channel → Channel → Bool
channel_eq email email = true
channel_eq phone phone = true
channel_eq _ _ = false

-- The keys `lockout:…`, `otp_failures:…`, `email_otp:…`, `reset_otp:…`, `prefix:…`,
-- `user:…:devices`, `device:…:latest`, `phone_otp:…`, `admin_password_otp:…`, and those of the two
-- verifications of a user: `otp_…:…`, `rate_limit:otp_cooldown:…` and `rate_limit:otp_count:…`.
pub data RedisKey : Type 0 where
  lockout otp_failures email_otp reset_otp : Text → RedisKey
  rate : RatePrefix → Text → RedisKey
  user_devices device_latest : ℕ → RedisKey
  phone_otp admin_otp : Text → RedisKey
  otp_of cooldown_of count_of : Channel → ℕ → RedisKey

abbrev pub prefix_eq : RatePrefix → RatePrefix → Bool
prefix_eq signup_attempts signup_attempts = true
prefix_eq email_otp_requests email_otp_requests = true
prefix_eq forgot_pw forgot_pw = true
prefix_eq otp_requests otp_requests = true
prefix_eq _ _ = false

abbrev pub key_eq : RedisKey → RedisKey → Bool
key_eq (lockout a) (lockout b) = text_eq a b
key_eq (otp_failures a) (otp_failures b) = text_eq a b
key_eq (email_otp a) (email_otp b) = text_eq a b
key_eq (reset_otp a) (reset_otp b) = text_eq a b
key_eq (phone_otp a) (phone_otp b) = text_eq a b
key_eq (admin_otp a) (admin_otp b) = text_eq a b
key_eq (otp_of c a) (otp_of d b) = if channel_eq c d then a == b else false
key_eq (cooldown_of c a) (cooldown_of d b) = if channel_eq c d then a == b else false
key_eq (count_of c a) (count_of d b) = if channel_eq c d then a == b else false
key_eq (user_devices a) (user_devices b) = a == b
key_eq (device_latest a) (device_latest b) = a == b
key_eq (rate p a) (rate q b) = if prefix_eq p q then text_eq a b else false
key_eq _ _ = false

pub data Value : Type 0 where
  text : Text → Value
  number : ℕ → Value
  state : LatestState → Value

pub record Entry : Type 0 where
  pub value : Value
  pub expires_at : Option ℕ

abbrev pub is_live : ℕ → Option Entry → Bool
is_live now none = false
is_live now (some e) = elim e.expires_at [ none ↦ true | some t ↦ ltb now t ]

abbrev pub value_of : Option Entry → Option Value
value_of none = none
value_of (some e) = some e.value

-- The count that INCR finds, 0 for a missing key.
abbrev pub number_of : Option Value → ℕ
number_of none = 0
number_of (some (text t)) = 0
number_of (some (number n)) = n
number_of (some (state x)) = 0

abbrev pub live : ℕ → Option Entry → Option Entry
live now o = if is_live now o then o else none

abbrev pub counted : ℕ → Option Entry → ℕ
counted now o = number_of (value_of (live now o))

abbrev pub expiry_of : Option Entry → Option ℕ
expiry_of none = none
expiry_of (some e) = e.expires_at

abbrev pub with_expiry : ℕ → Option Entry → Option Entry
with_expiry t none = none
with_expiry t (some e) = some (record e { expires_at = some t })

pub record Redis : Type 1 where
  pub Store : Type 0
  pub entry : Store → RedisKey → Option Entry
  -- GET and EXISTS
  pub get : RedisKey → ℕ → Store → Option Value
  pub get_lem : (k : RedisKey) (now : ℕ) (s : Store) → get k now s ≡ value_of (live now (entry s k))
  pub exists : RedisKey → ℕ → Store → Bool
  pub exists_lem : (k : RedisKey) (now : ℕ) (s : Store) → exists k now s ≡ is_live now (entry s k)
  -- SET key value EX ttl
  pub set_ex : RedisKey → Value → ℕ → ℕ → Store → Store
  pub entry-set_ex :
      (k : RedisKey) (v : Value) (ttl now : ℕ) (s : Store) (j : RedisKey)
      → entry (set_ex k v ttl now s) j ≡ (
          if key_eq k j
          then some (record { value = v; expires_at = some (now + ttl * 1000) })
          else entry s j)
  -- DEL
  pub del : RedisKey → Store → Store
  pub entry-del :
      (k : RedisKey) (s : Store) (j : RedisKey)
      → entry (del k s) j ≡ (if key_eq k j then none else entry s j)
  -- INCR, which keeps the expiry of a live key: the new count, and the store
  pub incr : RedisKey → ℕ → Store → ℕ × Store
  pub incr_lem :
      (k : RedisKey) (now : ℕ) (s : Store) → (incr k now s).0 ≡ suc (counted now (entry s k))
  pub entry-incr :
      (k : RedisKey) (now : ℕ) (s : Store) (j : RedisKey)
      → entry (incr k now s).1 j ≡ (
          if key_eq k j
          then some (record {
            value = number (suc (counted now (entry s k)));
            expires_at = expiry_of (live now (entry s k));
          })
          else entry s j)
  -- EXPIRE
  pub expire : RedisKey → ℕ → ℕ → Store → Store
  pub entry-expire :
      (k : RedisKey) (ttl now : ℕ) (s : Store) (j : RedisKey)
      → entry (expire k ttl now s) j
        ≡ (if key_eq k j then with_expiry (now + ttl * 1000) (live now (entry s k)) else entry s j)
