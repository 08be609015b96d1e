-- ===== src/Suppression.antt =====
-- Bounces and complaints: handleSnsWebhook of src/notifications/notifications.controller.ts, and
-- removeSuppressedEmail of src/module/admin/admin.service.ts. JSON.parse and the call of the
-- subscription's address are outside: the payload is given, or none where it cannot be parsed.
pub mod Bounce
mod Tests
use gbi_backend.Base.{
  ℕ, Bool, true, false, not, Option, none, some, List, [], ◌∷◌, ◌++◌, Text, text_eq, remove_where,
  if◌then◌else◌,
}
use gbi_backend.Schema.{User}
use gbi_backend.Prisma.{Prisma}
use gbi_backend.Redis.{Redis}
use gbi_backend.Auth.{has_email, is_empty}
use gbi_backend.Admin.{norm}

-- The types of a message that have an effect; the recipients' addresses may be missing.
pub data Message : Type 0 where
  bounce : (is_permanent : Bool) → List (Option Text) → Message
  complaint : List (Option Text) → Message
  other : Message

pub data Payload : Type 0 where
  -- whether the call of the address succeeds, where there is one
  subscription_confirmation : Option Bool → Payload
  -- none where the message cannot be parsed
  notification : Option Message → Payload
  other : Payload

pub data Answer : Type 0 where
  success failure confirmed failed_confirmation : Answer

pub record State (Store : Type 0) : Type 0 where
  pub accounts : gbi_backend.Auth.State Store
  pub suppressed : List Text

abbrev pub is_suppressed : Text → List Text → Bool
is_suppressed email [] = false
is_suppressed email (x ∷ rest) =
    let later = is_suppressed email rest in if text_eq x email then true else later

-- SADD
abbrev pub add_suppressed : Text → List Text → List Text
add_suppressed email set = if is_suppressed email set then set else set ++ email ∷ []

abbrev pub unverified : User → User
unverified u = record u { email_verified = false }

module _ (db : Prisma) (kv : Redis) where
  -- what a bounce or a complaint does for one recipient
  unfoldable pub suppress : Text → State kv.Store → State kv.Store
  suppress email s = record s {
    accounts = record (s.accounts) {
      users = db.update_many (has_email (norm email)) unverified s.accounts.users;
    };
    suppressed = add_suppressed (norm email) s.suppressed;
  }

  -- one round of the loop over the recipients: a missing or empty address is passed over
  unfoldable pub suppress_one : Option Text → State kv.Store → State kv.Store
  suppress_one none s = s
  suppress_one (some email) s = if is_empty email then s else suppress email s

  unfoldable pub suppress_all : List (Option Text) → State kv.Store → State kv.Store
  suppress_all [] s = s
  suppress_all (recipient ∷ rest) s = suppress_all rest (suppress_one recipient s)

  handle_message : Message → State kv.Store → State kv.Store
  handle_message (bounce is_permanent recipients) s =
      if is_permanent then suppress_all recipients s else s
  handle_message (complaint recipients) s = suppress_all recipients s
  handle_message Message.other s = s

  unfoldable pub handle_sns_webhook : Option Payload → State kv.Store → Answer × State kv.Store
  unfolding handle_message
  handle_sns_webhook none s = (failure, s)
  handle_sns_webhook (some (subscription_confirmation none)) s = (success, s)
  handle_sns_webhook (some (subscription_confirmation (some done))) s =
      (if done then confirmed else failed_confirmation, s)
  handle_sns_webhook (some (notification none)) s = (failure, s)
  handle_sns_webhook (some (notification (some message))) s = (success, handle_message message s)
  handle_sns_webhook (some Payload.other) s = (success, s)

  -- SREM: whether the address was there
  unfoldable pub remove_suppressed_email : Text → State kv.Store → Bool × State kv.Store
  remove_suppressed_email email s = (
    is_suppressed (norm email) s.suppressed,
    record s { suppressed = remove_where (λ x. text_eq x (norm email)) s.suppressed },
  )
