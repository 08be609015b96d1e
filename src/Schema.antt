-- ===== src/Schema.antt =====
-- The rows of prisma/schema.prisma that the modelled services read and write. Generated ids, and
-- names and tokens that are only compared, are numbers; an email or a display name is a text; a
-- DateTime is its number of milliseconds.
use gbi_backend.Base.{ℕ, Bool, Option, Text}
use gbi_backend.Base.Int.{ℤ}

pub data PremiumStatus : Type 0 where
  free premium expired revoked trial : PremiumStatus

pub data SubStatus : Type 0 where
  active expired revoked : SubStatus

pub data PremiumActionType : Type 0 where
  activate renew revoke : PremiumActionType

pub data DeviceStatus : Type 0 where
  active warning offline online : DeviceStatus

pub record User : Type 0 where
  pub id : ℕ
  pub email : Text
  pub password_hash : Option Text
  pub google_id : Option ℕ
  pub name : Option Text
  pub organization : Option Text
  pub phone : Option Text
  pub email_verified : Bool
  pub phone_verified : Bool
  pub city : Option Text
  pub is_restricted : Bool
  pub is_profile_complete : Bool
  pub is_premium : Bool
  pub premium_status : PremiumStatus
  pub premium_expiry : Option ℕ

pub record RefreshToken : Type 0 where
  pub id : ℕ
  pub user_id : ℕ
  pub token : ℕ
  pub expires_at : ℕ
  pub revoked_at : Option ℕ
  pub is_persistent : Bool

-- The admin of a record, or the literal 'SYSTEM_PAYMENT'.
pub data Actor : Type 0 where
  admin : ℕ → Actor
  system_payment : Actor

-- The notes of a history record: given by an admin, or written for the purchase of a plan.
pub data Notes : Type 0 where
  given : Option Text → Notes
  purchased : ℕ → Notes

pub record PremiumSubscription : Type 0 where
  pub id : ℕ
  pub user_id : ℕ
  pub activated_by : Actor
  pub activation_date : ℕ
  pub expiry_date : ℕ
  pub status : SubStatus
  pub revoked_by : Option Actor
  pub revoked_reason : Option Text
  pub revoked_at : Option ℕ

pub record PremiumHistory : Type 0 where
  pub user_id : ℕ
  pub action_type : PremiumActionType
  pub previous_expiry : Option ℕ
  pub new_expiry : Option ℕ
  pub admin_id : Actor
  pub notes : Notes

pub record SubscriptionPlan : Type 0 where
  pub id : ℕ
  pub name : ℕ
  pub amount : ℕ  -- in hundredths
  pub currency : ℕ
  pub duration_days : ℕ
  pub is_active : Bool

-- `order` stands for the row's id `sub_${orderId}` and for its column `orderId`.
pub record Subscription : Type 0 where
  pub order : ℕ
  pub user_id : ℕ
  pub plan_id : ℕ
  pub payment_id : ℕ
  pub amount_paid : ℕ
  pub expires_at : ℕ
  pub status : SubStatus

-- The eight metrics of a telemetry message or row.
pub record Metrics (A : Type 0) : Type 0 where
  pub pm25 : A
  pub pm10 : A
  pub tvoc : A
  pub co2 : A
  pub temperature : A
  pub humidity : A
  pub noise : A
  pub aqi : A

pub record DeviceTelemetry : Type 0 where
  pub device_id : ℕ
  pub timestamp : ℕ
  pub message_id : ℕ
  pub metrics : Metrics (Option ℤ)

-- The columns of a device that the telemetry uses.
pub record Device : Type 0 where
  pub id : ℕ
  pub device_id : ℕ
  pub status : DeviceStatus
  pub last_heartbeat_at : Option ℕ
  pub is_deleted : Bool

-- The JSON under the key `device:…:latest`
pub record LatestState : Type 0 where
  pub message_id : ℕ
  pub timestamp : ℕ
  pub status : DeviceStatus
  pub last_heartbeat_at : ℕ
  pub metrics : Metrics (Option ℤ)
