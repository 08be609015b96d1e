-- ===== src/Suppression/Tests.antt =====
-- Runs of the webhook for bounces (src/notifications/notifications.controller.ts).
use gbi_backend.Base.{
  ◌≡◌, ◌≢◌, refl, true, false, none, some, Option, List, [], ◌∷◌, Text, text_eq, Memᴰ,
}
use gbi_backend.Base.Normal.{normalize, trim}
use gbi_backend.Base.Texts.{codes}
use gbi_backend.Http.{ok}
use gbi_backend.Schema.{PremiumStatus, User}
use gbi_backend.Prisma.Memory.{memory}
use gbi_backend.Redis.Memory.{memory_redis}
use gbi_backend.Auth.{Bcrypt, Config, Env, Tokens, login}
use gbi_backend.Admin.{norm}
use gbi_backend.Suppression.{
  State, bounce, notification, is_suppressed, suppress, suppress_one, suppress_all,
  handle_sns_webhook,
}
use gbi_backend.Suppression.Bounce.{handle_sns_webhook-login}

abbrev prefixing : Bcrypt
prefixing = record {
  hash = λ t salt. salt ∷ t;
  compare = λ t h. elim h [ [] ↦ false | x ∷ xs ↦ text_eq t xs ];
}

abbrev limits : Config
limits = record { max_attempts = 3; lockout_ttl = 60; refresh_days = 7 }

abbrev env : Env
env = record { now = 5; uuid = 20; token = 20; otp = 55 ∷ []; salt = 3; is_suppressed = false }

abbrev dora : User
dora = record {
  id = 1;
  email = codes "dora";
  password_hash = some (3 ∷ codes "pw");
  google_id = none;
  name = none;
  organization = none;
  phone = none;
  email_verified = true;
  phone_verified = false;
  city = none;
  is_restricted = false;
  is_profile_complete = false;
  is_premium = false;
  premium_status = PremiumStatus.free;
  premium_expiry = none;
}

abbrev office : State memory_redis.Store
office = record {
  accounts = record { users = dora ∷ []; tokens = []; redis = λ k. none; mails = [] };
  suppressed = [];
}

abbrev recipients : List (Option Text)
recipients = none ∷ some (codes "Dora ") ∷ []

bounce_runs :
    (handle_sns_webhook memory memory_redis
      (some (notification (some (bounce true recipients))))
      office).1.suppressed
    ≡ codes "dora" ∷ []
unfolding handle_sns_webhook suppress_all suppress_one suppress text_eq trim
bounce_runs = refl

abbrev tokens : Tokens
tokens = record { sub = 1; email = codes "dora"; refresh_token = 20; is_persistent = true }

handle_sns_webhook-login_example :
    (is_suppressed
        (norm (codes "Dora "))
        (handle_sns_webhook memory memory_redis
          (some (notification (some (bounce true recipients))))
          office).1.suppressed
      ≡ true)
    × ((login memory memory_redis limits prefixing
          (codes "DORA")
          (codes "pw")
          true
          env
          (handle_sns_webhook memory memory_redis
            (some (notification (some (bounce true recipients))))
            office).1.accounts).0
        ≢ ok tokens)
unfolding normalize trim
handle_sns_webhook-login_example =
    handle_sns_webhook-login memory memory_redis limits prefixing (codes "Dora ") (codes "DORA")
      (codes "pw") true env tokens recipients office (Memᴰ.tail (Memᴰ.head refl)) refl refl
