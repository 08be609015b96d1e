-- ===== src/Lib.antt =====
-- Verification library of the GBI backend, a NestJS service that takes the telemetry of air-quality
-- devices over MQTT, keeps it in PostgreSQL through Prisma, watches it against thresholds, and sells
-- premium memberships; sessions and short-lived codes are in PostgreSQL and Redis.
--
-- Parts, each with the code it is about:
--   Base, Http      lists, texts, truncated integers; HTTP errors and calls as state passing with a
--                   result (`Action`), where a transaction that throws restores the state
--   Schema, Prisma  rows of prisma/schema.prisma, and the client behind src/prisma/prisma.service.ts,
--                   a record of operations with their documented effect; Prisma/Memory meets it
--   Redis           the client behind src/redis, the same way; Redis/Memory meets it
--   Premium         src/module/premium/premium.service.ts and premium.repository.ts: activatePremium,
--                   renewPremium, revokePremium, handleExpiredSubscriptions (activate_premium, ...)
--   Premium/Guard   src/auth/guards/premium.guard.ts and readonly.guard.ts
--   Payments        src/module/subscriptions/payments/payments.service.ts: verifyPayment,
--                   handleWebhook, activateUserSubscription
--   Alerts          src/alerts/alerts.service.ts and alerts.repository.ts: evaluate and all it calls
--   Telemetry       src/mqtt/mqtt.consumer.ts: handleTelemetry (handle_telemetry), and
--                   src/mqtt/offline-detector.service.ts: checkOfflineDevices (check_offline_devices)
--   Devices         src/module/devices/devices.service.ts and devices.repository.ts: claimDevice,
--                   updateDevice, unclaimDevice, setDeviceThreshold, removeDeviceThreshold, and all of
--                   src/groups/groups.service.ts that writes
--   Auth            src/auth/auth.service.ts, all of it, with the private helpers
--                   recordFailure, clearFailures, checkLockout, checkAccountRateLimit, generateTokens
--   Admin           src/module/admin/admin.service.ts and admin.repository.ts: accounts of admins, restriction
--                   of users, and the children Fleet, Bulk and Delete for devices and deletion
--   Users           src/module/users/users.service.ts: the verification of an email or a phone, the profile
--   Plans           src/module/subscriptions/plans/plans.service.ts, and createOrder of payments.service.ts
--   Suppression     src/notifications/notifications.controller.ts, and removeSuppressedEmail of Admin
--   Realtime        src/realtime/sse.service.ts: addClient, removeClient, sendToLocalClients, the heartbeat
--   Csrf            src/common/middleware/csrf.middleware.ts
--   Intervals       src/telemetry/telemetry-query.service.ts: autoInterval
--   Reports         src/reports: the CSV text of generateCsv (csv_text), enqueueReport, getReportStatus,
--                   process and cleanupExpiredReports
-- A component's file holds its state as a record, its data and one function per method of the source,
-- under the method's name in snake case; its children hold the proofs, and a Tests module its runs.
-- Payments calls the activation of Premium and shares its tables; the guards read the user that
-- Premium and Payments write; Telemetry hands each message to the evaluation of Alerts, and its two
-- files share the devices; Auth reads and writes the same users.
--
-- Conventions. Generated ids, names that are only compared, and tokens are numbers; an email or a
-- display name is a list of character codes, and `trim` and `toLowerCase` act on ASCII. A time is its
-- number of milliseconds. A call reads the clock once, so all the `new Date()` of a call are one
-- argument `now`. Adding days to a date is adding 24 hours for each, as on a server whose clock has no
-- daylight saving. Calls run one after another; a transaction is atomic. Readings and thresholds are
-- integers in units of 1/200, so that the hysteresis of 5% of a whole threshold is exact. An Int column of a
-- telemetry row holds 32 bits (fits_columns); the days of a plan are taken to fit theirs. bcrypt, the
-- HMAC, the payment gateway, JWT signing and random values are arguments. Loops are recursion on
-- lists, and nothing runs on fuel.
--
-- Not modelled: controllers, DTO validation by decorators, module wiring, logs, mail delivery, the
-- PDF reports and the wording of messages, which are input and output; queries that only read; and the
-- pages of event logs and notifications.
pub mod Base
pub mod Http
pub mod Schema
pub mod Prisma
pub mod Premium
pub mod Payments
pub mod Alerts
pub mod Redis
pub mod Auth
pub mod Telemetry
pub mod Devices
pub mod Reports
pub mod Users
pub mod Admin
pub mod Realtime
pub mod Csrf
pub mod Intervals
pub mod Suppression
pub mod Plans
