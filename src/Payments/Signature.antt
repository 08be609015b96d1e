-- ===== src/Payments/Signature.antt =====
-- Only a signed request reaches the store
-- (src/module/subscriptions/payments/payments.service.ts, verifyPayment and handleWebhook).
use gbi_backend.Base.{ℕ, ◌≡◌, ◌≢◌, inl, inr, some, Option-cases, Bool-cases, arith}
use gbi_backend.Http.{
  err, Reason, bad_request, payments_disabled, signature_mismatch, webhook_config,
}
use gbi_backend.Prisma.{Prisma}
use gbi_backend.Payments.{Store, Gateway, Config, payment, raw, verify_payment, handle_webhook}

module _ (db : Prisma) (gateway : Gateway) (config : Config) where
  -- A verification whose signature is not the HMAC of its order and payment under the key secret
  -- is answered with a bad request and changes nothing.
  pub verify_payment_unsigned :
      (order payment_id signature user_id uuid now : ℕ) (s : Store)
      → gateway.hmac config.key_secret (payment order payment_id) ≢ signature
      → (why : Reason) × (verify_payment db gateway config order payment_id signature user_id uuid
            now s
          ≡ (err bad_request why, s))
  unfolding verify_payment
  verify_payment_unsigned order payment_id signature user_id uuid now s forged =
      elim (Bool-cases config.enabled) [
        | inl on ↦ (signature_mismatch, ground arith)
        | inr off ↦ (payments_disabled, ground arith)
      ]

  -- A webhook whose signature is not the HMAC of its body under the webhook secret, or that
  -- arrives while no such secret is set, is answered with a bad request and changes nothing.
  pub handle_webhook_unsigned :
      (body signature uuid now : ℕ) (s : Store)
      → ((secret : ℕ)
          → config.webhook_secret ≡ some secret
          → gateway.hmac secret (raw body) ≢ signature)
      → (why : Reason) × (handle_webhook db gateway config body signature uuid now s
          ≡ (err bad_request why, s))
  unfolding handle_webhook
  handle_webhook_unsigned body signature uuid now s forged = elim (Bool-cases config.enabled) [
    | inr off ↦ (payments_disabled, ground arith)
    | inl on ↦ elim (Option-cases config.webhook_secret) [
      | inl unset ↦ (webhook_config, ground arith)
      | inr (secret, e) ↦ (signature_mismatch, ground (arith, forged secret e))
    ]
  ]
