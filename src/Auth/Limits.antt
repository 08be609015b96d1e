-- ===== src/Auth/Limits.antt =====
-- The limit on requests per account of src/auth/auth.service.ts (checkAccountRateLimit).
use gbi_backend.Base.{
  ℕ, suc, ◌+◌, ◌*◌, ◌<◌, ◌≡◌, refl, ◌∙◌, inl, inr, true, Option, none, some, List, [], ◌∷◌, Text,
  text_eq_refl, All, Bool-cases, arith, ltb, if◌then◌else◌, length,
}
use gbi_backend.Http.{Result, ok, err, too_many_requests, rate_limited}
use gbi_backend.Prisma.{Prisma}
use gbi_backend.Redis.{Redis, Entry, number, rate, RatePrefix, prefix_eq}
use gbi_backend.Auth.{Config, State, check_account_rate_limit}

prefix_eq_refl : (p : RatePrefix) → prefix_eq p p ≡ true
prefix_eq_refl RatePrefix.signup_attempts = refl
prefix_eq_refl RatePrefix.email_otp_requests = refl
prefix_eq_refl RatePrefix.forgot_pw = refl
prefix_eq_refl RatePrefix.otp_requests = refl

module _ (db : Prisma) (kv : Redis) (config : Config) (prefix : RatePrefix) (i : Text)
    (limit ttl : ℕ) where
  request : ℕ → State kv.Store → Result (Unit {0}) × State kv.Store
  request now s = check_account_rate_limit db kv config prefix i limit ttl now s

  pub run_requests : List ℕ → State kv.Store → State kv.Store
  run_requests [] s = s
  run_requests (now ∷ rest) s = run_requests rest (request now s).1

  abbrev pub requests_of : State kv.Store → Option Entry
  requests_of s = kv.entry s.redis (rate prefix i)

  abbrev pub IsBefore : ℕ → ℕ → Type 0
  IsBefore deadline now = now < deadline

  request_first :
      (now : ℕ) (s : State kv.Store)
      → requests_of s ≡ none
      → requests_of (request now s).1
        ≡ some (record { value = number 1; expires_at = some (now + ttl * 1000) })
  unfolding check_account_rate_limit request
  request_first now s e =
      let t = text_eq_refl i in
      let p = prefix_eq_refl prefix in
      let one = kv.incr_lem (rate prefix i) now s.redis in
      let after = kv.entry-incr (rate prefix i) now s.redis (rate prefix i) in
      let set =
        kv.entry-expire (rate prefix i) ttl now (kv.incr (rate prefix i) now s.redis).1
          (rate prefix i) in
      elim (Bool-cases (ltb limit 1)) [ inl y ↦ ground arith | inr n ↦ ground arith ]

  request_next :
      (now c deadline : ℕ) (s : State kv.Store)
      → requests_of s ≡ some (record { value = number (suc c); expires_at = some deadline })
      → now < deadline
      → (requests_of (request now s).1
          ≡ some (record { value = number (suc (suc c)); expires_at = some deadline }))
        × ((request now s).0
            ≡ (if ltb limit (suc (suc c)) then err too_many_requests rate_limited else ok tt))
  unfolding check_account_rate_limit request
  request_next now c deadline s e early =
      let t = text_eq_refl i in
      let p = prefix_eq_refl prefix in
      let one = kv.incr_lem (rate prefix i) now s.redis in
      let after = kv.entry-incr (rate prefix i) now s.redis (rate prefix i) in
      elim (Bool-cases (ltb limit (suc (suc c)))) [
        | inl y ↦ (ground arith, ground arith)
        | inr n ↦ (ground arith, ground arith)
      ]

  run_requests_count :
      (times : List ℕ) (c deadline : ℕ) (s : State kv.Store)
      → requests_of s ≡ some (record { value = number (suc c); expires_at = some deadline })
      → All (IsBefore deadline) times
      → requests_of (run_requests times s)
        ≡ some (record { value = number (suc (c + length times)); expires_at = some deadline })
  unfolding run_requests
  run_requests_count [] c deadline s e early = e ∙ ground arith
  run_requests_count (now ∷ times) c deadline s e (b, early) =
      let (f, _) = request_next now c deadline s e b in
      run_requests_count times (suc c) deadline (request now s).1 f early ∙ ground arith

  -- Of the requests of an account that come within the time of the first one, where none was
  -- counted before, each is let through exactly while their number is within the limit.
  pub check_account_rate_limit_counts :
      (first last : ℕ) (times : List ℕ) (s : State kv.Store)
      → requests_of s ≡ none
      → All (IsBefore (first + ttl * 1000)) times
      → last < first + ttl * 1000
      → (check_account_rate_limit db kv config prefix i limit ttl last
          (run_requests (first ∷ times) s)).0
        ≡ (if ltb limit (suc (suc (length times)))
            then err too_many_requests rate_limited
            else ok tt)
  unfolding run_requests request
  check_account_rate_limit_counts first last times s e early b =
      let run =
        run_requests_count times 0 (first + ttl * 1000) (request first s).1
          (request_first first s e) early in
      let (_, r) =
        request_next last (length times) (first + ttl * 1000)
          (run_requests times (request first s).1) (run ∙ ground arith) b in
      r
