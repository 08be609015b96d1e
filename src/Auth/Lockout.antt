-- ===== src/Auth/Lockout.antt =====
-- The account lockout of src/auth/auth.service.ts (recordFailure, checkLockout, checkAccountRateLimit).
use gbi_backend.Base.{
  ℕ, suc, ◌+◌, ◌*◌, ◌≤◌, ◌<◌, ◌≡◌, refl, ◌∙◌, inl, inr, Bool, true, false, Option, none, some, List,
  [], ◌∷◌, ◌++◌, Text, text_eq_refl, All, Option-cases, Bool-cases, arith, ◌==◌, length,
}
use gbi_backend.Http.{Result-cases, ok, err, locked, account_locked}
use gbi_backend.Schema.{User}
use gbi_backend.Prisma.{Prisma}
use gbi_backend.Redis.{Redis, Entry, number, text, lockout, otp_failures, counted, expiry_of}
use gbi_backend.Base.Normal.{normalize}
use gbi_backend.Auth.{
  Config, Env, State, Bcrypt, record_failure, check_lockout, login, signup, request_email_otp,
  verify_email_otp, forgot_password, reset_password, has_email,
}

pub record Attempt : Type 0 where
  pub password : Text
  pub remember_me : Bool
  pub env : Env

module _ (db : Prisma) (kv : Redis) (config : Config) (i : Text) where
  abbrev fails : State kv.Store → Option Entry
  fails s = kv.entry s.redis (otp_failures i)

  abbrev lock_of : State kv.Store → Option Entry
  lock_of s = kv.entry s.redis (lockout i)

  abbrev window : ℕ → ℕ
  window now = now + config.lockout_ttl * 1000

  -- A failure below the limit
  pub record_failure_first :
      (now : ℕ) (s : State kv.Store)
      → counted now (fails s) ≡ 0
      → 1 < config.max_attempts
      → let (r, s') = record_failure db kv config i now s in
        (r ≡ ok tt)
        × (fails s' ≡ some (record { value = number 1; expires_at = some (window now) }))
        × (lock_of s' ≡ lock_of s)
        × (s'.users ≡ s.users)
  unfolding record_failure
  record_failure_first now s e lt =
      let t = text_eq_refl i in
      let one = kv.incr_lem (otp_failures i) now s.redis in
      let after = kv.entry-incr (otp_failures i) now s.redis (otp_failures i) in
      let after_lock = kv.entry-incr (otp_failures i) now s.redis (lockout i) in
      let set =
        kv.entry-expire (otp_failures i) config.lockout_ttl now
          (kv.incr (otp_failures i) now s.redis).1 (otp_failures i) in
      let set_lock =
        kv.entry-expire (otp_failures i) config.lockout_ttl now
          (kv.incr (otp_failures i) now s.redis).1 (lockout i) in
      (ground arith, ground arith, ground arith, ground arith)

  record_failure_next :
      (now c deadline : ℕ) (s : State kv.Store)
      → fails s ≡ some (record { value = number (suc c); expires_at = some deadline })
      → now < deadline
      → suc (suc c) < config.max_attempts
      → let (r, s') = record_failure db kv config i now s in
        (fails s' ≡ some (record { value = number (suc (suc c)); expires_at = some deadline }))
        × (lock_of s' ≡ lock_of s)
        × (s'.users ≡ s.users)
  unfolding record_failure
  record_failure_next now c deadline s e early lt =
      let t = text_eq_refl i in
      let one = kv.incr_lem (otp_failures i) now s.redis in
      let after = kv.entry-incr (otp_failures i) now s.redis (otp_failures i) in
      let after_lock = kv.entry-incr (otp_failures i) now s.redis (lockout i) in
      (ground arith, ground arith, ground arith)

  -- The failure that reaches the limit locks the identifier.
  record_failure_last :
      (now c : ℕ) (s : State kv.Store)
      → counted now (fails s) ≡ c
      → config.max_attempts ≤ suc c
      → let (r, s') = record_failure db kv config i now s in
        (r ≡ err locked account_locked)
        × (expiry_of (lock_of s') ≡ some (window now))
        × (s'.users ≡ s.users)
  unfolding record_failure
  record_failure_last now c s e ge =
      let t = text_eq_refl i in
      let one = kv.incr_lem (otp_failures i) now s.redis in
      (
        ground arith,
        elim (Bool-cases ((kv.incr (otp_failures i) now s.redis).0 == 1)) [
          | inl yes' ↦
              let red =
                kv.expire (otp_failures i) config.lockout_ttl now
                  (kv.incr (otp_failures i) now s.redis).1 in
              let set =
                kv.entry-set_ex (lockout i) (text (116 ∷ 114 ∷ 117 ∷ 101 ∷ [])) config.lockout_ttl
                  now red (lockout i) in
              let gone =
                kv.entry-del (otp_failures i)
                  (kv.set_ex (lockout i) (text (116 ∷ 114 ∷ 117 ∷ 101 ∷ [])) config.lockout_ttl now
                    red)
                  (lockout i) in
              ground arith
          | inr no' ↦
              let red = (kv.incr (otp_failures i) now s.redis).1 in
              let set =
                kv.entry-set_ex (lockout i) (text (116 ∷ 114 ∷ 117 ∷ 101 ∷ [])) config.lockout_ttl
                  now red (lockout i) in
              let gone =
                kv.entry-del (otp_failures i)
                  (kv.set_ex (lockout i) (text (116 ∷ 114 ∷ 117 ∷ 101 ∷ [])) config.lockout_ttl now
                    red)
                  (lockout i) in
              ground arith
        ],
        ground arith,
      )

module _ (db : Prisma) (kv : Redis) (config : Config) (bcrypt : Bcrypt) (email : Text) where
  attempt : Attempt → State kv.Store → State kv.Store
  attempt a s = (login db kv config bcrypt email a.password a.remember_me a.env s).1

  pub run_attempts : List Attempt → State kv.Store → State kv.Store
  run_attempts [] s = s
  run_attempts (a ∷ rest) s = run_attempts rest (attempt a s)

  abbrev pub failures_of : State kv.Store → Option Entry
  failures_of s = kv.entry s.redis (otp_failures (normalize email))

  abbrev pub lockout_of : State kv.Store → Option Entry
  lockout_of s = kv.entry s.redis (lockout (normalize email))

  abbrev pub IsWrong : Text → Attempt → Type 0
  IsWrong hash a = bcrypt.compare a.password hash ≡ false

  -- An attempt with a wrong password only records a failure.
  wrong_attempt :
      (a : Attempt) (s : State kv.Store) (u : User) (hash : Text)
      → lockout_of s ≡ none
      → db.find_first (has_email (normalize email)) s.users ≡ some u
      → u.is_restricted ≡ false
      → u.password_hash ≡ some hash
      → IsWrong hash a
      → (login db kv config bcrypt email a.password a.remember_me a.env s).1
        ≡ (record_failure db kv config (normalize email) a.env.now s).1
  unfolding login check_lockout
  wrong_attempt a s u hash open_ found free own wrong =
      let e = kv.exists_lem (lockout (normalize email)) a.env.now s.redis in
      elim (Result-cases ((record_failure db kv config (normalize email) a.env.now s).0)) [
        | inl (x, h) ↦ ground arith
        | inr (c, r, h) ↦ ground arith
      ]

  abbrev InWindow : ℕ → Attempt → Type 0
  InWindow deadline a = a.env.now < deadline

  -- The attempts between the first and the last
  middle_attempts :
      (rest : List Attempt) (c deadline : ℕ) (s : State kv.Store) (u : User) (hash : Text)
      → failures_of s ≡ some (record { value = number (suc c); expires_at = some deadline })
      → lockout_of s ≡ none
      → db.find_first (has_email (normalize email)) s.users ≡ some u
      → u.is_restricted ≡ false
      → u.password_hash ≡ some hash
      → All (IsWrong hash) rest
      → All (InWindow deadline) rest
      → suc (c + length rest) < config.max_attempts
      → (failures_of (run_attempts rest s)
          ≡ some (record { value = number (suc (c + length rest)); expires_at = some deadline }))
        × (lockout_of (run_attempts rest s) ≡ none)
        × (db.find_first (has_email (normalize email)) (run_attempts rest s).users ≡ some u)
  unfolding run_attempts attempt
  middle_attempts [] c deadline s u hash fails_ open_ found free own wrong early few =
      (fails_ ∙ ground arith, open_, found)
  middle_attempts (a ∷ rest) c deadline s u hash fails_ open_ found free own (w, wrong) (e, early)
        few =
      let step = wrong_attempt a s u hash open_ found free own w in
      let (f, l, us) =
        record_failure_next db kv config (normalize email) a.env.now c deadline s fails_ e
          (omega arith) in
      let (f', l', us') =
        middle_attempts rest (suc c) deadline (attempt a s) u hash (rw step f) (rw step (l ∙ open_))
          (rw (step, us) found) free own wrong early (omega arith) in
      (f' ∙ ground arith, l', us')

  run_attempts-append :
      (rest : List Attempt) (a : Attempt) (s : State kv.Store)
      → run_attempts (rest ++ a ∷ []) s ≡ attempt a (run_attempts rest s)
  unfolding run_attempts
  run_attempts-append [] a s = refl
  run_attempts-append (x ∷ rest) a s = run_attempts-append rest a (attempt x s)

  locked_until :
      (s : State kv.Store) (deadline now : ℕ)
      → expiry_of (lockout_of s) ≡ some deadline
      → now < deadline
      → kv.exists (lockout (normalize email)) now s.redis ≡ true
  locked_until s deadline now e lt = elim (Option-cases (lockout_of s)) [
    | inl none_ ↦ absurd (ground arith)
    | inr (x, h) ↦ ground (arith, kv.exists_lem (lockout (normalize email)) now s.redis)
  ]

  locked_login :
      (a : Attempt) (s : State kv.Store)
      → kv.exists (lockout (normalize email)) a.env.now s.redis ≡ true
      → login db kv config bcrypt email a.password a.remember_me a.env s
        ≡ (err locked account_locked, s)
  unfolding login check_lockout
  locked_login a s h = ground arith

  -- Where a user with the email is found, is not restricted and has a password, the email has no
  -- lock and no recorded failures, and the limit on failures is at least two: as many logins
  -- with a wrong password as the limit allows, of which all come within the lockout time of the
  -- first, leave the account locked, so that every login within the lockout time after the last
  -- one, with whichever password, is answered with the status Locked and changes nothing.
  pub login_locks :
      (first : Attempt) (rest : List Attempt) (last : Attempt) (s : State kv.Store) (u : User)
      (hash : Text) (later : Attempt)
      → failures_of s ≡ none
      → lockout_of s ≡ none
      → db.find_first (has_email (normalize email)) s.users ≡ some u
      → u.is_restricted ≡ false
      → u.password_hash ≡ some hash
      → IsWrong hash first
      → All (IsWrong hash) rest
      → IsWrong hash last
      → All (InWindow (first.env.now + config.lockout_ttl * 1000)) rest
      → InWindow (first.env.now + config.lockout_ttl * 1000) last
      → suc (suc (length rest)) ≡ config.max_attempts
      → InWindow (last.env.now + config.lockout_ttl * 1000) later
      → login db kv config bcrypt email later.password later.remember_me later.env
          (run_attempts (first ∷ (rest ++ last ∷ [])) s)
        ≡ (err locked account_locked, run_attempts (first ∷ (rest ++ last ∷ [])) s)
  unfolding attempt run_attempts
  login_locks first rest last s u hash later clean open_ found free own w ws w' early e limit soon =
      let deadline = first.env.now + config.lockout_ttl * 1000 in
      let one = wrong_attempt first s u hash open_ found free own w in
      let (_, f, l, us) =
        record_failure_first db kv config (normalize email) first.env.now s (rw clean refl)
          (omega arith) in
      let s1 = attempt first s in
      let (f', l', us') =
        middle_attempts rest 0 deadline s1 u hash (rw one f) (rw one (l ∙ open_))
          (rw (one, us) found) free own ws early (omega arith) in
      let s2 = run_attempts rest s1 in
      let final = wrong_attempt last s2 u hash l' us' free own w' in
      let (_, lk, _) =
        record_failure_last db kv config (normalize email) last.env.now (suc (length rest)) s2
          (ground arith) (omega arith) in
      rw (run_attempts-append rest last s1) (
        locked_login later (attempt last s2) (
          locked_until (attempt last s2) (last.env.now + config.lockout_ttl * 1000) later.env.now
            (rw final lk) soon))

  -- While the email is locked and is not suppressed, a signup, a request for a code, a
  -- verification, a login, a request for a reset and a reset are all answered with the status
  -- Locked and change nothing.
  pub locked_refuses :
      (s : State kv.Store) (env : Env) (otp password : Text) (remember_me : Bool)
      → kv.exists (lockout (normalize email)) env.now s.redis ≡ true
      → env.is_suppressed ≡ false
      → (signup db kv config bcrypt email password env s ≡ (err locked account_locked, s))
        × (request_email_otp db kv config bcrypt email env s ≡ (err locked account_locked, s))
        × (verify_email_otp db kv config bcrypt email otp remember_me env s
            ≡ (err locked account_locked, s))
        × (login db kv config bcrypt email password remember_me env s
            ≡ (err locked account_locked, s))
        × (forgot_password db kv config bcrypt email env s ≡ (err locked account_locked, s))
        × (reset_password db kv config bcrypt email otp password env s
            ≡ (err locked account_locked, s))
  unfolding login signup request_email_otp verify_email_otp forgot_password reset_password
      check_lockout
  locked_refuses s env otp password remember_me h sent =
      (ground arith, ground arith, ground arith, ground arith, ground arith, ground arith)
