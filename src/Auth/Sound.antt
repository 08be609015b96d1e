-- ===== src/Auth/Sound.antt =====
-- What the calls of src/auth/auth.service.ts that take a password or a code promise.
use gbi_backend.Base.{
  All-member, ◌<◌, ◌≡◌, ◌≢◌, ◌↔◌, refl, ap, inl, inr, Bool, true, false, Option, none, some, [],
  ◌∷◌, Text, text_eq_refl, eq_of_text_eq, Option-cases, arith,
}
use gbi_backend.Base.Normal.{normalize}
use gbi_backend.Http.{Result-cases, ok, err, bad_request, invalid_otp}
use gbi_backend.Schema.{User}
use gbi_backend.Prisma.{Prisma}
use gbi_backend.Redis.{Redis, Value, text, lockout, otp_failures, email_otp}
use gbi_backend.Auth.Lockout.{record_failure_first}
use gbi_backend.Auth.{
  Config, Env, State, Tokens, Bcrypt, record_failure, clear_failures, generate_tokens,
  check_lockout, login, verify_email_otp, has_email, has_user_id, otp_matches,
}

module _ (db : Prisma) (kv : Redis) (config : Config) (bcrypt : Bcrypt) (email password : Text)
    (remember_me : Bool) where
  -- What a login needs.
  unfoldable pub IsAdmitted : Env → State kv.Store → Type 0
  IsAdmitted env s =
      (u : User) × (hash : Text) × (kv.exists (lockout (normalize email)) env.now s.redis ≡ false)
      × (db.find_first (has_email (normalize email)) s.users ≡ some u)
      × (u.password_hash ≡ some hash)
      × (u.is_restricted ≡ false)
      × (bcrypt.compare password hash ≡ true)
      × (u.email_verified ≡ true)

  -- A login returns tokens exactly where the email is not locked, the user with the normalised
  -- email is found, has a password that the given one matches, is not restricted and has a
  -- verified email.
  pub login_iff :
      (env : Env) (s : State kv.Store)
      → ((t : Tokens) × ((login db kv config bcrypt email password remember_me env s).0 ≡ ok t))
        ↔ IsAdmitted env s
  unfolding login check_lockout clear_failures generate_tokens IsAdmitted
  login_iff env s = (there, back)
    where
      there :
          (t : Tokens) × ((login db kv config bcrypt email password remember_me env s).0 ≡ ok t)
          → IsAdmitted env s
      there (t, h) =
          let fail = Result-cases (record_failure db kv config (normalize email) env.now s).0 in
          elim (Option-cases (db.find_first (has_email (normalize email)) s.users)) [
            | inl e ↦ absurd (ground arith)
            | inr (u, e) ↦ elim (Option-cases u.password_hash) [
              | inl f ↦ absurd (ground arith)
              | inr (hash, f) ↦
                  (u, hash, ground arith, e, f, ground arith, ground arith, ground arith)
            ]
          ]

      back :
          IsAdmitted env s
          → (t : Tokens) × ((login db kv config bcrypt email password remember_me env s).0 ≡ ok t)
      back (u, hash, l, e, f, r, c, v) = (
        record {
          sub = u.id;
          email = u.email;
          refresh_token = env.token;
          is_persistent = remember_me;
        },
        ground arith,
      )

module _ (db : Prisma) (kv : Redis) (config : Config) (bcrypt : Bcrypt) (email : Text) where
  -- What a successful verification leaves in Redis
  verify_email_otp_keys :
      (otp : Text) (remember_me : Bool) (env : Env) (s : State kv.Store) (t : Tokens)
      → (verify_email_otp db kv config bcrypt email otp remember_me env s).0 ≡ ok t
      → (verify_email_otp db kv config bcrypt email otp remember_me env s).1.redis
        ≡ kv.del
            (email_otp (normalize email))
            (kv.del (lockout (normalize email)) (kv.del (otp_failures (normalize email)) s.redis))
  unfolding verify_email_otp check_lockout clear_failures generate_tokens
  verify_email_otp_keys otp remember_me env s t h =
      let fail = Result-cases (record_failure db kv config (normalize email) env.now s).0 in
      ground arith

  abbrev IsCleared : State kv.Store → Type 0
  IsCleared s =
      (kv.entry s.redis (email_otp (normalize email)) ≡ none)
      × (kv.entry s.redis (lockout (normalize email)) ≡ none)
      × (kv.entry s.redis (otp_failures (normalize email)) ≡ none)

  after_dels :
      (r : kv.Store) (s : State kv.Store)
      → s.redis
        ≡ kv.del
            (email_otp (normalize email))
            (kv.del (lockout (normalize email)) (kv.del (otp_failures (normalize email)) r))
      → IsCleared s
  after_dels r s e =
      let i = normalize email in
      let t = text_eq_refl i in
      let d1 = kv.del (otp_failures i) r in
      let d2 = kv.del (lockout i) d1 in
      (
        rw e (rw (kv.entry-del (email_otp i) d2 (email_otp i)) (ground arith)),
        rw e (
            rw (kv.entry-del (email_otp i) d2 (lockout i), kv.entry-del (lockout i) d1 (lockout i))
              (ground arith)),
        rw e (
            rw
              (
                kv.entry-del (email_otp i) d2 (otp_failures i),
                kv.entry-del (lockout i) d1 (otp_failures i),
                kv.entry-del (otp_failures i) r (otp_failures i),
              )
              (ground arith)),
      )

  uncoded :
      (otp : Text) (remember_me : Bool) (later : Env) (s : State kv.Store)
      → IsCleared s
      → 1 < config.max_attempts
      → (verify_email_otp db kv config bcrypt email otp remember_me later s).0
        ≡ err bad_request invalid_otp
  unfolding verify_email_otp check_lockout
  uncoded otp remember_me later s (a, b, c) lt =
      let i = normalize email in
      let (fail, _, _, _) = record_failure_first db kv config i later.now s (rw c refl) lt in
      let g = kv.get_lem (email_otp i) later.now s.redis in
      let x = kv.exists_lem (lockout i) later.now s.redis in ground arith

  -- Where the limit on failures is above one, a verification of an email that succeeded uses its
  -- code up: the next verification of that email is refused, whichever code it gives, as an
  -- invalid code.
  pub verify_email_otp_once :
      (otp again : Text) (remember_me remember : Bool) (env later : Env) (s : State kv.Store)
      (t : Tokens)
      → (verify_email_otp db kv config bcrypt email otp remember_me env s).0 ≡ ok t
      → 1 < config.max_attempts
      → (verify_email_otp db kv config bcrypt email again remember later
          (verify_email_otp db kv config bcrypt email otp remember_me env s).1).0
        ≡ err bad_request invalid_otp
  verify_email_otp_once otp again remember_me remember env later s t h lt =
      let s' = (verify_email_otp db kv config bcrypt email otp remember_me env s).1 in
      uncoded again remember later s'
        (after_dels s.redis s' (verify_email_otp_keys otp remember_me env s t h)) lt

-- A stored code matches if it is the given one, which is not empty.
otp_matches_iff :
    (stored : Option Value) (otp : Text)
    → (otp_matches stored otp ≡ true) ↔ ((stored ≡ some (text otp)) × (otp ≢ []))
otp_matches_iff stored otp = (there stored otp, λ (e, filled). rw e (filled_matches otp filled))
  where
    there :
        (stored : Option Value) (otp : Text)
        → otp_matches stored otp ≡ true
        → (stored ≡ some (text otp)) × (otp ≢ [])
    there none otp h = absurd (ground arith)
    there (some (text [])) otp h = absurd (ground arith)
    there (some (text (c ∷ t))) otp h =
        let e = eq_of_text_eq (c ∷ t) otp (ground arith) in
        (ap (λ x. some (text x)) e, λ k. absurd (ground (arith, e, k)))
    there (some v) otp h = absurd (ground arith)

    filled_matches : (otp : Text) → otp ≢ [] → otp_matches (some (text otp)) otp ≡ true
    filled_matches [] filled = absurd (filled refl)
    filled_matches (c ∷ t) filled = let e = text_eq_refl (c ∷ t) in ground arith

module _ (db : Prisma) (kv : Redis) (config : Config) (bcrypt : Bcrypt) (email otp : Text)
    (remember_me : Bool) where
  -- What a verification needs.
  unfoldable pub IsVerifiable : Env → State kv.Store → Type 0
  IsVerifiable env s =
      (u : User) × (kv.exists (lockout (normalize email)) env.now s.redis ≡ false)
      × (kv.get (email_otp (normalize email)) env.now s.redis ≡ some (text otp))
      × (otp ≢ [])
      × (db.find_first (has_email (normalize email)) s.users ≡ some u)

  -- A verification of an email returns tokens exactly where the email is not locked, the code is
  -- the stored one and not empty, and a user with the normalised email is found; whether that
  -- user is restricted plays no part.
  pub verify_email_otp_iff :
      (env : Env) (s : State kv.Store)
      → ((t : Tokens) × ((verify_email_otp db kv config bcrypt email otp remember_me env s).0
            ≡ ok t))
        ↔ IsVerifiable env s
  unfolding verify_email_otp check_lockout clear_failures generate_tokens IsVerifiable
  verify_email_otp_iff env s = (there, back)
    where
      there :
          (t : Tokens) × ((verify_email_otp db kv config bcrypt email otp remember_me env s).0
              ≡ ok t)
          → IsVerifiable env s
      there (t, h) =
          let fail = Result-cases (record_failure db kv config (normalize email) env.now s).0 in
          elim (Option-cases (db.find_first (has_email (normalize email)) s.users)) [
            | inl e ↦ absurd (ground arith)
            | inr (u, e) ↦
                let (held, filled) =
                  (otp_matches_iff (kv.get (email_otp (normalize email)) env.now s.redis) otp).0
                    (ground arith) in
                (u, ground arith, held, filled, e)
          ]

      back :
          IsVerifiable env s
          → (t : Tokens) × ((verify_email_otp db kv config bcrypt email otp remember_me env s).0
              ≡ ok t)
      back (u, l, held, filled, e) =
          let c =
            (otp_matches_iff (kv.get (email_otp (normalize email)) env.now s.redis) otp).1
              (held, filled) in
          let (_, m) = db.find_first_found (has_email (normalize email)) s.users u e in
          elim (Option-cases (db.find_first (has_user_id u.id) s.users)) [
            | inl none_ ↦
                let miss : has_user_id u.id u ≡ false =
                  All-member (λ x. has_user_id u.id x ≡ false) s.users u
                    (db.find_first_missing (has_user_id u.id) s.users none_) m in
                absurd (ground arith)
            | inr (v, f) ↦ (
              record {
                sub = v.id;
                email = v.email;
                refresh_token = env.token;
                is_persistent = remember_me;
              },
              ground arith,
            )
          ]
