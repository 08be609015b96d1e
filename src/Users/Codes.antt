-- ===== src/Users/Codes.antt =====
-- The codes that verify an email or a phone in src/module/users/users.service.ts.
use gbi_backend.Base.{
  ℕ, suc, ◌+◌, ◌*◌, ◌<◌, ◌≤◌, ◌≡◌, refl, ap, ◌∙◌, ◌⊎◌, inl, inr, true, false, Option, none, some,
  List, [], ◌∷◌, Text, text_eq_refl, All, Option-cases, Bool-cases, arith, ltb, is_some,
  if◌then◌else◌, update_where,
}
use gbi_backend.Http.{
  Result, Status, Reason, ok, err, bad_request, invalid_otp, too_many_requests, cooldown,
  hourly_limit, not_found, user_not_found,
}
use gbi_backend.Schema.{User}
use gbi_backend.Prisma.{Prisma}
use gbi_backend.Redis.{
  Redis, Entry, Channel, email, phone, channel_eq, key_eq, otp_of, cooldown_of, count_of, number,
  text,
}
use gbi_backend.Auth.{Config, Env, State, has_user_id, is_empty, update_user}
use gbi_backend.Users.{
  is_verified, verified, is_spent, check_rate_limit, request_code, verified_already, verify_code,
}

channel_eq_refl : (c : Channel) → channel_eq c c ≡ true
channel_eq_refl email = refl
channel_eq_refl phone = refl

module _ (db : Prisma) (kv : Redis) (config : Config) (channel : Channel) (user_id : ℕ) where
  abbrev request : Env → State kv.Store → Result (Unit {0}) × State kv.Store
  request env s = request_code db kv config channel user_id env s

  abbrev limit : ℕ → State kv.Store → Result (Unit {0}) × State kv.Store
  limit now s = check_rate_limit db kv config user_id channel now s

  abbrev counts : State kv.Store → Option Entry
  counts s = kv.entry s.redis (count_of channel user_id)

  -- The store after a request was counted
  abbrev limited : ℕ → State kv.Store → kv.Store
  limited now s =
      let marked = kv.set_ex (cooldown_of channel user_id) (text (49 ∷ [])) 60 now s.redis in
      let requests = (kv.incr (count_of channel user_id) now marked).1 in
      if is_some (kv.get (count_of channel user_id) now s.redis)
      then requests
      else kv.expire (count_of channel user_id) 3600 now requests

  abbrev sent_to : Env → State kv.Store → State kv.Store
  sent_to env s = record s {
    redis = kv.set_ex (otp_of channel user_id) (text env.otp) 300 env.now (limited env.now s);
  }

  -- The limits refuse a request, or count it.
  limit_outcomes :
      (now : ℕ) (s : State kv.Store)
      → ((code : Status) × (why : Reason) × (limit now s ≡ (err code why, s)))
        ⊎ ((is_spent (kv.get (count_of channel user_id) now s.redis) ≡ false)
            × (limit now s ≡ (ok tt, record s { redis = limited now s })))
  unfolding check_rate_limit
  limit_outcomes now s =
      elim (Bool-cases (is_some (kv.get (cooldown_of channel user_id) now s.redis))) [
        | inl w ↦ inl (too_many_requests, cooldown, ground arith)
        | inr w ↦ elim (Bool-cases (is_spent (kv.get (count_of channel user_id) now s.redis))) [
          | inl f ↦ inl (too_many_requests, hourly_limit, ground arith)
          | inr f ↦ elim (Bool-cases (is_some (kv.get (count_of channel user_id) now s.redis))) [
            | inl c ↦ inr (f, ground arith)
            | inr c ↦ inr (f, ground arith)
          ]
        ]
      ]

  -- A request is refused and changes nothing, or stores a code for a user who was found.
  request_outcomes :
      (env : Env) (s : State kv.Store)
      → ((code : Status) × (why : Reason) × (request env s ≡ (err code why, s)))
        ⊎ ((u : User) × (db.find_first (has_user_id user_id) s.users ≡ some u)
            × (is_spent (kv.get (count_of channel user_id) env.now s.redis) ≡ false)
            × (request env s ≡ (ok tt, sent_to env s)))
  unfolding request_code
  request_outcomes env s = elim (Option-cases (db.find_first (has_user_id user_id) s.users)) [
    | inl e ↦ inl (not_found, user_not_found, ground arith)
    | inr (u, e) ↦ elim (Bool-cases (is_verified channel u)) [
      | inl v ↦ inl (bad_request, verified_already channel, ground arith)
      | inr v ↦ elim (limit_outcomes env.now s) [
        | inl (code, why, h) ↦ inl (code, why, ground (arith, h))
        | inr (f, h) ↦ inr (u, e, f, ground (arith, h))
      ]
    ]
  ]

  -- The number of requests that were answered with a code
  unfoldable pub run_requests : List Env → State kv.Store → ℕ × State kv.Store
  run_requests [] s = (0, s)
  run_requests (env ∷ rest) s =
      let (r, s') = request env s in
      let (n, end) = run_requests rest s' in
      elim r [ ok a ↦ (suc n, end) | err code why ↦ (n, end) ]

  abbrev pub IsWithin : ℕ → Env → Type 0
  IsWithin start env = (start ≤ env.now) × (env.now < start + 3600000)

  -- No request was counted, or `c` of them under an expiry after the hour.
  HasCount : ℕ → ℕ → State kv.Store → Type 0
  HasCount start c s =
      ((counts s ≡ none) × (c ≡ 0))
      ⊎ ((deadline : ℕ) × (start + 3600000 ≤ deadline)
          × (counts s ≡ some (record { value = number c; expires_at = some deadline })))

  key_refl : key_eq (count_of channel user_id) (count_of channel user_id) ≡ true
  key_refl = let c = channel_eq_refl channel in ground arith

  -- A request that is counted moves the count on, and there were fewer than five.
  count_next :
      (start c : ℕ) (env : Env) (s : State kv.Store)
      → HasCount start c s
      → IsWithin start env
      → is_spent (kv.get (count_of channel user_id) env.now s.redis) ≡ false
      → HasCount start (suc c) (sent_to env s) × (suc c ≤ 5)
  unfolding HasCount
  count_next start c env s (inl (e, z)) (lo, hi) f =
      let n = key_refl in
      let k = count_of channel user_id in
      let marked = kv.set_ex (cooldown_of channel user_id) (text (49 ∷ [])) 60 env.now s.redis in
      let now = env.now in
      let g = kv.get_lem k now s.redis in
      let none_yet : kv.get k now s.redis ≡ none = ground arith in
      let m : kv.entry marked k ≡ none =
        ground (
          arith,
          kv.entry-set_ex (cooldown_of channel user_id) (text (49 ∷ [])) 60 now s.redis k,
        ) in
      let i : kv.entry (kv.incr k now marked).1 k
          ≡ some (record { value = number 1; expires_at = none }) =
        ground (arith, kv.entry-incr k now marked k) in
      let x : kv.entry (kv.expire k 3600 now (kv.incr k now marked).1) k
          ≡ some (record { value = number 1; expires_at = some (now + 3600000) }) =
        ground (arith, kv.entry-expire k 3600 now (kv.incr k now marked).1 k) in
      (
        inr (
          now + 3600000,
          omega arith,
          ground (
            arith,
            kv.entry-set_ex (otp_of channel user_id) (text env.otp) 300 now (limited now s) k,
          ),
        ),
        omega arith,
      )
  count_next start c env s (inr (d, l, e)) (lo, hi) f =
      let n = key_refl in
      let k = count_of channel user_id in
      let marked = kv.set_ex (cooldown_of channel user_id) (text (49 ∷ [])) 60 env.now s.redis in
      let now = env.now in
      let g = kv.get_lem k now s.redis in
      let early : ltb now d ≡ true = ground arith in
      let before : kv.get k now s.redis ≡ some (number c) = ground arith in
      let m : kv.entry marked k ≡ some (record { value = number c; expires_at = some d }) =
        ground (
          arith,
          kv.entry-set_ex (cooldown_of channel user_id) (text (49 ∷ [])) 60 now s.redis k,
        ) in
      let i : kv.entry (kv.incr k now marked).1 k
          ≡ some (record { value = number (suc c); expires_at = some d }) =
        ground (arith, kv.entry-incr k now marked k) in
      (
        inr (
          d,
          l,
          ground (
            arith,
            kv.entry-set_ex (otp_of channel user_id) (text env.otp) 300 now (limited now s) k,
          ),
        ),
        ground arith,
      )

  -- By induction: the requests that are answered, and those that were counted, are five at most.
  run_requests-counted :
      (start c : ℕ) (envs : List Env) (s : State kv.Store)
      → HasCount start c s
      → c ≤ 5
      → All (IsWithin start) envs
      → (run_requests envs s).0 + c ≤ 5
  unfolding run_requests
  run_requests-counted start c [] s h b w = omega arith
  run_requests-counted start c (env ∷ rest) s h b (t, w) = elim (request_outcomes env s) [
    | inl (code, why, q) ↦
        let later = run_requests-counted start c rest s h b w in ground (arith, q)
    | inr (u, e, f, q) ↦
        let (next, fewer) = count_next start c env s h t f in
        let later = run_requests-counted start (suc c) rest (sent_to env s) next fewer w in
        ground (arith, q)
  ]

  -- Of the requests for a code of one channel that a user makes within an hour, where none was
  -- counted before, five at most are answered with a code.
  pub run_requests_at_most :
      (start : ℕ) (envs : List Env) (s : State kv.Store)
      → counts s ≡ none
      → All (IsWithin start) envs
      → (run_requests envs s).0 ≤ 5
  run_requests_at_most start envs s e w =
      let b =
        run_requests-counted start 0 envs s (unfold HasCount in inl (e, refl)) (omega arith) w in
      omega arith

  abbrev verify : Text → ℕ → State kv.Store → Result (Unit {0}) × State kv.Store
  verify code now s = verify_code db kv config channel user_id code now s

  otp_refl : key_eq (otp_of channel user_id) (otp_of channel user_id) ≡ true
  otp_refl = let c = channel_eq_refl channel in ground arith

  verify_right :
      (code : Text) (now : ℕ) (s : State kv.Store) (u : User)
      → kv.get (otp_of channel user_id) now s.redis ≡ some (text code)
      → is_empty code ≡ false
      → db.find_first (has_user_id user_id) s.users ≡ some u
      → verify code now s ≡ (
        ok tt,
        record s {
          users = db.update_many (has_user_id user_id) (verified channel) s.users;
          redis = kv.del (otp_of channel user_id) s.redis;
        },
      )
  unfolding verify_code update_user
  verify_right code now s u g filled e = let same = text_eq_refl code in ground arith

  verify_missing :
      (code : Text) (now : ℕ) (s : State kv.Store)
      → kv.get (otp_of channel user_id) now s.redis ≡ none
      → verify code now s ≡ (err bad_request invalid_otp, s)
  unfolding verify_code
  verify_missing code now s g = ground arith

  verified_lem :
      (c : Channel) (u : User)
      → verified c u ≡ elim c [
        | email ↦ record u { email_verified = true }
        | phone ↦ record u { phone_verified = true }
      ]
  verified_lem email u = refl
  verified_lem phone u = refl

  -- After a request that succeeded, whose code is not empty, the code that it sent sets the
  -- verified flag of the channel, email or phone, of the user while it is live, and once: every
  -- later verification is refused as an invalid code and changes nothing.
  pub request_code-verify_code :
      (env : Env) (now : ℕ) (s : State kv.Store)
      → (request env s).0 ≡ ok tt
      → is_empty env.otp ≡ false
      → now < env.now + 300 * 1000
      → ((verify env.otp now (request env s).1).0 ≡ ok tt)
        × ((verify env.otp now (request env s).1).1.users
            ≡ update_where
                (has_user_id user_id)
                (λ u. elim channel [
                  | email ↦ record u { email_verified = true }
                  | phone ↦ record u { phone_verified = true }
                ])
                s.users)
        × ((code : Text) (later : ℕ)
            → verify code later (verify env.otp now (request env s).1).1
              ≡ (err bad_request invalid_otp, (verify env.otp now (request env s).1).1))
  request_code-verify_code env now s h filled live = elim (request_outcomes env s) [
    | inl (code, why, q) ↦ absurd (ground arith)
    | inr (u, e, f, q) ↦
        let k = otp_of channel user_id in
        let self = otp_refl in
        let sent = (sent_to env s).redis in
        let x : kv.entry sent k
            ≡ some (record { value = text env.otp; expires_at = some (env.now + 300 * 1000) }) =
          ground (arith, kv.entry-set_ex k (text env.otp) 300 env.now (limited env.now s) k) in
        let g : kv.get k now sent ≡ some (text env.otp) = ground (arith, kv.get_lem k now sent) in
        let gone : (later : ℕ) → kv.get k later (kv.del k sent) ≡ none =
          λ later. ground (arith, kv.get_lem k later (kv.del k sent), kv.entry-del k sent k) in
        let run = verify_right env.otp now (sent_to env s) u g filled e in
        rw (q, run)
          (
            refl,
            db.update_many_lem (has_user_id user_id) (verified channel) s.users
                ∙ ap (λ f. update_where (has_user_id user_id) f s.users)
                    (λ i u. verified_lem channel u i),
            λ code later. verify_missing code later _ (gone later),
          )
  ]
