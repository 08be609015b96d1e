-- ===== src/Auth/Sessions.antt =====
-- The refresh tokens of src/auth/auth.service.ts: rotation, revocation and cleanup.
use gbi_backend.Base.{
  ◌≤◌, ℕ, ◌+◌, ◌*◌, ◌≡◌, ◌≢◌, refl, inl, inr, Bool, true, false, none, some, List, [], ◌∷◌, ◌++◌,
  Text, All, All-update_where, All-remove_where_kept, All-append_one, All-of_members, All-member,
  Distinct, Option-cases, Bool-cases, arith, ◌==◌, ltb, is_some, update_where, remove_where,
}
use gbi_backend.Base.Normal.{normalize}
use gbi_backend.Http.{Result-cases, ok, err, unauthorized, invalid_token, token_revoked}
use gbi_backend.Schema.{User, RefreshToken}
use gbi_backend.Prisma.{Prisma}
use gbi_backend.Prisma.Unique.{All-found, find_first-none, find_first-delete_many}
use gbi_backend.Redis.{Redis}
use gbi_backend.Auth.{
  check_lockout, record_failure, clear_failures, generate_tokens, Config, Env, State, Tokens,
  Bcrypt, has_token, has_user_id, has_email, token_of, is_stale, is_expired, revoke_at,
  refresh_tokens, change_password, reset_password, cleanup_expired_tokens,
}

module _ (db : Prisma) (kv : Redis) (config : Config) where
  abbrev new_token : ℕ → Bool → Env → RefreshToken
  new_token user_id is_persistent env = record {
    id = env.uuid;
    user_id = user_id;
    token = env.token;
    expires_at = env.now + config.refresh_days * 86400000;
    revoked_at = none;
    is_persistent = is_persistent;
  }

  -- What a successful refresh found, and the tokens that it left.
  pub refresh_tokens_effect :
      (token : ℕ) (env : Env) (s : State kv.Store) (t : Tokens)
      → (refresh_tokens db kv config token env s).0 ≡ ok t
      → (r : RefreshToken) × (u : User) × (db.find_first (has_token token) s.tokens ≡ some r)
        × (db.find_first (has_user_id r.user_id) s.users ≡ some u)
        × (r.revoked_at ≡ none)
        × (ltb r.expires_at env.now ≡ false)
        × (u.is_restricted ≡ false)
        × (t ≡ record {
          sub = u.id;
          email = u.email;
          refresh_token = env.token;
          is_persistent = r.is_persistent;
        })
        × ((refresh_tokens db kv config token env s).1.tokens
            ≡ remove_where
                (is_stale u.id env.now)
                (update_where (λ x. x.id == r.id) (revoke_at env.now) s.tokens)
              ++ new_token u.id r.is_persistent env ∷ [])
  unfolding refresh_tokens generate_tokens
  refresh_tokens_effect token env s t h =
      elim (Option-cases (db.find_first (has_token token) s.tokens)) [
        | inl e ↦ absurd (ground arith)
        | inr (r, e) ↦ elim (Option-cases (db.find_first (has_user_id r.user_id) s.users)) [
          | inl f ↦ absurd (ground arith)
          | inr (u, f) ↦ (
            r,
            u,
            e,
            f,
            ground arith,
            ground arith,
            ground arith,
            ground arith,
            ground (
              arith,
              db.create_lem (new_token u.id r.is_persistent env) (
                  db.delete_many (is_stale u.id env.now)
                    (db.update_many (λ x. x.id == r.id) (revoke_at env.now) s.tokens)),
              db.delete_many_lem (is_stale u.id env.now)
                  (db.update_many (λ x. x.id == r.id) (revoke_at env.now) s.tokens),
              db.update_many_lem (λ x. x.id == r.id) (revoke_at env.now) s.tokens,
            ),
          )
        ]
      ]

  -- No row of the rotated token survives.
  rotated_away :
      (token : ℕ) (env : Env) (rows : List RefreshToken) (r : RefreshToken) (persistent : Bool)
      → Distinct (λ (x : RefreshToken). x.token) rows
      → db.find_first (has_token token) rows ≡ some r
      → env.token ≢ token
      → All
          (λ x. has_token token x ≡ false)
          (remove_where
              (is_stale r.user_id env.now)
              (update_where (λ x. x.id == r.id) (revoke_at env.now) rows)
            ++ new_token r.user_id persistent env ∷ [])
  rotated_away token env rows r persistent uniq e fresh =
      All-append_one (λ x. has_token token x ≡ false)
        (remove_where (is_stale r.user_id env.now)
          (update_where (λ x. x.id == r.id) (revoke_at env.now) rows))
        (new_token r.user_id persistent env)
        (All-remove_where_kept (λ x. x.token ≡ token → is_stale r.user_id env.now x ≡ true)
          (λ x. has_token token x ≡ false) (is_stale r.user_id env.now)
          (update_where (λ x. x.id == r.id) (revoke_at env.now) rows) (λ x p k. kept x p k)
          (All-update_where (λ x. x.token ≡ token → x ≡ r)
            (λ x. x.token ≡ token → is_stale r.user_id env.now x ≡ true) (λ x. x.id == r.id)
            (revoke_at env.now) rows (λ x p k q. let same : x ≡ r = p q in ground arith)
            (λ x p k q. let same : x ≡ r = p q in absurd (ground arith))
            (All-found db (λ x. x.token) token rows r uniq e)))
        (ground arith)
    where
      kept :
          (x : RefreshToken)
          → (x.token ≡ token → is_stale r.user_id env.now x ≡ true)
          → is_stale r.user_id env.now x ≡ false
          → has_token token x ≡ false
      kept x p k = elim (Bool-cases (has_token token x)) [
        | inl hit ↦
            let q : is_stale r.user_id env.now x ≡ true = p (ground arith) in absurd (ground arith)
        | inr miss ↦ miss
      ]

  -- Where tokens are unique, a refresh that succeeded and made a new token uses its token up:
  -- every later refresh with the old token is refused as invalid and changes nothing.
  pub refresh_tokens_replay :
      (token : ℕ) (env later : Env) (s : State kv.Store) (t : Tokens)
      → Distinct (λ (x : RefreshToken). x.token) s.tokens
      → env.token ≢ token
      → (refresh_tokens db kv config token env s).0 ≡ ok t
      → let s' = (refresh_tokens db kv config token env s).1 in
        refresh_tokens db kv config token later s' ≡ (err unauthorized invalid_token, s')
  refresh_tokens_replay token env later s t uniq fresh h =
      let (r, u, e, f, _, _, _, _, left) = refresh_tokens_effect token env s t h in
      let owner : u.id ≡ r.user_id = found_id r.user_id s.users u f in
      let gone : db.find_first (has_token token) (refresh_tokens db kv config token env s).1.tokens
          ≡ none =
        rw left (
          find_first-none db (has_token token) _
            (rw owner (rotated_away token env s.tokens r r.is_persistent uniq e fresh))) in
      unknown token later (refresh_tokens db kv config token env s).1 gone
    where
      found_id :
          (i : ℕ) (users : List User) (u : User)
          → db.find_first (has_user_id i) users ≡ some u
          → u.id ≡ i
      found_id i users u f =
          let (hit, m) = db.find_first_found (has_user_id i) users u f in ground arith

      unknown :
          (token : ℕ) (later : Env) (s : State kv.Store)
          → db.find_first (has_token token) s.tokens ≡ none
          → refresh_tokens db kv config token later s ≡ (err unauthorized invalid_token, s)
      unknown token later s gone = unfold refresh_tokens in ground arith

  -- A token of a user whose rows are all revoked is refused.
  refused :
      (user_id token : ℕ) (env : Env) (s : State kv.Store) (r : RefreshToken) (u : User)
      → All (λ x. x.user_id ≡ user_id → is_some x.revoked_at ≡ true) s.tokens
      → db.find_first (has_token token) s.tokens ≡ some r
      → db.find_first (has_user_id user_id) s.users ≡ some u
      → r.user_id ≡ user_id
      → refresh_tokens db kv config token env s ≡ (err unauthorized token_revoked, s)
  unfolding refresh_tokens
  refused user_id token env s r u h e f own =
      let (_, m) = db.find_first_found (has_token token) s.tokens r e in
      let dead : is_some r.revoked_at ≡ true =
        All-member (λ x. x.user_id ≡ user_id → is_some x.revoked_at ≡ true) s.tokens r h m own in
      ground arith

  revoked_everywhere :
      (user_id now : ℕ) (rows : List RefreshToken)
      → All
          (λ x. x.user_id ≡ user_id → is_some x.revoked_at ≡ true)
          (update_where (token_of user_id) (revoke_at now) rows)
  revoked_everywhere user_id now rows =
      All-update_where (λ x. Unit {0}) (λ x. x.user_id ≡ user_id → is_some x.revoked_at ≡ true)
        (token_of user_id) (revoke_at now) rows (λ x _ _ _. refl) (λ x _ k q. absurd (ground arith))
        (All-of_members (λ x. Unit {0}) rows (λ x _. tt))

  module _ (bcrypt : Bcrypt) where
    -- After a change of password that succeeded, a refresh with any stored token of that user is
    -- refused as revoked and changes nothing.
    pub change_password_revokes :
        (user_id : ℕ) (old_password new_password : Text) (env later : Env) (s : State kv.Store)
        (token : ℕ) (r : RefreshToken) (u : User)
        → (change_password db kv config bcrypt user_id old_password new_password env s).0 ≡ ok tt
        → db.find_first
            (has_token token)
            (change_password db kv config bcrypt user_id old_password new_password env s).1.tokens
          ≡ some r
        → db.find_first
            (has_user_id user_id)
            (change_password db kv config bcrypt user_id old_password new_password env s).1.users
          ≡ some u
        → r.user_id ≡ user_id
        → refresh_tokens db kv config token later
            (change_password db kv config bcrypt user_id old_password new_password env s).1
          ≡ (
            err unauthorized token_revoked,
            (change_password db kv config bcrypt user_id old_password new_password env s).1,
          )
    change_password_revokes user_id old_password new_password env later s token r u h e f own =
        refused user_id token later
          (change_password db kv config bcrypt user_id old_password new_password env s).1 r u
          (rw written (revoked_everywhere user_id env.now s.tokens)) e f own
      where
        written :
            (change_password db kv config bcrypt user_id old_password new_password env s).1.tokens
            ≡ update_where (token_of user_id) (revoke_at env.now) s.tokens
        written =
            unfold change_password in
            ground (arith, db.update_many_lem (token_of user_id) (revoke_at env.now) s.tokens)

    -- After a reset of password that succeeded, a refresh with any stored token of the user with
    -- that email is refused as revoked and changes nothing.
    pub reset_password_revokes :
        (email otp new_password : Text) (env later : Env) (s : State kv.Store) (token : ℕ)
        (r : RefreshToken) (u : User)
        → (reset_password db kv config bcrypt email otp new_password env s).0 ≡ ok tt
        → db.find_first
            (has_email (normalize email))
            (reset_password db kv config bcrypt email otp new_password env s).1.users
          ≡ some u
        → db.find_first
            (has_token token)
            (reset_password db kv config bcrypt email otp new_password env s).1.tokens
          ≡ some r
        → db.find_first
            (has_user_id u.id)
            (reset_password db kv config bcrypt email otp new_password env s).1.users
          ≡ some u
        → r.user_id ≡ u.id
        → refresh_tokens db kv config token later
            (reset_password db kv config bcrypt email otp new_password env s).1
          ≡ (
            err unauthorized token_revoked,
            (reset_password db kv config bcrypt email otp new_password env s).1,
          )
    reset_password_revokes email otp new_password env later s token r u h g e f own =
        refused u.id token later (reset_password db kv config bcrypt email otp new_password env s).1
          r u (rw written (revoked_everywhere u.id env.now s.tokens)) e f own
      where
        written :
            (reset_password db kv config bcrypt email otp new_password env s).1.tokens
            ≡ update_where (token_of u.id) (revoke_at env.now) s.tokens
        written =
            unfold reset_password in
            unfold check_lockout in
            unfold clear_failures in
            let fail = Result-cases (record_failure db kv config (normalize email) env.now s).0 in
            ground (arith, db.update_many_lem (token_of u.id) (revoke_at env.now) s.tokens)

  -- Where tokens are unique, a refresh that succeeds gives the same result where the cleanup of
  -- expired tokens has run at an earlier time or at the same time.
  pub cleanup_expired_tokens_keeps :
      (now token : ℕ) (env : Env) (s : State kv.Store) (t : Tokens)
      → Distinct (λ (x : RefreshToken). x.token) s.tokens
      → now ≤ env.now
      → (refresh_tokens db kv config token env s).0 ≡ ok t
      → (refresh_tokens db kv config token env (cleanup_expired_tokens db kv config now s).1).0
        ≡ ok t
  cleanup_expired_tokens_keeps now token env s t uniq le h =
      let (r, u, e, f, live_, fresh, free, out, _) = refresh_tokens_effect token env s t h in
      let kept =
        find_first-delete_many db (λ x. x.token) token (is_expired now) s.tokens r uniq e
          (ground arith) in
      unfold refresh_tokens in
      unfold cleanup_expired_tokens in unfold generate_tokens in ground arith
