-- ===== src/Admin/Restrict.antt =====
-- What the restriction of a user in src/module/admin/admin.service.ts closes.
use gbi_backend.Base.{
  ℕ, ◌≡◌, ◌≢◌, refl, Memᴰ, inl, inr, Bool, true, false, Option, none, some, Text, All, All-member,
  All-update_where, All-remove_where_kept, All-of_members, Option-cases, Bool-cases, arith,
}
use gbi_backend.Base.Normal.{normalize}
use gbi_backend.Http.{Result, Result-cases, ok, err}
use gbi_backend.Schema.{User, RefreshToken}
use gbi_backend.Prisma.{Prisma}
use gbi_backend.Redis.{Redis}
use gbi_backend.Auth.{
  Config, Env, Bcrypt, Tokens, has_user_id, has_email, token_of, record_failure, clear_failures,
  check_lockout, generate_tokens, update_user,
}
use gbi_backend.Auth.Sessions.{refresh_tokens_effect}
use gbi_backend.Admin.{State, restricted, restrict_user, unrestrict_user, impersonate_user}

-- The ways to a token of a user: a login, a refresh, and the impersonation by an admin
pub data Door : Type 0 where
  by_login : (email password : Text) → Bool → Env → Door
  by_refresh : ℕ → Env → Door
  by_admin : (admin_id target : ℕ) → Door

abbrev pub sub_of : Result Tokens → Option ℕ
sub_of (ok t) = some t.sub
sub_of (err code why) = none

module _ (db : Prisma) (kv : Redis) (config : Config) (bcrypt : Bcrypt) where
  -- The user that the token is for, if one is given
  unfoldable pub enter : Door → State kv.Store → Option ℕ
  enter (by_login email password remember_me env) s =
      sub_of
        (gbi_backend.Auth.login db kv config bcrypt email password remember_me env s.accounts).0
  enter (by_refresh token env) s =
      sub_of (gbi_backend.Auth.refresh_tokens db kv config token env s.accounts).0
  enter (by_admin admin_id target) s = elim (impersonate_user db kv config admin_id target s).0 [
    | ok t ↦ some t.sub
    | err code why ↦ none
  ]

  -- A login is for a user in the table who is not restricted.
  login_subject :
      (email password : Text) (remember_me : Bool) (env : Env) (a : gbi_backend.Auth.State kv.Store)
      (id : ℕ)
      → sub_of (gbi_backend.Auth.login db kv config bcrypt email password remember_me env a).0
        ≡ some id
      → (u : User) × (db.find_first (has_email (normalize email)) a.users ≡ some u)
        × (u.is_restricted ≡ false)
        × (u.id ≡ id)
  unfolding gbi_backend.Auth.login check_lockout clear_failures generate_tokens
  login_subject email password remember_me env a id h =
      let fail = Result-cases (record_failure db kv config (normalize email) env.now a).0 in
      elim (Option-cases (db.find_first (has_email (normalize email)) a.users)) [
        | inl e ↦ absurd (ground arith)
        | inr (u, e) ↦ elim (Option-cases u.password_hash) [
          | inl f ↦ absurd (ground arith)
          | inr (hash, f) ↦ (u, e, ground arith, ground arith)
        ]
      ]

  refresh_subject :
      (token : ℕ) (env : Env) (a : gbi_backend.Auth.State kv.Store) (id : ℕ)
      → sub_of (gbi_backend.Auth.refresh_tokens db kv config token env a).0 ≡ some id
      → (r : RefreshToken) × (u : User) × Memᴰ r a.tokens
        × Memᴰ u a.users
        × (r.user_id ≡ id)
        × (u.id ≡ id)
        × (u.is_restricted ≡ false)
  refresh_subject token env a id h =
      elim (Result-cases (gbi_backend.Auth.refresh_tokens db kv config token env a).0) [
        | inr (code, why, q) ↦ absurd (ground arith)
        | inl (t, q) ↦
            let (r, u, e, f, _, _, open_, sub, _) =
              refresh_tokens_effect db kv config token env a t q in
            let (own, m) = db.find_first_found (has_user_id r.user_id) a.users u f in
            let (_, n) = db.find_first_found _ a.tokens r e in
            (r, u, n, m, ground arith, ground arith, open_)
      ]

  -- Every row of the user is restricted.
  abbrev pub IsClosed : ℕ → User → Type 0
  IsClosed user_id u = u.id ≡ user_id → u.is_restricted ≡ true

  -- No token of the user is stored.
  abbrev pub IsForeign : ℕ → RefreshToken → Type 0
  IsForeign user_id r = token_of user_id r ≡ false

  restrict_user_effect :
      (user_id : ℕ) (s : State kv.Store)
      → (restrict_user db kv config user_id s).0 ≡ ok tt
      → All (IsClosed user_id) (restrict_user db kv config user_id s).1.accounts.users
        × All (IsForeign user_id) (restrict_user db kv config user_id s).1.accounts.tokens
  unfolding restrict_user update_user
  restrict_user_effect user_id s h =
      elim (Option-cases (db.find_first (has_user_id user_id) s.accounts.users)) [
        | inl e ↦ absurd (ground arith)
        | inr (u, e) ↦
            let users : (restrict_user db kv config user_id s).1.accounts.users
                ≡ db.update_many (has_user_id user_id) (restricted true) s.accounts.users =
              ground arith in
            let tokens : (restrict_user db kv config user_id s).1.accounts.tokens
                ≡ db.delete_many (token_of user_id) s.accounts.tokens =
              ground arith in
            rw
              (
                users,
                tokens,
                db.update_many_lem (has_user_id user_id) (restricted true) s.accounts.users,
                db.delete_many_lem (token_of user_id) s.accounts.tokens,
              )
              (
                All-update_where (λ u. Unit {0}) (IsClosed user_id) (has_user_id user_id)
                    (restricted true) s.accounts.users (λ u t k q. refl)
                    (λ u t k q. absurd (ground arith))
                    (All-of_members (λ u. Unit {0}) s.accounts.users (λ u m. tt)),
                All-remove_where_kept (λ r. Unit {0}) (IsForeign user_id) (token_of user_id)
                    s.accounts.tokens (λ r t k. k)
                    (All-of_members (λ r. Unit {0}) s.accounts.tokens (λ r m. tt)),
              )
      ]

  unrestrict_user-tokens :
      (user_id : ℕ) (s : State kv.Store)
      → (unrestrict_user db kv config user_id s).1.accounts.tokens ≡ s.accounts.tokens
  unfolding unrestrict_user update_user
  unrestrict_user-tokens user_id s =
      elim (Option-cases (db.find_first (has_user_id user_id) s.accounts.users)) [
        | inl e ↦ ground arith
        | inr (u, e) ↦ ground arith
      ]

  -- Where all rows of a user are restricted, no door opens for it.
  closed_enter :
      (door : Door) (user_id : ℕ) (s : State kv.Store)
      → All (IsClosed user_id) s.accounts.users
      → enter door s ≢ some user_id
  unfolding enter impersonate_user
  closed_enter (by_login email password remember_me env) user_id s c h =
      let (u, e, r, i) = login_subject email password remember_me env s.accounts user_id h in
      let (_, m) = db.find_first_found _ s.accounts.users u e in
      let k : u.is_restricted ≡ true = All-member (IsClosed user_id) s.accounts.users u c m i in
      ground arith
  closed_enter (by_refresh token env) user_id s c h =
      let (r, u, n, m, o, i, open_) = refresh_subject token env s.accounts user_id h in
      let k : u.is_restricted ≡ true = All-member (IsClosed user_id) s.accounts.users u c m i in
      ground arith
  closed_enter (by_admin admin_id target) user_id s c h =
      elim (Option-cases (db.find_first (has_user_id target) s.accounts.users)) [
        | inl e ↦ ground (arith, e)
        | inr (u, e) ↦ elim (Bool-cases u.is_restricted) [
          | inl r ↦ ground (arith, e)
          | inr r ↦
              let (_, m) = db.find_first_found _ s.accounts.users u e in
              let i : u.id ≡ user_id = ground (arith, e) in
              let k : u.is_restricted ≡ true =
                All-member (IsClosed user_id) s.accounts.users u c m i in
              ground arith
        ]
      ]

  foreign_refresh :
      (token : ℕ) (env : Env) (user_id : ℕ) (s : State kv.Store)
      → All (IsForeign user_id) s.accounts.tokens
      → enter (by_refresh token env) s ≢ some user_id
  unfolding enter
  foreign_refresh token env user_id s c h =
      let (r, u, n, m, o, i, open_) = refresh_subject token env s.accounts user_id h in
      let k : token_of user_id r ≡ false = All-member (IsForeign user_id) s.accounts.tokens r c n in
      ground arith

  -- After a restriction of a user that succeeded, no login, refresh or impersonation gives a
  -- token for that user; and once the restriction is lifted, still no refresh does.
  pub restrict_user_shuts :
      (door : Door) (token : ℕ) (env : Env) (user_id : ℕ) (s : State kv.Store)
      → (restrict_user db kv config user_id s).0 ≡ ok tt
      → (enter door (restrict_user db kv config user_id s).1 ≢ some user_id)
        × (enter
              (by_refresh token env)
              (unrestrict_user db kv config user_id (restrict_user db kv config user_id s).1).1
            ≢ some user_id)
  restrict_user_shuts door token env user_id s h =
      let (closed, foreign) = restrict_user_effect user_id s h in
      (
        closed_enter door user_id (restrict_user db kv config user_id s).1 closed,
        foreign_refresh token env user_id
            (unrestrict_user db kv config user_id (restrict_user db kv config user_id s).1).1
            (rw (unrestrict_user-tokens user_id (restrict_user db kv config user_id s).1) foreign),
      )
