-- ===== src/Auth/Google.antt =====
-- Whom the login with Google of src/auth/auth.service.ts lets in.
use gbi_backend.Base.{
  ℕ, ◌≡◌, ◌≢◌, refl, ap, not, ◌&&◌, is_some, All, All-imp, ◌==◌, ◌∙◌, ◌⊎◌, ◌↔◌, inl, inr, Bool,
  true, false, none, some, List, All-member, Distinct, Distinct-eq, Option-cases, Bool-cases, arith,
}
use gbi_backend.Http.{ok, err}
use gbi_backend.Schema.{User}
use gbi_backend.Prisma.{Prisma}
use gbi_backend.Redis.{Redis}
use gbi_backend.Auth.{
  Bcrypt, Config, Env, State, Tokens, has_email, has_user_id, update_user, generate_tokens,
}
use gbi_backend.Auth.Profile.{GoogleProfile, is_unlinked, google_user, has_google_id, google_login}

abbrev id_of : User → ℕ
id_of u = u.id

module _ (db : Prisma) (kv : Redis) (config : Config) (bcrypt : Bcrypt) where
  -- A user who was found by another column is found by its id.
  find_first-id :
      (q : User → Bool) (users : List User) (u : User)
      → Distinct id_of users
      → db.find_first q users ≡ some u
      → db.find_first (has_user_id u.id) users ≡ some u
  find_first-id q users u d e =
      let (_, m) = db.find_first_found q users u e in
      elim (Option-cases (db.find_first (has_user_id u.id) users)) [
        | inl f ↦
            let miss : has_user_id u.id u ≡ false =
              All-member (λ v. has_user_id u.id v ≡ false) users u
                (db.find_first_missing (has_user_id u.id) users f) m in
            absurd (ground arith)
        | inr (v, f) ↦
            let (own, n) = db.find_first_found (has_user_id u.id) users v f in
            f ∙ ap some (Distinct-eq id_of users v u d n m (ground arith))
      ]

  abbrev enter : GoogleProfile → Env → State kv.Store → gbi_backend.Http.Result Tokens
  enter p env s = (google_login db kv config bcrypt p env s).0

  -- No user has the Google account.
  abbrev pub IsFree : ℕ → List User → Type 0
  IsFree google_id users = All (λ u. u.google_id ≢ some google_id) users

  has_google_id_missing : (g : ℕ) (u : User) → has_google_id g u ≡ false → u.google_id ≢ some g
  has_google_id_missing g u h e = let k : (g == g) ≡ false = rw e at h in absurd (ground arith)

  has_google_id_found : (g : ℕ) (u : User) → has_google_id g u ≡ true → u.google_id ≡ some g
  has_google_id_found g u h = elim (Option-cases u.google_id) [
    | inl e ↦ absurd (ground arith)
    | inr (x, e) ↦ let k : (x == g) ≡ true = rw e at h in e ∙ ap some (ground arith)
  ]

  find_first-IsFree :
      (g : ℕ) (users : List User) → db.find_first (has_google_id g) users ≡ none → IsFree g users
  find_first-IsFree g users e =
      All-imp (λ u. has_google_id g u ≡ false) (λ u. u.google_id ≢ some g) users
        (λ u h. has_google_id_missing g u h) (db.find_first_missing (has_google_id g) users e)

  IsFree-find_first :
      (g : ℕ) (users : List User) → IsFree g users → db.find_first (has_google_id g) users ≡ none
  IsFree-find_first g users h = elim (Option-cases (db.find_first (has_google_id g) users)) [
    | inl e ↦ e
    | inr (u, e) ↦
        let (own, m) = db.find_first_found (has_google_id g) users u e in
        absurd (All-member (λ v. v.google_id ≢ some g) users u h m (has_google_id_found g u own))
  ]

  -- The conditions of a login: no user with the address and none with the Google account, or a
  -- user with the address who is not restricted, and either has a Google account or can be given
  -- this one.
  abbrev pub IsWelcome : GoogleProfile → List User → Type 0
  IsWelcome p users =
      ((db.find_first (has_email p.email) users ≡ none) × IsFree p.google_id users)
      ⊎ ((u : User) × (db.find_first (has_email p.email) users ≡ some u)
          × (u.is_restricted ≡ false)
          × ((u.google_id ≢ none) ⊎ IsFree p.google_id users))

  -- Where user ids are unique, a login with Google returns tokens exactly where no user has the
  -- address, letter for letter, and none has the Google account, or where the user who is found
  -- is not restricted, and has a Google account already or no user has this one.
  pub google_login_iff :
      (p : GoogleProfile) (env : Env) (s : State kv.Store)
      → Distinct id_of s.users
      → ((t : Tokens) × (enter p env s ≡ ok t)) ↔ IsWelcome p s.users
  unfolding google_login generate_tokens update_user
  google_login_iff p env s d = (there, back)
    where
      token : User → Tokens
      token u = record {
        sub = u.id;
        email = u.email;
        refresh_token = env.token;
        is_persistent = true;
      }

      there : (t : Tokens) × (enter p env s ≡ ok t) → IsWelcome p s.users
      there (t, h) = elim (Option-cases (db.find_first (has_email p.email) s.users)) [
        | inl e ↦ elim (Option-cases (db.find_first (has_google_id p.google_id) s.users)) [
          | inl k ↦ inl (e, find_first-IsFree p.google_id s.users k)
          | inr (v, k) ↦ absurd (ground arith)
        ]
        | inr (u, e) ↦
            let f = find_first-id (has_email p.email) s.users u d e in
            elim (Option-cases u.google_id) [
              | inr (g, q) ↦ elim (Bool-cases (is_unlinked p u)) [
                | inl l ↦ inr (u, e, ground arith, inl (λ z. absurd (ground arith)))
                | inr l ↦ inr (u, e, ground arith, inl (λ z. absurd (ground arith)))
              ]
              | inl q ↦ elim (Option-cases (db.find_first (has_google_id p.google_id) s.users)) [
                | inl k ↦ inr (u, e, ground arith, inr (find_first-IsFree p.google_id s.users k))
                | inr (v, k) ↦ absurd (ground arith)
              ]
            ]
      ]

      welcomed :
          (u : User)
          → db.find_first (has_email p.email) s.users ≡ some u
          → u.is_restricted ≡ false
          → (not (is_some u.google_id)
              && is_some (db.find_first (has_google_id p.google_id) s.users))
            ≡ false
          → enter p env s ≡ ok (token u)
      welcomed u e r k =
          let f = find_first-id (has_email p.email) s.users u d e in
          elim (Bool-cases (is_unlinked p u)) [ inl l ↦ ground arith | inr l ↦ ground arith ]

      back : IsWelcome p s.users → (t : Tokens) × (enter p env s ≡ ok t)
      back (inl (e, free)) =
          let k = IsFree-find_first p.google_id s.users free in
          (token (google_user env.uuid p), ground arith)
      back (inr (u, e, r, inl own)) = (
        token u,
        welcomed u e r
            (elim (Option-cases u.google_id) [ inl q ↦ absurd (own q) | inr (g, q) ↦ rw q refl ]),
      )
      back (inr (u, e, r, inr free)) =
          let k = IsFree-find_first p.google_id s.users free in
          (token u, welcomed u e r (ground arith))
