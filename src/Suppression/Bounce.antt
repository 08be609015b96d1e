-- ===== src/Suppression/Bounce.antt =====
-- What a bounce or a complaint in src/notifications/notifications.controller.ts closes.
use gbi_backend.Base.{
  ◌≡◌, ◌≢◌, refl, sym, subst, inl, inr, Bool, true, false, Option, none, some, List, [], ◌∷◌, ◌++◌,
  Text, text_eq, text_eq_refl, All, All-member, All-update_where, All-of_members, Memᴰ, Bool-cases,
  arith, if◌then◌else◌,
}
use gbi_backend.Base.Normal.{normalize}
use gbi_backend.Http.{ok}
use gbi_backend.Schema.{User}
use gbi_backend.Prisma.{Prisma}
use gbi_backend.Redis.{Redis}
use gbi_backend.Auth.{Config, Env, Bcrypt, Tokens, has_email, is_empty, login}
use gbi_backend.Auth.Sound.{login_iff, IsAdmitted}
use gbi_backend.Admin.{norm}
use gbi_backend.Suppression.{
  State, bounce, notification, is_suppressed, add_suppressed, unverified, suppress, suppress_one,
  suppress_all, handle_sns_webhook,
}

-- No user with the address has it verified.
abbrev pub IsUnverified : Text → User → Type 0
IsUnverified address u = has_email address u ≡ true → u.email_verified ≡ false

is_suppressed-append :
    (email x : Text) (set : List Text)
    → is_suppressed email (set ++ x ∷ [])
      ≡ (if is_suppressed email set then true else text_eq x email)
is_suppressed-append email x [] = elim (Bool-cases (text_eq x email)) [
  | inl e ↦ ground arith
  | inr e ↦ ground arith
]
is_suppressed-append email x (y ∷ set) =
    let more = is_suppressed-append email x set in
    elim (Bool-cases (text_eq y email)) [ inl e ↦ ground arith | inr e ↦ ground arith ]

add_suppressed_kept :
    (email x : Text) (set : List Text)
    → is_suppressed email set ≡ true
    → is_suppressed email (add_suppressed x set) ≡ true
add_suppressed_kept email x set h =
    let a = is_suppressed-append email x set in
    elim (Bool-cases (is_suppressed x set)) [ inl e ↦ ground arith | inr e ↦ ground arith ]

add_suppressed_there :
    (email : Text) (set : List Text) → is_suppressed email (add_suppressed email set) ≡ true
add_suppressed_there email set =
    let a = is_suppressed-append email email set in
    let same = text_eq_refl email in
    elim (Bool-cases (is_suppressed email set)) [ inl e ↦ ground arith | inr e ↦ ground arith ]

module _ (db : Prisma) (kv : Redis) where
  abbrev pub IsShut : Text → State kv.Store → Type 0
  IsShut address s =
      All (IsUnverified address) s.accounts.users × (is_suppressed address s.suppressed ≡ true)

  suppress-IsShut :
      (email : Text) (s : State kv.Store) → IsShut (norm email) (suppress db kv email s)
  unfolding suppress
  suppress-IsShut email s = (
    rw (db.update_many_lem (has_email (norm email)) unverified s.accounts.users) (
        All-update_where (λ u. Unit {0}) (IsUnverified (norm email)) (has_email (norm email))
          unverified s.accounts.users (λ u t k q. refl) (λ u t k q. absurd (ground arith))
          (All-of_members (λ u. Unit {0}) s.accounts.users (λ u m. tt))),
    add_suppressed_there (norm email) s.suppressed,
  )

  suppress-IsShut_kept :
      (address email : Text) (s : State kv.Store)
      → IsShut address s
      → IsShut address (suppress db kv email s)
  unfolding suppress
  suppress-IsShut_kept address email s (h, k) = (
    rw (db.update_many_lem (has_email (norm email)) unverified s.accounts.users) (
        All-update_where (IsUnverified address) (IsUnverified address) (has_email (norm email))
          unverified s.accounts.users (λ u t i q. refl) (λ u t i q. t q) h),
    add_suppressed_kept address (norm email) s.suppressed k,
  )

  suppress_one-IsShut :
      (email : Text) (s : State kv.Store)
      → is_empty email ≡ false
      → IsShut (norm email) (suppress_one db kv (some email) s)
  suppress_one-IsShut email s f =
      let q : suppress_one db kv (some email) s ≡ suppress db kv email s =
        unfold suppress_one in ground arith in
      subst (IsShut (norm email)) (sym q) (suppress-IsShut email s)

  suppress_one-IsShut_kept :
      (address : Text) (recipient : Option Text) (s : State kv.Store)
      → IsShut address s
      → IsShut address (suppress_one db kv recipient s)
  unfolding suppress_one
  suppress_one-IsShut_kept address none s h = h
  suppress_one-IsShut_kept address (some email) s h = elim (Bool-cases (is_empty email)) [
    | inl e ↦
        let q : (if is_empty email then s else suppress db kv email s) ≡ s = ground arith in
        subst (IsShut address) (sym q) h
    | inr e ↦
        let q : (if is_empty email then s else suppress db kv email s) ≡ suppress db kv email s =
          ground arith in
        subst (IsShut address) (sym q) (suppress-IsShut_kept address email s h)
  ]

  suppress_all-IsShut_kept :
      (address : Text) (recipients : List (Option Text)) (s : State kv.Store)
      → IsShut address s
      → IsShut address (suppress_all db kv recipients s)
  unfolding suppress_all
  suppress_all-IsShut_kept address [] s h = h
  suppress_all-IsShut_kept address (r ∷ rest) s h =
      suppress_all-IsShut_kept address rest (suppress_one db kv r s)
        (suppress_one-IsShut_kept address r s h)

  suppress_all-IsShut :
      (email : Text) (recipients : List (Option Text)) (s : State kv.Store)
      → Memᴰ (some email) recipients
      → is_empty email ≡ false
      → IsShut (norm email) (suppress_all db kv recipients s)
  unfolding suppress_all
  suppress_all-IsShut email [] s m f = elim m [ ]
  suppress_all-IsShut email (x ∷ rest) s (Memᴰ.head e) f =
      suppress_all-IsShut_kept (norm email) rest (suppress_one db kv x s) (
        subst (λ r. IsShut (norm email) (suppress_one db kv r s)) e (suppress_one-IsShut email s f))
  suppress_all-IsShut email (x ∷ rest) s (Memᴰ.tail m) f =
      suppress_all-IsShut email rest (suppress_one db kv x s) m f

  refused :
      (config : Config) (bcrypt : Bcrypt) (email typed password : Text) (remember_me : Bool)
      (env : Env) (s : State kv.Store)
      → All (IsUnverified (norm email)) s.accounts.users
      → normalize typed ≡ norm email
      → IsAdmitted db kv config bcrypt typed password remember_me env s.accounts
      → ⊥
  unfolding IsAdmitted
  refused config bcrypt email typed password remember_me env s unver same
        (u, hash, l, e, f, r, c, v) =
      let (own, m) = db.find_first_found (has_email (normalize typed)) s.accounts.users u e in
      let k : u.email_verified ≡ false =
        All-member (IsUnverified (norm email)) s.accounts.users u unver m (rw (← same) own) in
      ground arith

  -- After a permanent bounce of an address that is not empty, the address is suppressed, and no
  -- login with it, in whichever letters, gives tokens.
  pub handle_sns_webhook-login :
      (config : Config) (bcrypt : Bcrypt) (email typed password : Text) (remember_me : Bool)
      (env : Env) (t : Tokens) (recipients : List (Option Text)) (s : State kv.Store)
      → Memᴰ (some email) recipients
      → is_empty email ≡ false
      → normalize typed ≡ norm email
      → (is_suppressed
            (norm email)
            (handle_sns_webhook db kv
              (some (notification (some (bounce true recipients))))
              s).1.suppressed
          ≡ true)
        × ((login db kv config bcrypt typed password remember_me env
              (handle_sns_webhook db kv
                (some (notification (some (bounce true recipients))))
                s).1.accounts).0
            ≢ ok t)
  unfolding handle_sns_webhook
  handle_sns_webhook-login config bcrypt email typed password remember_me env t recipients s m f
        same =
      let (unver, there) = suppress_all-IsShut email recipients s m f in
      (
        there,
        λ h.
            refused config bcrypt email typed password remember_me env
              (suppress_all db kv recipients s) unver same
              ((login_iff db kv config bcrypt typed password remember_me env
                  (suppress_all db kv recipients s).accounts).0
                (t, h)),
      )
