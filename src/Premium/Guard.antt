-- ===== src/Premium/Guard.antt =====
-- The route guards src/auth/guards/premium.guard.ts and src/auth/guards/readonly.guard.ts. The
-- first argument is what the reflector finds for the route's decorator.
use gbi_backend.Base.{
  ℕ, ◌≤◌, ◌≡◌, refl, ◌≢◌, ◌↔◌, ◌⊎◌, inl, inr, Bool, true, false, not, Option, none, some, arith,
  Bool-cases, subst, is_some, if◌then◌else◌,
}
use gbi_backend.Http.{
  Result, ok, err, forbidden, authentication_required, premium_required, premium_expired,
  readonly_view,
}
use gbi_backend.Schema.{User}
use gbi_backend.Premium.{before}

-- `request.user`: the user's row with the claims of an impersonation token.
pub record RequestUser : Type 0 where
  pub user : User
  pub readonly : Bool
  pub impersonated_by : Option ℕ

unfoldable pub premium_can_activate : Bool → Option RequestUser → ℕ → Result (Unit {0})
premium_can_activate false user now = ok tt
premium_can_activate true none now = err forbidden authentication_required
premium_can_activate true (some r) now =
    if is_some r.impersonated_by
    then ok tt
    else if not r.user.is_premium
    then err forbidden premium_required
    else if before now r.user.premium_expiry
    then err forbidden premium_expired
    else ok tt

unfoldable pub readonly_can_activate : Bool → Option RequestUser → Result (Unit {0})
readonly_can_activate false user = ok tt
readonly_can_activate true none = ok tt
readonly_can_activate true (some r) = if r.readonly then err forbidden readonly_view else ok tt

-- The user is premium, and the expiry date, if there is one, has not passed.
abbrev pub IsCurrent : ℕ → User → Type 0
IsCurrent now u = (u.is_premium ≡ true) × ((t : ℕ) → u.premium_expiry ≡ some t → now ≤ t)

not_before_iff :
    (now : ℕ) (o : Option ℕ) → (before now o ≡ false) ↔ ((t : ℕ) → o ≡ some t → now ≤ t)
not_before_iff now none = (λ h t e. cc, λ h. refl)
not_before_iff now (some t) =
    (λ h u e. ground arith, λ h. let late : now ≤ t = h t refl in ground arith)

allowed :
    (r : RequestUser) (now : ℕ)
    → premium_can_activate true (some r) now ≡ ok tt
    → (r.impersonated_by ≢ none) ⊎ IsCurrent now r.user
unfolding premium_can_activate
allowed r now h = elim (Bool-cases (is_some r.impersonated_by)) [
  | inl e ↦ inl (λ n. ground arith)
  | inr e ↦ inr (ground arith, (not_before_iff now r.user.premium_expiry).0 (ground arith))
]

allows :
    (r : RequestUser) (now : ℕ)
    → (r.impersonated_by ≢ none) ⊎ IsCurrent now r.user
    → premium_can_activate true (some r) now ≡ ok tt
unfolding premium_can_activate
allows r now (inl other) = ground arith
allows r now (inr (paid, later)) =
    let e = (not_before_iff now r.user.premium_expiry).1 later in ground arith

-- A route that requires premium is open exactly to a request with a user who is either
-- impersonated by an admin, or premium with no expiry date that has passed.
pub premium_can_activate_iff :
    (user : Option RequestUser) (now : ℕ)
    → (premium_can_activate true user now ≡ ok tt)
      ↔ ((r : RequestUser) × (user ≡ some r) × ((r.impersonated_by ≢ none) ⊎ IsCurrent now r.user))
unfolding premium_can_activate
premium_can_activate_iff none now = (λ h. cc, λ (r, e, _). cc)
premium_can_activate_iff (some r) now = (
  λ h. (r, refl, allowed r now h),
  λ (q, e, open_to).
      let same : q ≡ r = cc in
      allows r now (
        subst (λ (v : RequestUser). (v.impersonated_by ≢ none) ⊎ IsCurrent now v.user) same
          open_to),
)
