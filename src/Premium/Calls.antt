-- ===== src/Premium/Calls.antt =====
-- Sequences of calls of the premium service (src/module/premium/premium.service.ts).
use gbi_backend.Base.{
  ℕ, ◌≡◌, refl, inl, inr, List, [], ◌∷◌, All, Distinct, Distinct-update_where, Option-cases,
  Bool-cases, arith,
}
use gbi_backend.Http.{Action, pure, ◌>>◌, state-then_pure}
use gbi_backend.Schema.{User, admin}
use gbi_backend.Prisma.{Prisma}
use gbi_backend.Premium.{
  Tables, ActivatePremiumDto, RenewPremiumDto, RevokePremiumDto, has_id, id_in, active_of,
  activated, renewed, revoked_at, lapsed, new_subscription, extended, revoked_sub, activate_premium,
  renew_premium, revoke_premium, handle_expired_subscriptions,
}
use gbi_backend.Premium.Consistency.{
  IsConsistent, activate_premium-IsConsistent, renew_premium-IsConsistent,
  revoke_premium-IsConsistent, handle_expired-IsConsistent,
}
use gbi_backend.Premium.Expiry.{
  handle_expired-users, handle_expired-subs, handle_expired-exact, overdue_ids,
}
use gbi_backend.Premium.Agreement.{
  Agrees, agree_activated, agree_renewed, agree_revoked, agree_expired,
}

-- A call, with what the environment supplies to it.
pub data Call : Type 0 where
  activate : ActivatePremiumDto → (admin_id uuid : ℕ) → Call
  renew : RenewPremiumDto → (admin_id : ℕ) → Call
  revoke : RevokePremiumDto → (admin_id : ℕ) → Call
  expire : Call

abbrev HasDistinctIds : List User → Type 0
HasDistinctIds = Distinct (λ (u : User). u.id)

pub record Inv (d : Tables) : Type 0 where
  pub distinct : Distinct (λ (u : User). u.id) d.users
  pub consistent : All IsConsistent d.users
  pub agrees : All (Agrees d.subs) d.users

module _ (db : Prisma) where
  unfoldable pub run_call : Call → ℕ → Action Tables (Unit {0})
  run_call (activate dto admin_id uuid) now = activate_premium db dto admin_id uuid now >> pure tt
  run_call (renew dto admin_id) now = renew_premium db dto admin_id
  run_call (revoke dto admin_id) now = revoke_premium db dto admin_id now
  run_call expire now = handle_expired_subscriptions db now >> pure tt

  -- Calls at given times, one after the other.
  unfoldable pub run_calls : List (Call × ℕ) → Tables → Tables
  run_calls [] d = d
  run_calls ((c, now) ∷ cs) d = run_calls cs (run_call c now d).1

  distinct_after :
      (user_id : ℕ) (change : User → User) (t : List User)
      → ((u : User) → (change u).id ≡ u.id)
      → HasDistinctIds t
      → HasDistinctIds (db.update_many (has_id user_id) change t)
  distinct_after user_id change t keep h =
      rw (db.update_many_lem (has_id user_id) change t)
        (Distinct-update_where (λ (u : User). u.id) (has_id user_id) change t keep h)

  run_call-distinct :
      (c : Call) (now : ℕ) (d : Tables)
      → HasDistinctIds d.users
      → HasDistinctIds (run_call c now d).1.users
  unfolding run_call activate_premium renew_premium revoke_premium
  run_call-distinct (activate dto admin_id uuid) now d h =
      ground (arith, distinct_after dto.user_id (activated dto.expiry_date) d.users (λ u. refl) h)
  run_call-distinct (renew dto admin_id) now d h =
      ground (arith, distinct_after dto.user_id (renewed dto.new_expiry_date) d.users (λ u. refl) h)
  run_call-distinct (revoke dto admin_id) now d h =
      ground (arith, distinct_after dto.user_id (revoked_at now) d.users (λ u. refl) h)
  run_call-distinct expire now d h =
      rw (state-then_pure (handle_expired_subscriptions db now) d, handle_expired-users db now d)
        (Distinct-update_where (λ (u : User). u.id) (λ u. id_in (overdue_ids db now d.users) u.id)
          lapsed d.users (λ u. refl) h)

  run_call-IsConsistent :
      (c : Call) (now : ℕ) (d : Tables)
      → HasDistinctIds d.users
      → All IsConsistent d.users
      → All IsConsistent (run_call c now d).1.users
  unfolding run_call
  run_call-IsConsistent (activate dto admin_id uuid) now d u h =
      rw (state-then_pure (activate_premium db dto admin_id uuid now) d)
        (activate_premium-IsConsistent db dto admin_id uuid now d h)
  run_call-IsConsistent (renew dto admin_id) now d u h =
      renew_premium-IsConsistent db dto admin_id d u h
  run_call-IsConsistent (revoke dto admin_id) now d u h =
      revoke_premium-IsConsistent db dto admin_id now d h
  run_call-IsConsistent expire now d u h =
      rw (state-then_pure (handle_expired_subscriptions db now) d)
        (handle_expired-IsConsistent db now d h)

  run_call-Agrees :
      (c : Call) (now : ℕ) (d : Tables)
      → HasDistinctIds d.users
      → All (Agrees d.subs) d.users
      → All (Agrees (run_call c now d).1.subs) (run_call c now d).1.users
  unfolding run_call activate_premium renew_premium revoke_premium
  run_call-Agrees (activate dto admin_id uuid) now d uniq h =
      elim (Option-cases (db.find_first (has_id dto.user_id) d.users)) [
        | inl e ↦ ground arith
        | inr (u, e) ↦ elim (Bool-cases u.is_premium) [
          | inl p ↦ ground arith
          | inr p ↦ ground (
            arith,
            db.update_many_lem (has_id dto.user_id) (activated dto.expiry_date) d.users,
            db.create_lem
                (new_subscription dto.user_id (admin admin_id) dto.activation_date dto.expiry_date
                  uuid)
                d.subs,
            agree_activated db dto.user_id d.users d.subs (admin admin_id) dto.activation_date
                dto.expiry_date uuid u uniq e p h,
          )
        ]
      ]
  run_call-Agrees (renew dto admin_id) now d uniq h = ground (
    arith,
    db.update_many_lem (has_id dto.user_id) (renewed dto.new_expiry_date) d.users,
    db.update_many_lem (active_of dto.user_id) (extended dto.new_expiry_date) d.subs,
    agree_renewed db dto.user_id d.users d.subs dto.new_expiry_date h,
  )
  run_call-Agrees (revoke dto admin_id) now d uniq h = ground (
    arith,
    db.update_many_lem (has_id dto.user_id) (revoked_at now) d.users,
    db.update_many_lem (active_of dto.user_id) (revoked_sub (admin admin_id) dto.reason now) d.subs,
    agree_revoked db dto.user_id d.users d.subs (admin admin_id) dto.reason now h,
  )
  run_call-Agrees expire now d uniq h =
      rw
        (
          state-then_pure (handle_expired_subscriptions db now) d,
          handle_expired-subs db now d,
          handle_expired-exact db now d uniq,
        )
        (agree_expired db now d.users d.subs uniq h)

  run_call-Inv : (c : Call) (now : ℕ) (d : Tables) → Inv d → Inv (run_call c now d).1
  run_call-Inv c now d h = record {
    distinct = run_call-distinct c now d h.distinct;
    consistent = run_call-IsConsistent c now d h.distinct h.consistent;
    agrees = run_call-Agrees c now d h.distinct h.agrees;
  }

  -- After any sequence of activations, renewals, revocations and expiry runs, at any times, that
  -- starts from tables with these properties: user ids are unique; a user who is flagged premium
  -- has the status PREMIUM and an expiry date, and no other user has that status; and every
  -- ACTIVE subscription of a user belongs to a premium user and ends at that user's expiry date.
  pub run_calls-Inv : (cs : List (Call × ℕ)) (d : Tables) → Inv d → Inv (run_calls cs d)
  unfolding run_calls
  run_calls-Inv [] d h = h
  run_calls-Inv ((c, now) ∷ cs) d h = run_calls-Inv cs (run_call c now d).1 (run_call-Inv c now d h)
