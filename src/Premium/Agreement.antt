-- ===== src/Premium/Agreement.antt =====
-- The users' rows and the ACTIVE subscriptions agree (src/module/premium/premium.repository.ts).
use gbi_backend.Base.{
  ℕ, ◌≡◌, refl, ap, ◌∙◌, true, false, some, List, [], ◌∷◌, ◌++◌, All, All-imp, All-and,
  All-append_one, All-of_members, All-update_where, Distinct, arith, update_where,
}
use gbi_backend.Schema.{User, Actor, PremiumSubscription}
use gbi_backend.Prisma.{Prisma}
use gbi_backend.Prisma.Unique.{All-found}
use gbi_backend.Premium.{
  has_id, active_of, is_overdue, id_in, new_subscription, activated, renewed, revoked_at, lapsed,
  extended, revoked_sub,
}
use gbi_backend.Premium.Expiry.{lapses, lapsed_sub, lapse_subs, overdue_ids, id_in-overdue}

-- Every ACTIVE subscription of the user belongs to a premium user and ends with the membership.
abbrev pub Matches : User → PremiumSubscription → Type 0
Matches u s =
    active_of u.id s ≡ true → (u.is_premium ≡ true) × (u.premium_expiry ≡ some s.expiry_date)

abbrev pub Agrees : List PremiumSubscription → User → Type 0
Agrees subs u = All (Matches u) subs

module _ (db : Prisma) (user_id : ℕ) (users : List User) (subs : List PremiumSubscription) where
  pub agree_activated :
      (by : Actor) (activation expiry uuid : ℕ) (u : User)
      → Distinct (λ (w : User). w.id) users
      → db.find_first (has_id user_id) users ≡ some u
      → u.is_premium ≡ false
      → All (Agrees subs) users
      → All
          (Agrees (subs ++ new_subscription user_id by activation expiry uuid ∷ []))
          (update_where (has_id user_id) (activated expiry) users)
  agree_activated by activation expiry uuid u uniq e p h =
      All-update_where (λ w. Agrees subs w × (w.id ≡ user_id → w ≡ u)) (Agrees (subs ++ s ∷ []))
        (has_id user_id) (activated expiry) users
        (λ w c k.
          All-append_one (Matches (activated expiry w)) subs s
            (All-imp (Matches w) (Matches (activated expiry w)) subs
              (λ t m hit. absurd (unpaid w (c.1 (ground arith)) (m hit).0)) c.0)
            (λ _. (refl, refl)))
        (λ w c k. All-append_one (Matches w) subs s c.0 (λ hit. ground arith))
        (All-and (Agrees subs) (λ w. w.id ≡ user_id → w ≡ u) users h
          (All-found db (λ w. w.id) user_id users u uniq e))
    where
      s : PremiumSubscription
      s = new_subscription user_id by activation expiry uuid

      unpaid : (w : User) → w ≡ u → w.is_premium ≡ true → ⊥
      unpaid w same q =
          let r : w.is_premium ≡ u.is_premium = ap (λ (v : User). v.is_premium) same in cc

  pub agree_renewed :
      (expiry : ℕ)
      → All (Agrees subs) users
      → All
          (Agrees (update_where (active_of user_id) (extended expiry) subs))
          (update_where (has_id user_id) (renewed expiry) users)
  agree_renewed expiry h =
      All-update_where (Agrees subs)
        (Agrees (update_where (active_of user_id) (extended expiry) subs)) (has_id user_id)
        (renewed expiry) users
        (λ w c k.
          All-update_where (Matches w) (Matches (renewed expiry w)) (active_of user_id)
            (extended expiry) subs (λ s m e hit. ((m hit).0, refl))
            (λ s m e hit. absurd (ground arith)) c)
        (λ w c k.
          All-update_where (Matches w) (Matches w) (active_of user_id) (extended expiry) subs
            (λ s m e hit. absurd (ground arith)) (λ s m e. m) c)
        h

  pub agree_revoked :
      (by : Actor) (reason : List ℕ) (now : ℕ)
      → All (Agrees subs) users
      → All
          (Agrees (update_where (active_of user_id) (revoked_sub by reason now) subs))
          (update_where (has_id user_id) (revoked_at now) users)
  agree_revoked by reason now h =
      All-update_where (Agrees subs)
        (Agrees (update_where (active_of user_id) (revoked_sub by reason now) subs))
        (has_id user_id) (revoked_at now) users
        (λ w c k.
          All-update_where (Matches w) (Matches (revoked_at now w)) (active_of user_id)
            (revoked_sub by reason now) subs (λ s m e hit. absurd (ground arith))
            (λ s m e hit. absurd (ground arith)) c)
        (λ w c k.
          All-update_where (Matches w) (Matches w) (active_of user_id) (revoked_sub by reason now)
            subs (λ s m e hit. absurd (ground arith)) (λ s m e. m) c)
        h

module _ (db : Prisma) (now : ℕ) (users : List User) (subs : List PremiumSubscription) where
  -- A membership that lapses takes its subscriptions along, since their expiry is the membership's.
  pub agree_expired :
      Distinct (λ (w : User). w.id) users
      → All (Agrees subs) users
      → All
          (Agrees (lapse_subs (overdue_ids db now users) now subs))
          (update_where (is_overdue now) lapsed users)
  agree_expired uniq h =
      All-update_where
        (λ w. Agrees subs w × (id_in (overdue_ids db now users) w.id ≡ is_overdue now w))
        (Agrees (lapse_subs (overdue_ids db now users) now subs)) (is_overdue now) lapsed users
        (λ w c k.
          All-update_where (Matches w) (Matches (lapsed w)) (lapses (overdue_ids db now users) now)
            lapsed_sub subs (λ s m e hit. absurd (ground arith))
            (λ s m e hit. absurd (late w s (c.1 ∙ k) k m e hit)) c.0)
        (λ w c k.
          All-update_where (Matches w) (Matches w) (lapses (overdue_ids db now users) now)
            lapsed_sub subs (λ s m e hit. absurd (ground arith)) (λ s m e. m) c.0)
        (All-and (Agrees subs) (λ w. id_in (overdue_ids db now users) w.id ≡ is_overdue now w) users
          h
          (All-of_members (λ w. id_in (overdue_ids db now users) w.id ≡ is_overdue now w) users
            (λ w m. id_in-overdue db now users w uniq m)))
    where
      late :
          (w : User) (s : PremiumSubscription)
          → id_in (overdue_ids db now users) w.id ≡ true
          → is_overdue now w ≡ true
          → Matches w s
          → lapses (overdue_ids db now users) now s ≡ false
          → active_of w.id s ≡ true
          → ⊥
      late w s a b m e hit = ground (arith, m hit)
