-- ===== src/Premium/Expiry.antt =====
-- The nightly expiry job (src/module/premium/premium.repository.ts, expireOverdueSubscriptions).
use gbi_backend.Base.{
  ℕ, ◌≡◌, refl, sym, ap, inl, inr, Bool, true, false, ◌&&◌, List, [], ◌∷◌, Memᴰ, All,
  All-of_members, All-update_where, Distinct, Distinct-eq, Bool-cases, arith, ◌==◌, ltb, length,
  update_where, update_where_cong, Option-cases, none, some, update_where_none, eq-nil_of_length,
  ◌∙◌,
}
use gbi_backend.Schema.{SubStatus, PremiumStatus, User, PremiumSubscription}
use gbi_backend.Prisma.{Prisma}
use gbi_backend.Premium.{
  Tables, is_active, is_overdue, id_in, ids, lapsed, handle_expired_subscriptions,
}

owner_of_id : (l : List User) (i : ℕ) → id_in (ids l) i ≡ true → (u : User) × Memᴰ u l × (u.id ≡ i)
owner_of_id [] i h = cc
owner_of_id (x ∷ xs) i h = elim (Bool-cases (x.id == i)) [
  | inl e ↦ (x, Memᴰ.head refl, ground arith)
  | inr e ↦ let (u, m, same) = owner_of_id xs i (rw e at h) in (u, Memᴰ.tail m, same)
]

id_in_of_member : (l : List User) (u : User) → Memᴰ u l → id_in (ids l) u.id ≡ true
id_in_of_member [] u m = elim m [ ]
id_in_of_member (x ∷ xs) u (Memᴰ.head e) =
    let same : u.id ≡ x.id = ap (λ (w : User). w.id) e in ground arith
id_in_of_member (x ∷ xs) u (Memᴰ.tail m) = ground (arith, id_in_of_member xs u m)

-- The job's changes, over the ids that it collected.
abbrev pub lapses : List ℕ → ℕ → PremiumSubscription → Bool
lapses who now s = id_in who s.user_id && is_active s.status && ltb s.expiry_date now

abbrev pub lapsed_sub : PremiumSubscription → PremiumSubscription
lapsed_sub s = record s { status = SubStatus.expired }

abbrev pub lapse_subs : List ℕ → ℕ → List PremiumSubscription → List PremiumSubscription
lapse_subs who now = update_where (lapses who now) lapsed_sub

module _ (db : Prisma) (now : ℕ) where
  abbrev pub overdue_ids : List User → List ℕ
  overdue_ids t = ids (db.find_many (is_overdue now) t)

  pub handle_expired-users :
      (d : Tables)
      → (handle_expired_subscriptions db now d).1.users
        ≡ update_where (λ u. id_in (overdue_ids d.users) u.id) lapsed d.users
  unfolding handle_expired_subscriptions
  handle_expired-users d = elim (Bool-cases (length (db.find_many (is_overdue now) d.users) == 0)) [
    | inl e ↦
        rw (e, eq-nil_of_length (db.find_many (is_overdue now) d.users) (ground arith))
          (sym (update_where_none (λ u. false) lapsed d.users (λ u. refl)))
    | inr e ↦ rw e (db.update_many_lem (λ u. id_in (overdue_ids d.users) u.id) lapsed d.users)
  ]

  pub handle_expired-subs :
      (d : Tables)
      → (handle_expired_subscriptions db now d).1.subs ≡ lapse_subs (overdue_ids d.users) now d.subs
  unfolding handle_expired_subscriptions
  handle_expired-subs d = elim (Bool-cases (length (db.find_many (is_overdue now) d.users) == 0)) [
    | inl e ↦
        rw (e, eq-nil_of_length (db.find_many (is_overdue now) d.users) (ground arith))
          (sym (update_where_none (λ s. false) lapsed_sub d.subs (λ s. refl)))
    | inr e ↦ rw e (db.update_many_lem (lapses (overdue_ids d.users) now) lapsed_sub d.subs)
  ]

  -- Where ids are unique, a user's id was collected exactly if the user is overdue.
  pub id_in-overdue :
      (t : List User) (u : User)
      → Distinct (λ (w : User). w.id) t
      → Memᴰ u t
      → id_in (overdue_ids t) u.id ≡ is_overdue now u
  id_in-overdue t u uniq m = elim (Bool-cases (is_overdue now u)) [
    | inl e ↦
        id_in_of_member (db.find_many (is_overdue now) t) u
          (db.find_many_complete (is_overdue now) t u m e)
        ∙ sym e
    | inr e ↦ elim (Bool-cases (id_in (overdue_ids t) u.id)) [
      | inl hit ↦
          let (w, found, same) = owner_of_id (db.find_many (is_overdue now) t) u.id hit in
          let (late, k) = db.find_many_sound (is_overdue now) t w found in
          let one : w ≡ u = Distinct-eq (λ (v : User). v.id) t w u uniq k m same in
          hit ∙ sym (rw one at late)
      | inr miss ↦ miss ∙ sym e
    ]
  ]

  handle_expired-lapsed :
      (d : Tables)
      → Distinct (λ (u : User). u.id) d.users
      → (handle_expired_subscriptions db now d).1.users
        ≡ update_where (is_overdue now) lapsed d.users
  handle_expired-lapsed d uniq =
      handle_expired-users d
      ∙ update_where_cong (λ u. id_in (overdue_ids d.users) u.id) (is_overdue now) lapsed d.users
          (All-of_members (λ u. id_in (overdue_ids d.users) u.id ≡ is_overdue now u) d.users
            (λ u m. id_in-overdue d.users u uniq m))

  overdue_lem :
      (u : User)
      → is_overdue now u
        ≡ (u.is_premium && elim u.premium_expiry [ none ↦ false | some t ↦ ltb t now ])
  overdue_lem u = elim (Option-cases u.premium_expiry) [
    | inl e ↦ rw e refl
    | inr (t, e) ↦ rw e refl
  ]

  -- Where user ids are unique, the expiry run turns exactly the users who are premium with an
  -- expiry date before now into users who are not premium with the status EXPIRED, and leaves
  -- every other user as it was.
  pub handle_expired-exact :
      (d : Tables)
      → Distinct (λ (u : User). u.id) d.users
      → (handle_expired_subscriptions db now d).1.users
        ≡ update_where
            (λ u. u.is_premium && elim u.premium_expiry [ none ↦ false | some t ↦ ltb t now ])
            (λ u. record u { is_premium = false; premium_status = PremiumStatus.expired })
            d.users
  handle_expired-exact d uniq =
      handle_expired-lapsed d uniq
      ∙ update_where_cong (is_overdue now)
          (λ u. u.is_premium && elim u.premium_expiry [ none ↦ false | some t ↦ ltb t now ]) lapsed
          d.users
          (All-of_members
            (λ u.
              is_overdue now u
              ≡ (u.is_premium && elim u.premium_expiry [ none ↦ false | some t ↦ ltb t now ]))
            d.users (λ u m. overdue_lem u))

  -- After the job nobody is overdue.
  pub handle_expired-none_overdue :
      (d : Tables)
      → Distinct (λ (u : User). u.id) d.users
      → All (λ u. is_overdue now u ≡ false) (handle_expired_subscriptions db now d).1.users
  handle_expired-none_overdue d uniq = rw (handle_expired-lapsed d uniq) (
      All-update_where (λ u. Unit {0}) (λ u. is_overdue now u ≡ false) (is_overdue now) lapsed
        d.users (λ u _ _. refl) (λ u _ e. e) (All-of_members (λ u. Unit {0}) d.users (λ u _. tt)))
