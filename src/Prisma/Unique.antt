-- ===== src/Prisma/Unique.antt =====
-- A lookup by a key that no two rows share.
use gbi_backend.Base.{
  Memᴰ, refl, ap, ◌∙◌, remove_where, member-remove_where, member-of_removed, ℕ, ◌≡◌, inl, inr, Bool,
  true, false, none, some, List, [], ◌∷◌, ◌++◌, All, All-of_members, All-member, member-append_one,
  Distinct, Distinct-eq, Option-cases, arith, ◌==◌,
}
use gbi_backend.Prisma.{Prisma}

module _ (db : Prisma) {Row : Type 0} (key : Row → ℕ) where
  -- Every row with the key is the row that was found.
  pub All-found :
      (k : ℕ) (t : List Row) (r : Row)
      → Distinct key t
      → db.find_first (λ x. key x == k) t ≡ some r
      → All (λ x. key x ≡ k → x ≡ r) t
  All-found k t r uniq e =
      let (hit, m) = db.find_first_found (λ x. key x == k) t r e in
      let same : key r ≡ k = ground arith in
      All-of_members (λ x. key x ≡ k → x ≡ r) t
        (λ x mx ex. Distinct-eq key t x r uniq mx m (omega arith))

  -- A row that stays is found after rows were deleted.
  pub find_first-delete_many :
      (k : ℕ) (gone : Row → Bool) (t : List Row) (r : Row)
      → Distinct key t
      → db.find_first (λ x. key x == k) t ≡ some r
      → gone r ≡ false
      → db.find_first (λ x. key x == k) (db.delete_many gone t) ≡ some r
  find_first-delete_many k gone t r uniq e stays = rw (db.delete_many_lem gone t) found
    where
      found : db.find_first (λ x. key x == k) (remove_where gone t) ≡ some r
      found =
          let (hit, m) = db.find_first_found (λ x. key x == k) t r e in
          elim (Option-cases (db.find_first (λ x. key x == k) (remove_where gone t))) [
            | inl none_ ↦
                let miss : (key r == k) ≡ false =
                  All-member (λ x. (key x == k) ≡ false) (remove_where gone t) r
                    (db.find_first_missing (λ x. key x == k) (remove_where gone t) none_)
                    (member-remove_where gone t r m stays) in
                absurd (ground arith)
            | inr (x, h) ↦
                let (hit', m') = db.find_first_found (λ x. key x == k) (remove_where gone t) x h in
                let same : x ≡ r =
                  Distinct-eq key t x r uniq (member-of_removed gone t x m') m (ground arith) in
                h ∙ ap some same
          ]

module _ (db : Prisma) {Row : Type 0} where
  -- A lookup finds a row where one was just created.
  pub find_first-create :
      (p : Row → Bool) (r : Row) (t : List Row)
      → p r ≡ true
      → (x : Row) × (db.find_first p (db.create r t) ≡ some x)
  find_first-create p r t h = elim (Option-cases (db.find_first p (db.create r t))) [
    | inl e ↦
        let no_row = rw (db.create_lem r t) at (db.find_first_missing p (db.create r t) e) in
        let miss : p r ≡ false =
          All-member (λ x. p x ≡ false) (t ++ r ∷ []) r no_row (member-append_one t r) in
        absurd (ground arith)
    | inr found ↦ found
  ]

  -- Where no row fits, nothing is found.
  pub find_first-none :
      (p : Row → Bool) (t : List Row) → All (λ x. p x ≡ false) t → db.find_first p t ≡ none
  find_first-none p t h = elim (Option-cases (db.find_first p t)) [
    | inl e ↦ e
    | inr (r, e) ↦
        let (hit, m) = db.find_first_found p t r e in
        let miss : p r ≡ false = All-member (λ x. p x ≡ false) t r h m in absurd (ground arith)
  ]

  -- Where no row fits, no rows are found.
  pub find_many-none :
      (p : Row → Bool) (t : List Row) → All (λ x. p x ≡ false) t → db.find_many p t ≡ []
  find_many-none p t h = go (db.find_many p t) (λ r m. db.find_many_sound p t r m)
    where
      go : (found : List Row) → ((r : Row) → Memᴰ r found → (p r ≡ true) × Memᴰ r t) → found ≡ []
      go [] k = refl
      go (r ∷ rest) k =
          let (hit, m) = k r (Memᴰ.head refl) in
          let miss : p r ≡ false = All-member (λ x. p x ≡ false) t r h m in absurd (ground arith)
