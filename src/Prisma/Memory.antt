-- ===== src/Prisma/Memory.antt =====
-- A client over lists in memory. It shows that the laws of `Prisma` can be met.
use gbi_backend.Base.{
  ◌≡◌, refl, inl, inr, Bool, true, false, Option, none, some, List, [], ◌∷◌, ◌++◌, Memᴰ, All,
  Bool-cases, if◌then◌else◌, select, update_where, remove_where, arith,
}
use gbi_backend.Prisma.{create_new, Prisma}

module _ {Row : Type 0} where
  abbrev find : (Row → Bool) → List Row → Option Row
  find p [] = none
  find p (x ∷ xs) = let rest = find p xs in if p x then some x else rest

  pub find_found :
      (p : Row → Bool) (t : List Row) (r : Row) → find p t ≡ some r → (p r ≡ true) × Memᴰ r t
  find_found p [] r h = cc
  find_found p (x ∷ xs) r h = elim (Bool-cases (p x)) [
    | inl e ↦ let same : r ≡ x = ground arith in (rw same e, Memᴰ.head same)
    | inr e ↦ let (a, m) = find_found p xs r (rw e at h) in (a, Memᴰ.tail m)
  ]

  pub find_missing : (p : Row → Bool) (t : List Row) → find p t ≡ none → All (λ r. p r ≡ false) t
  find_missing p [] h = tt
  find_missing p (x ∷ xs) h = elim (Bool-cases (p x)) [
    | inl e ↦ ground arith
    | inr e ↦ (e, find_missing p xs (rw e at h))
  ]

  pub select_sound :
      (p : Row → Bool) (t : List Row) (r : Row) → Memᴰ r (select p t) → (p r ≡ true) × Memᴰ r t
  select_sound p [] r m = elim m [ ]
  select_sound p (x ∷ xs) r m = elim (Bool-cases (p x)) [
    | inl e ↦ select_head (rw e at m) e (select_sound p xs r)
    | inr e ↦ let (a, k) = select_sound p xs r (rw e at m) in (a, Memᴰ.tail k)
  ]
    where
      select_head :
          Memᴰ r (x ∷ select p xs)
          → p x ≡ true
          → (Memᴰ r (select p xs) → (p r ≡ true) × Memᴰ r xs)
          → (p r ≡ true) × Memᴰ r (x ∷ xs)
      select_head (Memᴰ.head same) e k = (rw same e, Memᴰ.head same)
      select_head (Memᴰ.tail l) e k = let (a, b) = k l in (a, Memᴰ.tail b)

  pub select_complete :
      (p : Row → Bool) (t : List Row) (r : Row) → Memᴰ r t → p r ≡ true → Memᴰ r (select p t)
  select_complete p [] r m h = elim m [ ]
  select_complete p (x ∷ xs) r (Memᴰ.head same) h =
      let e : p x ≡ true = rw (← same) h in rw e (Memᴰ.head same)
  select_complete p (x ∷ xs) r (Memᴰ.tail m) h = elim (Bool-cases (p x)) [
    | inl e ↦ rw e (Memᴰ.tail (select_complete p xs r m h))
    | inr e ↦ rw e (select_complete p xs r m h)
  ]

abbrev pub memory : Prisma
memory = record {
  find_first = λ p t. find p t;
  find_first_found = λ p t r h. find_found p t r h;
  find_first_missing = λ p t h. find_missing p t h;
  find_many = λ p t. select p t;
  find_many_sound = λ p t r m. select_sound p t r m;
  find_many_complete = λ p t r m h. select_complete p t r m h;
  create = λ r t. t ++ r ∷ [];
  create_lem = λ r t. refl;
  update_many = λ p f t. update_where p f t;
  update_many_lem = λ p f t. refl;
  delete_many = λ p t. remove_where p t;
  delete_many_lem = λ p t. refl;
  create_many = λ key rows t. create_new key rows t;
  create_many_lem = λ key rows t. refl;
}
