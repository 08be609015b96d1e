-- ===== src/Base/Lists.antt =====
-- Lists of rows: predicates that hold of every row, and the selection, change and removal of rows.
use Prim.Native.Nat.{ℕ, suc, ◌+◌, ◌≤◌, ◌<◌}
use mathlib.Core.Path.{◌≡◌, refl, sym, ap, subst, ◌∙◌}
use mathlib.Core.Bool.{Bool, true, false}
use mathlib.Core.List.{List, [], ◌∷◌, ◌++◌, Memᴰ}
use native.Mathlib.Omega.{arith}
use gbi_backend.Base.Tests.{Bool-cases, if◌then◌else◌}
use mathlib.Core.Logic.{◌≢◌, inl, inr}

module _ {ℓ} {A : Type ℓ} where
  abbrev pub length : List A → ℕ
  length [] = 0
  length (x ∷ xs) = suc (length xs)

  -- The rows that a test accepts.
  abbrev pub select : (A → Bool) → List A → List A
  select p [] = []
  select p (x ∷ xs) = let rest = select p xs in if p x then x ∷ rest else rest

  -- Each row that the test accepts is changed.
  abbrev pub update_where : (A → Bool) → (A → A) → List A → List A
  update_where p f [] = []
  update_where p f (x ∷ xs) = (if p x then f x else x) ∷ update_where p f xs

  -- The rows that the test accepts are removed.
  abbrev pub remove_where : (A → Bool) → List A → List A
  remove_where p [] = []
  remove_where p (x ∷ xs) = let rest = remove_where p xs in if p x then rest else x ∷ rest

  -- How many rows the test accepts.
  abbrev pub count_where : (A → Bool) → List A → ℕ
  count_where p [] = 0
  count_where p (x ∷ xs) = (if p x then 1 else 0) + count_where p xs

module _ {ℓ κ} {A : Type ℓ} (P : A → Type κ) where
  abbrev pub All : List A → Type κ
  All [] = Unit
  All (x ∷ xs) = P x × All xs

  pub All-member : (xs : List A) (x : A) → All xs → Memᴰ x xs → P x
  All-member [] x h m = elim m [ ]
  All-member (y ∷ ys) x h (Memᴰ.head e) = subst P (sym e) h.0
  All-member (y ∷ ys) x h (Memᴰ.tail m) = All-member ys x h.1 m

  pub All-append_one : (xs : List A) (x : A) → All xs → P x → All (xs ++ x ∷ [])
  All-append_one [] x h p = (p, tt)
  All-append_one (y ∷ ys) x h p = (h.0, All-append_one ys x h.1 p)

  pub All-remove_where : (p : A → Bool) (xs : List A) → All xs → All (remove_where p xs)
  All-remove_where p [] h = tt
  All-remove_where p (x ∷ xs) h = elim (Bool-cases (p x)) [
    | inl e ↦ rw e (All-remove_where p xs h.1)
    | inr e ↦ rw e (h.0, All-remove_where p xs h.1)
  ]

module _ {ℓ κ μ} {A : Type ℓ} (P : A → Type κ) (Q : A → Type μ) where
  pub All-imp : (xs : List A) → ((x : A) → P x → Q x) → All P xs → All Q xs
  All-imp [] g h = tt
  All-imp (x ∷ xs) g h = (g x h.0, All-imp xs g h.1)

  -- A change of the accepted rows turns a property of all rows into another.
  pub All-update_where :
      (p : A → Bool) (f : A → A) (xs : List A)
      → ((x : A) → P x → p x ≡ true → Q (f x))
      → ((x : A) → P x → p x ≡ false → Q x)
      → All P xs
      → All Q (update_where p f xs)
  All-update_where p f [] g k h = tt
  All-update_where p f (x ∷ xs) g k h = elim (Bool-cases (p x)) [
    | inl e ↦ rw e (g x h.0 e, All-update_where p f xs g k h.1)
    | inr e ↦ rw e (k x h.0 e, All-update_where p f xs g k h.1)
  ]

module _ {ℓ} {A : Type ℓ} where
  -- Rows that a change neither takes from a selection nor brings into it: the selection stays.
  pub select-update_where :
      (q p : A → Bool) (f : A → A) (xs : List A)
      → ((x : A) → p x ≡ true → (q x ≡ false) × (q (f x) ≡ false))
      → select q (update_where p f xs) ≡ select q xs
  select-update_where q p f [] h = refl
  select-update_where q p f (x ∷ xs) h = elim (Bool-cases (p x)) [
    | inl e ↦ rw (e, (h x e).0, (h x e).1) (select-update_where q p f xs h)
    | inr e ↦ rw e (ap (λ rest. if q x then x ∷ rest else rest) (select-update_where q p f xs h))
  ]

  pub select-append_one :
      (q : A → Bool) (xs : List A) (x : A) → q x ≡ false → select q (xs ++ x ∷ []) ≡ select q xs
  select-append_one q [] x h = rw h
  select-append_one q (y ∷ ys) x h =
      ap (λ rest. if q y then y ∷ rest else rest) (select-append_one q ys x h)

  pub select-append_one_kept :
      (q : A → Bool) (xs : List A) (x : A)
      → q x ≡ true
      → select q (xs ++ x ∷ []) ≡ select q xs ++ x ∷ []
  select-append_one_kept q [] x h = rw h
  select-append_one_kept q (y ∷ ys) x h = elim (Bool-cases (q y)) [
    | inl e ↦ rw e (ap (λ rest. y ∷ rest) (select-append_one_kept q ys x h))
    | inr e ↦ rw e (select-append_one_kept q ys x h)
  ]

  pub count_where-append_one :
      (q : A → Bool) (xs : List A) (x : A)
      → count_where q (xs ++ x ∷ []) ≡ count_where q xs + (if q x then 1 else 0)
  count_where-append_one q [] x = omega arith
  count_where-append_one q (y ∷ ys) x = omega (arith, count_where-append_one q ys x)

  -- A change that takes rows into no selection does not raise its count.
  pub count_where-update_where :
      (q p : A → Bool) (f : A → A) (xs : List A)
      → ((x : A) → p x ≡ true → q (f x) ≡ true → q x ≡ true)
      → count_where q (update_where p f xs) ≤ count_where q xs
  count_where-update_where q p f [] h = omega arith
  count_where-update_where q p f (x ∷ xs) h =
      ground (arith, count_where-update_where q p f xs h, h x)

  pub count_where-eq_zero :
      (q : A → Bool) (xs : List A) → All (λ x. q x ≡ false) xs → count_where q xs ≡ 0
  count_where-eq_zero q [] h = refl
  count_where-eq_zero q (x ∷ xs) h = ground (arith, count_where-eq_zero q xs h.1)

  pub member-append_one : (xs : List A) (x : A) → Memᴰ x (xs ++ x ∷ [])
  member-append_one [] x = Memᴰ.head refl
  member-append_one (y ∷ ys) x = Memᴰ.tail (member-append_one ys x)

  pub member-remove_where :
      (p : A → Bool) (xs : List A) (x : A) → Memᴰ x xs → p x ≡ false → Memᴰ x (remove_where p xs)
  member-remove_where p [] x m h = elim m [ ]
  member-remove_where p (y ∷ ys) x (Memᴰ.head e) h =
      let k : p y ≡ false = subst (λ z. p z ≡ false) e h in rw k (Memᴰ.head e)
  member-remove_where p (y ∷ ys) x (Memᴰ.tail m) h =
      let rest = member-remove_where p ys x m h in
      elim (Bool-cases (p y)) [ inl k ↦ rw k rest | inr k ↦ rw k (Memᴰ.tail rest) ]

  pub member-of_removed :
      (p : A → Bool) (xs : List A) (x : A) → Memᴰ x (remove_where p xs) → Memᴰ x xs
  member-of_removed p [] x m = elim m [ ]
  member-of_removed p (y ∷ ys) x m = elim (Bool-cases (p y)) [
    | inl k ↦ Memᴰ.tail (member-of_removed p ys x (rw k at m))
    | inr k ↦ elim (rw k at m) [
      | Memᴰ.head e ↦ Memᴰ.head e
      | Memᴰ.tail n ↦ Memᴰ.tail (member-of_removed p ys x n)
    ]
  ]

  pub count_where_pos :
      (q : A → Bool) (xs : List A) (x : A) → Memᴰ x xs → q x ≡ true → 0 < count_where q xs
  count_where_pos q [] x m h = elim m [ ]
  count_where_pos q (y ∷ ys) x (Memᴰ.head e) h =
      let k : q y ≡ true = subst (λ z. q z ≡ true) e h in ground arith
  count_where_pos q (y ∷ ys) x (Memᴰ.tail m) h = omega (arith, count_where_pos q ys x m h)

module _ {ℓ κ} {A : Type ℓ} {K : Type κ} (key : A → K) where
  -- No two rows have the same key.
  abbrev pub Distinct : List A → Type κ
  Distinct [] = Unit
  Distinct (x ∷ xs) = All (λ y. key x ≢ key y) xs × Distinct xs

  pub Distinct-eq :
      (xs : List A) (x y : A) → Distinct xs → Memᴰ x xs → Memᴰ y xs → key x ≡ key y → x ≡ y
  Distinct-eq [] x y d m k e = elim m [ ]
  Distinct-eq (z ∷ zs) x y d (Memᴰ.head p) (Memᴰ.head q) e = p ∙ sym q
  Distinct-eq (z ∷ zs) x y d (Memᴰ.head p) (Memᴰ.tail k) e =
      absurd (All-member (λ w. key z ≢ key w) zs y d.0 k (ap key (sym p) ∙ e))
  Distinct-eq (z ∷ zs) x y d (Memᴰ.tail m) (Memᴰ.head q) e =
      absurd (All-member (λ w. key z ≢ key w) zs x d.0 m (ap key (sym q) ∙ sym e))
  Distinct-eq (z ∷ zs) x y d (Memᴰ.tail m) (Memᴰ.tail k) e = Distinct-eq zs x y d.1 m k e

module _ {ℓ κ} {A : Type ℓ} (P : A → Type κ) where
  -- A property of every member is one of all rows.
  pub All-of_members : (xs : List A) → ((x : A) → Memᴰ x xs → P x) → All P xs
  All-of_members [] h = tt
  All-of_members (x ∷ xs) h = (h x (Memᴰ.head refl), All-of_members xs (λ y m. h y (Memᴰ.tail m)))

module _ {ℓ κ μ} {A : Type ℓ} (P : A → Type κ) (Q : A → Type μ) where
  pub All-and : (xs : List A) → All P xs → All Q xs → All (λ x. P x × Q x) xs
  All-and [] h k = tt
  All-and (x ∷ xs) h k = ((h.0, k.0), All-and xs h.1 k.1)

module _ {ℓ} {A : Type ℓ} where
  pub update_where_cong :
      (p q : A → Bool) (f : A → A) (xs : List A)
      → All (λ x. p x ≡ q x) xs
      → update_where p f xs ≡ update_where q f xs
  update_where_cong p q f [] h = refl
  update_where_cong p q f (x ∷ xs) h = rw (h.0, update_where_cong p q f xs h.1)

  pub update_where_none :
      (p : A → Bool) (f : A → A) (xs : List A) → ((x : A) → p x ≡ false) → update_where p f xs ≡ xs
  update_where_none p f [] h = refl
  update_where_none p f (x ∷ xs) h = rw (h x, update_where_none p f xs h)

  pub update_where_unmatched :
      (p : A → Bool) (f : A → A) (xs : List A)
      → All (λ x. p x ≡ false) xs
      → update_where p f xs ≡ xs
  update_where_unmatched p f [] h = refl
  update_where_unmatched p f (x ∷ xs) (h, t) = rw (h, update_where_unmatched p f xs t)

  pub eq-nil_of_length : (xs : List A) → length xs ≡ 0 → xs ≡ []
  eq-nil_of_length [] h = refl
  eq-nil_of_length (x ∷ xs) h = absurd (omega arith)

module _ {ℓ κ} {A : Type ℓ} {K : Type κ} (key : A → K) where
  -- A change that keeps the keys keeps them distinct.
  pub Distinct-update_where :
      (p : A → Bool) (f : A → A) (xs : List A)
      → ((x : A) → key (f x) ≡ key x)
      → Distinct key xs
      → Distinct key (update_where p f xs)
  Distinct-update_where p f [] h d = tt
  Distinct-update_where p f (x ∷ xs) h d = (
    All-update_where (λ y. key x ≢ key y) (λ y. key (if p x then f x else x) ≢ key y) p f xs
        (λ y ne _ e. ne (sym (kept x) ∙ e ∙ h y)) (λ y ne _ e. ne (sym (kept x) ∙ e)) d.0,
    Distinct-update_where p f xs h d.1,
  )
    where
      kept : (y : A) → key (if p y then f y else y) ≡ key y
      kept y = elim (Bool-cases (p y)) [ inl e ↦ rw e (h y) | inr e ↦ rw e ]

  pub Distinct-append_one :
      (xs : List A) (x : A)
      → Distinct key xs
      → All (λ y. key y ≢ key x) xs
      → Distinct key (xs ++ x ∷ [])
  Distinct-append_one [] x d h = (tt, tt)
  Distinct-append_one (y ∷ ys) x d h =
      (All-append_one (λ z. key y ≢ key z) ys x d.0 h.0, Distinct-append_one ys x d.1 h.1)

module _ {ℓ} {A : Type ℓ} where
  pub length-append_one : (xs : List A) (x : A) → length (xs ++ x ∷ []) ≡ suc (length xs)
  length-append_one [] x = refl
  length-append_one (y ∷ ys) x = ap suc (length-append_one ys x)

  pub length-update_where :
      (p : A → Bool) (f : A → A) (xs : List A) → length (update_where p f xs) ≡ length xs
  length-update_where p f [] = refl
  length-update_where p f (x ∷ xs) = ap suc (length-update_where p f xs)

module _ {ℓ κ μ} {A : Type ℓ} (P : A → Type κ) (Q : A → Type μ) where
  -- What holds of the rows that a removal keeps.
  pub All-remove_where_kept :
      (p : A → Bool) (xs : List A)
      → ((x : A) → P x → p x ≡ false → Q x)
      → All P xs
      → All Q (remove_where p xs)
  All-remove_where_kept p [] g h = tt
  All-remove_where_kept p (x ∷ xs) g h = elim (Bool-cases (p x)) [
    | inl e ↦ rw e (All-remove_where_kept p xs g h.1)
    | inr e ↦ rw e (g x h.0 e, All-remove_where_kept p xs g h.1)
  ]
