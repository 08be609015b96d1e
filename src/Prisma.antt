-- ===== src/Prisma.antt =====
-- The Prisma client, a package that the source calls and does not contain. A table is the list of
-- its rows in the order of their creation, and the client is a parameter with the documented
-- effect of each call on the rows.
pub mod Memory
pub mod Unique
use gbi_backend.Base.{
  ℕ, suc, ◌==◌, if◌then◌else◌, ◌≡◌, Bool, true, false, Option, none, some, List, [], ◌∷◌, ◌++◌,
  Memᴰ, All, update_where, remove_where,
}

module _ {Row : Type 0} (key : Row → ℕ) where
  abbrev pub has_key : ℕ → List Row → Bool
  has_key k [] = false
  has_key k (x ∷ xs) = let later = has_key k xs in if key x == k then true else later

  -- The rows whose key is new, one after another, and their number
  abbrev pub create_new : List Row → List Row → ℕ × List Row
  create_new [] t = (0, t)
  create_new (r ∷ rest) t =
      let skipped = create_new rest t in
      let (n, t') = create_new rest (t ++ r ∷ []) in
      if has_key (key r) t then skipped else (suc n, t')

pub record Prisma : Type 1 where
  -- `findUnique` and `findFirst`: some row that the filter accepts, or null if there is none.
  pub find_first : {Row : Type 0} → (Row → Bool) → List Row → Option Row
  pub find_first_found :
      {Row : Type 0} (p : Row → Bool) (t : List Row) (r : Row)
      → find_first p t ≡ some r
      → (p r ≡ true) × Memᴰ r t
  pub find_first_missing :
      {Row : Type 0} (p : Row → Bool) (t : List Row)
      → find_first p t ≡ none
      → All (λ r. p r ≡ false) t
  -- `findMany`: the rows that the filter accepts, in an order that is not promised.
  pub find_many : {Row : Type 0} → (Row → Bool) → List Row → List Row
  pub find_many_sound :
      {Row : Type 0} (p : Row → Bool) (t : List Row) (r : Row)
      → Memᴰ r (find_many p t)
      → (p r ≡ true) × Memᴰ r t
  pub find_many_complete :
      {Row : Type 0} (p : Row → Bool) (t : List Row) (r : Row)
      → Memᴰ r t
      → p r ≡ true
      → Memᴰ r (find_many p t)
  -- `create`
  pub create : {Row : Type 0} → Row → List Row → List Row
  pub create_lem : {Row : Type 0} (r : Row) (t : List Row) → create r t ≡ t ++ r ∷ []
  -- `updateMany`, and `update` where its unique filter accepts a row
  pub update_many : {Row : Type 0} → (Row → Bool) → (Row → Row) → List Row → List Row
  pub update_many_lem :
      {Row : Type 0} (p : Row → Bool) (f : Row → Row) (t : List Row)
      → update_many p f t ≡ update_where p f t
  -- `deleteMany`, and `delete` where its unique filter accepts a row
  pub delete_many : {Row : Type 0} → (Row → Bool) → List Row → List Row
  pub delete_many_lem :
      {Row : Type 0} (p : Row → Bool) (t : List Row) → delete_many p t ≡ remove_where p t
  -- `createMany` with `skipDuplicates`, where the table has a unique column
  pub create_many : {Row : Type 0} → (Row → ℕ) → List Row → List Row → ℕ × List Row
  pub create_many_lem :
      {Row : Type 0} (key : Row → ℕ) (rows t : List Row)
      → create_many key rows t ≡ create_new key rows t
