-- ===== src/Admin/Rows.antt =====
-- The rows that read_rows lists: bulkCreateDevices in src/module/admin/admin.service.ts.
use gbi_backend.Base.{
  ℕ, ◌≡◌, ◌≢◌, ◌⊎◌, refl, subst, inl, inr, Bool, true, Option, none, some, List, [], ◌∷◌, Text,
  text_eq, text_eq_refl, select, Bool-cases, Option-cases, Memᴰ, arith, ◌==◌,
}
use gbi_backend.Base.Texts.{codes}
use gbi_backend.Prisma.{has_key}
use gbi_backend.Admin.Fleet.{Device, type_of, air_quality_monitor}
use gbi_backend.Admin.Bulk.{SheetRow, NewDevice, is_body, read_rows, id_of}

-- A row after the header, with an id, whose type is missing or the allowed one
abbrev pub IsListed : SheetRow → ℕ → Type 0
IsListed r id =
    (r.number ≢ 1)
    × (r.device_id ≡ some id)
    × ((r.type ≡ none) ⊎ (r.type ≡ some (codes "Air Quality Monitor")))

abbrev pub IsAmong : ℕ → List NewDevice → Type 0
IsAmong id list = (n : NewDevice) × Memᴰ n list × (n.device_id ≡ id)

Mem-select :
    {A : Type 0} (p : A → Bool) (xs : List A) (x : A)
    → Memᴰ x xs
    → p x ≡ true
    → Memᴰ x (select p xs)
Mem-select p [] x m h = elim m [ ]
Mem-select p (y ∷ xs) x (Memᴰ.head e) h = let k : p y ≡ true = rw e at h in rw k (Memᴰ.head e)
Mem-select p (y ∷ xs) x (Memᴰ.tail m) h = elim (Bool-cases (p y)) [
  | inl k ↦ rw k (Memᴰ.tail (Mem-select p xs x m h))
  | inr k ↦ rw k (Mem-select p xs x m h)
]

allowed_type :
    (t : Option Text)
    → (t ≡ none) ⊎ (t ≡ some (codes "Air Quality Monitor"))
    → text_eq (type_of t) air_quality_monitor ≡ true
allowed_type t (inl e) = rw e (text_eq_refl air_quality_monitor)
allowed_type t (inr e) = rw e (text_eq_refl air_quality_monitor)

read_rows-first :
    (r : SheetRow) (rest : List SheetRow) (id : ℕ)
    → IsListed r id
    → IsAmong id (read_rows (r ∷ rest)).0
read_rows-first r rest id (n, e, t) =
    let k = allowed_type r.type t in
    rw (e, k)
      (record { device_id = id; type = type_of r.type; row = r.number }, Memᴰ.head refl, refl)

read_rows-later :
    (r : SheetRow) (rest : List SheetRow) (id : ℕ)
    → IsAmong id (read_rows rest).0
    → IsAmong id (read_rows (r ∷ rest)).0
read_rows-later r rest id (n, m, q) = elim (Option-cases r.device_id) [
  | inl e ↦ rw e (n, m, q)
  | inr (x, e) ↦ elim (Bool-cases (text_eq (type_of r.type) air_quality_monitor)) [
    | inl t ↦ rw (e, t) (n, Memᴰ.tail m, q)
    | inr t ↦ rw (e, t) (n, m, q)
  ]
]

-- Every such row is listed.
pub read_rows-IsAmong :
    (rows : List SheetRow) (r : SheetRow) (id : ℕ)
    → Memᴰ r rows
    → IsListed r id
    → IsAmong id (read_rows rows).0
read_rows-IsAmong [] r id m h = elim m [ ]
read_rows-IsAmong (x ∷ rest) r id (Memᴰ.head e) h =
    read_rows-first x rest id (subst (λ y. IsListed y id) e h)
read_rows-IsAmong (x ∷ rest) r id (Memᴰ.tail m) h =
    read_rows-later x rest id (read_rows-IsAmong rest r id m h)

pub body-IsAmong :
    (sheet : List SheetRow) (r : SheetRow) (id : ℕ)
    → Memᴰ r sheet
    → IsListed r id
    → IsAmong id (read_rows (select is_body sheet)).0
body-IsAmong sheet r id m (n, e, t) =
    read_rows-IsAmong (select is_body sheet) r id
      (Mem-select is_body sheet r m (elim (Bool-cases (r.number == 1)) [
        | inl k ↦ absurd (n (ground arith))
        | inr k ↦ rw k refl
      ]))
      (n, e, t)

pub has_key-device :
    (id : ℕ) (t : List Device)
    → has_key id_of id t ≡ true
    → (d : Device) × Memᴰ d t × (d.device_id ≡ id)
has_key-device id [] h = absurd (ground arith)
has_key-device id (x ∷ t) h = elim (Bool-cases (x.device_id == id)) [
  | inl e ↦ (x, Memᴰ.head refl, ground arith)
  | inr e ↦ let (d, m, q) = has_key-device id t (ground arith) in (d, Memᴰ.tail m, q)
]
