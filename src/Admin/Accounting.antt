-- ===== src/Admin/Accounting.antt =====
-- What the report of bulkCreateDevices in src/module/admin/admin.service.ts counts, and what the
-- table holds then.
use gbi_backend.Base.{
  ℕ, suc, ◌+◌, ◌≤◌, ◌≡◌, ◌≢◌, refl, sym, subst, ◌∙◌, inl, inr, Bool, true, false, not, ◌&&◌, some,
  List, [], ◌∷◌, ◌++◌, map, text_eq, length, select, All, Distinct, Distinct-append_one, Bool-cases,
  Option-cases, All-of_members, All-member, Memᴰ, arith, ◌==◌, if◌then◌else◌,
}
use gbi_backend.Http.{ok}
use gbi_backend.Prisma.{Prisma, has_key, create_new}
use gbi_backend.Admin.Fleet.{Device, type_of, air_quality_monitor}
use gbi_backend.Admin.Rows.{IsListed, body-IsAmong, has_key-device}
use gbi_backend.Admin.Bulk.{
  SheetRow, RowError, NewDevice, BulkReport, is_body, read_rows, includes_id, registered,
  registered_error, device_row, id_of, is_nil, sort_errors, create_all, create_listed,
  bulk_create_devices,
}

-- Every row of the sheet is a device to create or an error.
read_rows_lem :
    (rows : List SheetRow) → length (read_rows rows).0 + length (read_rows rows).1 ≡ length rows
read_rows_lem [] = refl
read_rows_lem (r ∷ rest) =
    let more = read_rows_lem rest in
    elim (Option-cases r.device_id) [
      | inl e ↦ ground arith
      | inr (id, e) ↦ elim (Bool-cases (text_eq (type_of r.type) air_quality_monitor)) [
        | inl t ↦ ground arith
        | inr t ↦ ground arith
      ]
    ]

length-append : {A : Type 0} (xs ys : List A) → length (xs ++ ys) ≡ length xs + length ys
length-append [] ys = omega arith
length-append (x ∷ xs) ys = let more = length-append xs ys in omega arith

length-map : {A B : Type 0} (f : A → B) (xs : List A) → length (map f xs) ≡ length xs
length-map f [] = refl
length-map f (x ∷ xs) = let more = length-map f xs in omega arith

length-select-not :
    {A : Type 0} (p : A → Bool) (xs : List A)
    → length (select (λ x. not (p x)) xs) + length (select p xs) ≡ length xs
length-select-not p [] = refl
length-select-not p (x ∷ xs) =
    let more = length-select-not p xs in
    elim (Bool-cases (p x)) [ inl e ↦ rw e (omega arith) | inr e ↦ rw e (omega arith) ]

module _ {Row : Type 0} (key : Row → ℕ) where
  has_key-append :
      (k : ℕ) (t : List Row) (r : Row)
      → has_key key k (t ++ r ∷ []) ≡ (if has_key key k t then true else key r == k)
  has_key-append k [] r = elim (Bool-cases (key r == k)) [
    | inl e ↦ ground arith
    | inr e ↦ ground arith
  ]
  has_key-append k (x ∷ t) r = let more = has_key-append k t r in ground arith

  has_key_none : (k : ℕ) (t : List Row) → has_key key k t ≡ false → All (λ y. key y ≢ k) t
  has_key_none k [] h = tt
  has_key_none k (x ∷ t) h = elim (Bool-cases (key x == k)) [
    | inl e ↦ absurd (ground arith)
    | inr e ↦ (λ q. absurd (ground arith), has_key_none k t (ground arith))
  ]

  -- At most the given rows are counted, keys stay distinct, and there is a row with each key.
  abbrev pub IsCreated : List Row → List Row → ℕ × List Row → Type 0
  IsCreated rows t out =
      (out.0 ≤ length rows)
      × Distinct key out.1
      × ((k : ℕ) → has_key key k t ≡ true → has_key key k out.1 ≡ true)
      × All (λ r. has_key key (key r) out.1 ≡ true) rows

  create_new_lem : (rows t : List Row) → Distinct key t → IsCreated rows t (create_new key rows t)
  create_new_lem [] t d = (omega arith, d, (λ k h. h), tt)
  create_new_lem (r ∷ rest) t d = elim (Bool-cases (has_key key (key r) t)) [
    | inl e ↦
        let (n, keys, kept, each) = create_new_lem rest t d in
        let skip : create_new key (r ∷ rest) t ≡ create_new key rest t = rw e in
        subst (IsCreated (r ∷ rest) t) (sym skip) (omega arith, keys, kept, (kept (key r) e, each))
    | inr e ↦
        let (n, keys, kept, each) =
          create_new_lem rest (t ++ r ∷ [])
            (Distinct-append_one key t r d (has_key_none (key r) t e)) in
        let add : create_new key (r ∷ rest) t
            ≡ (suc (create_new key rest (t ++ r ∷ [])).0, (create_new key rest (t ++ r ∷ [])).1) =
          rw e in
        subst (IsCreated (r ∷ rest) t) (sym add) (
          omega arith,
          keys,
          (λ k h. kept k (has_key-append k t r ∙ ground arith)),
          (kept (key r) (has_key-append (key r) t r ∙ ground arith), each),
        )
  ]

  has_key-member : (x : Row) (t : List Row) → Memᴰ x t → has_key key (key x) t ≡ true
  has_key-member x [] m = elim m [ ]
  has_key-member x (y ∷ t) (Memᴰ.head e) =
      rw e (elim (Bool-cases (key y == key y)) [
        | inl k ↦ ground arith
        | inr k ↦ absurd (ground arith)
      ])
  has_key-member x (y ∷ t) (Memᴰ.tail m) =
      let more = has_key-member x t m in
      elim (Bool-cases (key y == key x)) [ inl k ↦ ground arith | inr k ↦ ground arith ]

  includes_id-has_key :
      (k : ℕ) (found t : List Row)
      → All (λ x. Memᴰ x t) found
      → includes_id (map key found) k ≡ true
      → has_key key k t ≡ true
  includes_id-has_key k [] t m h = absurd (ground arith)
  includes_id-has_key k (x ∷ found) t (m, n) h = elim (Bool-cases (key x == k)) [
    | inl e ↦ let q : key x ≡ k = ground arith in rw (← q) (has_key-member x t m)
    | inr e ↦ includes_id-has_key k found t n (ground arith)
  ]

All-map :
    {A B : Type 0} (P : B → Type 0) (f : A → B) (xs : List A)
    → All P (map f xs)
    → All (λ x. P (f x)) xs
All-map P f [] h = tt
All-map P f (x ∷ xs) (h, t) = (h, All-map P f xs t)

All-select-not :
    {A : Type 0} (P : A → Type 0) (p : A → Bool) (xs : List A)
    → ((x : A) → p x ≡ true → P x)
    → All P (select (λ x. not (p x)) xs)
    → All P xs
All-select-not P p [] g h = tt
All-select-not P p (x ∷ xs) g h = elim (Bool-cases (p x)) [
  | inl e ↦ (g x e, All-select-not P p xs g (rw e at h))
  | inr e ↦
      let (a, b) : All P (x ∷ select (λ x. not (p x)) xs) = rw e at h in
      (a, All-select-not P p xs g b)
]

module _ (db : Prisma) where
  -- The table has a device for the row.
  abbrev pub IsStored : List Device → NewDevice → Type 0
  IsStored t d = has_key id_of d.device_id t ≡ true

  -- What the report counts, and the table.
  abbrev pub IsAccounted : List NewDevice → List RowError → List Device → BulkReport → Type 0
  IsAccounted devices errors t report =
      (report.total_processed ≡ length devices + length errors)
      × (report.success_count + report.failure_count ≤ report.total_processed)
      × Distinct id_of t
      × All (IsStored t) devices

  abbrev existing_of : List NewDevice → List Device → List Device
  existing_of devices s =
      db.find_many (λ d. includes_id (map (λ (n : NewDevice). n.device_id) devices) d.device_id) s

  abbrev fresh_of : List NewDevice → List Device → List NewDevice
  fresh_of devices s = select (λ d. not (registered (map id_of (existing_of devices s)) d)) devices

  abbrev created : (ℕ → ℕ) → List NewDevice → List Device → ℕ × List Device
  created uuid fresh s = create_new id_of (map (device_row uuid) fresh) s

  -- No rows are no change, with or without a call of the client.
  create_step :
      (uuid : ℕ → ℕ) (fresh : List NewDevice) (s : List Device)
      → create_all db uuid fresh s ≡ (ok (created uuid fresh s).0, (created uuid fresh s).1)
  unfolding create_all
  create_step uuid [] s = refl
  create_step uuid (d ∷ fresh) s =
      rw (db.create_many_lem id_of (map (device_row uuid) (d ∷ fresh)) s)

  create_listed_eq :
      (uuid : ℕ → ℕ) (devices : List NewDevice) (errors : List RowError) (s : List Device)
      → create_listed db uuid devices errors s ≡ (
        ok (record {
          success_count = (created uuid (fresh_of devices s) s).0;
          failure_count = length (
              errors
              ++ map registered_error
                  (select (registered (map id_of (existing_of devices s))) devices));
          total_processed =
              length (fresh_of devices s)
              + length (
                  errors
                  ++ map registered_error
                      (select (registered (map id_of (existing_of devices s))) devices));
          errors = sort_errors (
              errors
              ++ map registered_error
                  (select (registered (map id_of (existing_of devices s))) devices));
        }),
        (created uuid (fresh_of devices s) s).1,
      )
  unfolding create_listed
  create_listed_eq uuid devices errors s =
      let e = create_step uuid (fresh_of devices s) s in ground arith

  create_listed_lem :
      (uuid : ℕ → ℕ) (devices : List NewDevice) (errors : List RowError) (s : List Device)
      (report : BulkReport)
      → Distinct id_of s
      → (create_listed db uuid devices errors s).0 ≡ ok report
      → IsAccounted devices errors (create_listed db uuid devices errors s).1 report
  create_listed_lem uuid devices errors s report d h =
      let existing = map id_of (existing_of devices s) in
      let dup = select (registered existing) devices in
      let fresh = fresh_of devices s in
      let q = create_listed_eq uuid devices errors s in
      let (n, keys, kept, each) = create_new_lem id_of (map (device_row uuid) fresh) s d in
      let parts = length-select-not (registered existing) devices in
      let m = length-map (device_row uuid) fresh in
      let m' = length-map registered_error dup in
      let app = length-append errors (map registered_error dup) in
      subst (λ out. out.0 ≡ ok report → IsAccounted devices errors out.1 report) (sym q)
        (λ k. (
          ground arith,
          ground arith,
          keys,
          All-select-not (IsStored (created uuid fresh s).1) (registered existing) devices
              (λ x r. kept x.device_id (
                includes_id-has_key id_of x.device_id (existing_of devices s) s
                  (All-of_members (λ y. Memᴰ y s) (existing_of devices s)
                    (λ y i.
                      (db.find_many_sound
                        (λ d.
                          includes_id (map (λ (n : NewDevice). n.device_id) devices) d.device_id)
                        s y i).1))
                  r))
              (All-map (λ (r : Device). has_key id_of (id_of r) (created uuid fresh s).1 ≡ true)
                (device_row uuid) fresh each),
        ))
        h

  bulk_listed :
      (uuid : ℕ → ℕ) (sheet : List SheetRow) (more : List (List SheetRow)) (s : List Device)
      → (is_nil (read_rows (select is_body sheet)).0 && is_nil (read_rows (select is_body sheet)).1)
        ≡ false
      → bulk_create_devices db uuid (some (sheet ∷ more)) s
        ≡ create_listed db uuid
            (read_rows (select is_body sheet)).0
            (read_rows (select is_body sheet)).1
            s
  unfolding bulk_create_devices
  bulk_listed uuid sheet more s e = ground arith

  refused :
      (uuid : ℕ → ℕ) (sheet : List SheetRow) (more : List (List SheetRow)) (s : List Device)
      (report : BulkReport)
      → (is_nil (read_rows (select is_body sheet)).0 && is_nil (read_rows (select is_body sheet)).1)
        ≡ true
      → (bulk_create_devices db uuid (some (sheet ∷ more)) s).0 ≢ ok report
  unfolding bulk_create_devices
  refused uuid sheet more s report e h = ground arith

  -- Where the ids of the devices are unique, a bulk creation that succeeded reports as processed
  -- the rows of the first sheet after the header, of which successes and failures together are
  -- at most as many; the ids are still unique; and for every row after the header with an id,
  -- whose type is missing or Air Quality Monitor, the table has a device with that id.
  pub bulk_create_devices_sound :
      (uuid : ℕ → ℕ) (sheet : List SheetRow) (more : List (List SheetRow)) (s : List Device)
      (report : BulkReport)
      → Distinct id_of s
      → (bulk_create_devices db uuid (some (sheet ∷ more)) s).0 ≡ ok report
      → (report.total_processed ≡ length (select is_body sheet))
        × (report.success_count + report.failure_count ≤ report.total_processed)
        × Distinct id_of (bulk_create_devices db uuid (some (sheet ∷ more)) s).1
        × All
            (λ r.
              (id : ℕ)
              → IsListed r id
              → (d : Device) × Memᴰ d (bulk_create_devices db uuid (some (sheet ∷ more)) s).1
                × (d.device_id ≡ id))
            sheet
  bulk_create_devices_sound uuid sheet more s report d h =
      let devices = (read_rows (select is_body sheet)).0 in
      let errors = (read_rows (select is_body sheet)).1 in
      elim (Bool-cases (is_nil devices && is_nil errors)) [
        | inl e ↦ absurd (refused uuid sheet more s report e h)
        | inr e ↦
            let q = bulk_listed uuid sheet more s e in
            let (total, within, keys, stored) =
              create_listed_lem uuid devices errors s report d
                (subst (λ out. out.0 ≡ ok report) q h) in
            (
              total ∙ read_rows_lem (select is_body sheet),
              within,
              subst (λ out. Distinct id_of out.1) (sym q) keys,
              All-of_members
                  (λ r.
                    (id : ℕ)
                    → IsListed r id
                    → (d : Device) × Memᴰ d (bulk_create_devices db uuid (some (sheet ∷ more)) s).1
                      × (d.device_id ≡ id))
                  sheet
                  (λ r m id listed.
                    let (n, among, same) = body-IsAmong sheet r id m listed in
                    has_key-device id (bulk_create_devices db uuid (some (sheet ∷ more)) s).1 (
                      subst
                        (λ k.
                          has_key id_of k (bulk_create_devices db uuid (some (sheet ∷ more)) s).1
                          ≡ true)
                        same
                        (All-member
                          (IsStored (bulk_create_devices db uuid (some (sheet ∷ more)) s).1) devices
                          n (subst (λ out. All (IsStored out.1) devices) (sym q) stored) among))),
            )
      ]
