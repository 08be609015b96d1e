-- ===== src/Admin/Bulk.antt =====
-- The creation of devices from a sheet: bulkCreateDevices in src/module/admin/admin.service.ts. The
-- workbook is read by a package; a cell is its trimmed text, none where that is empty.
use gbi_backend.Base.{
  ℕ, ◌+◌, Bool, true, false, not, ◌&&◌, Option, none, some, List, [], ◌∷◌, ◌++◌, map, Text, text_eq,
  length, select, leb, ◌==◌, if◌then◌else◌,
}
use gbi_backend.Http.{
  ok, bad_request, parse_failed, no_worksheet, no_records, Action, pure, throw_if, gets, or_throw,
  ◌>>=◌, ◌>>◌,
}
use gbi_backend.Prisma.{Prisma}
use gbi_backend.Admin.Fleet.{Device, new_device, air_quality_monitor, type_of}

pub record SheetRow : Type 0 where
  pub number : ℕ
  pub device_id : Option ℕ
  pub type : Option Text

pub data Failure : Type 0 where
  empty_device_id already_registered : Failure
  invalid_type : Text → Failure

pub record RowError : Type 0 where
  pub row : ℕ
  pub device_id : Option ℕ
  pub reason : Failure

-- An element of `devicesToCreate`
pub record NewDevice : Type 0 where
  pub device_id : ℕ
  pub type : Text
  pub row : ℕ

pub record BulkReport : Type 0 where
  pub success_count : ℕ
  pub failure_count : ℕ
  pub total_processed : ℕ
  pub errors : List RowError

abbrev pub is_body : SheetRow → Bool
is_body r = not (r.number == 1)

-- `worksheet.eachRow`, after the header: the devices to create, and the errors
abbrev pub read_rows : List SheetRow → List NewDevice × List RowError
read_rows [] = ([], [])
read_rows (r ∷ rest) =
    let (devices, errors) = read_rows rest in
    elim r.device_id [
      | none ↦
          (devices, record { row = r.number; device_id = none; reason = empty_device_id } ∷ errors)
      | some id ↦
          if text_eq (type_of r.type) air_quality_monitor
          then (record { device_id = id; type = type_of r.type; row = r.number } ∷ devices, errors)
          else (
            devices,
            record { row = r.number; device_id = some id; reason = invalid_type (type_of r.type) }
                ∷ errors,
          )
    ]

abbrev pub includes_id : List ℕ → ℕ → Bool
includes_id [] id = false
includes_id (x ∷ xs) id = let later = includes_id xs id in if x == id then true else later

abbrev pub registered : List ℕ → NewDevice → Bool
registered existing d = includes_id existing d.device_id

abbrev pub registered_error : NewDevice → RowError
registered_error d = record {
  row = d.row;
  device_id = some d.device_id;
  reason = already_registered;
}

-- `errors.sort((a, b) => a.row - b.row)`
abbrev pub insert_error : RowError → List RowError → List RowError
insert_error e [] = e ∷ []
insert_error e (x ∷ xs) =
    let later = insert_error e xs in if leb e.row x.row then e ∷ x ∷ xs else x ∷ later

abbrev pub sort_errors : List RowError → List RowError
sort_errors [] = []
sort_errors (e ∷ rest) = insert_error e (sort_errors rest)

abbrev pub is_nil {ℓ} : {A : Type ℓ} → List A → Bool
is_nil [] = true
is_nil (x ∷ xs) = false

-- The row of a new device; each gets an id of its own.
abbrev pub device_row : (ℕ → ℕ) → NewDevice → Device
device_row uuid d = new_device (uuid d.row) d.device_id d.type

abbrev pub id_of : Device → ℕ
id_of d = d.device_id

module _ (db : Prisma) where
  open db use {find_many, create_many}

  -- `repo.bulkCreateDevices`, where there is a device to create
  unfoldable pub create_all : (ℕ → ℕ) → List NewDevice → Action (List Device) ℕ
  create_all uuid [] s = (ok 0, s)
  create_all uuid (d ∷ fresh) s =
      let (n, t) = create_many id_of (map (device_row uuid) (d ∷ fresh)) s in (ok n, t)

  -- the part of `bulkCreateDevices` after the sheet was read; no rows are no change
  unfoldable pub create_listed :
      (ℕ → ℕ) → List NewDevice → List RowError → Action (List Device) BulkReport
  create_listed uuid devices errors = do
    existing ← gets (λ s.
        map id_of (
          find_many (λ d. includes_id (map (λ (n : NewDevice). n.device_id) devices) d.device_id)
            s))
    let fresh = select (λ d. not (registered existing d)) devices
    let all = errors ++ map registered_error (select (registered existing) devices)
    count ← create_all uuid fresh
    pure (record {
      success_count = count;
      failure_count = length all;
      total_processed = length fresh + length all;
      errors = sort_errors all;
    })

  -- The workbook is its worksheets, or none where the file cannot be parsed.
  unfoldable pub bulk_create_devices :
      (ℕ → ℕ) → Option (List (List SheetRow)) → Action (List Device) BulkReport
  unfolding create_listed
  bulk_create_devices uuid workbook = do
    sheets ← or_throw workbook bad_request parse_failed
    sheet ← or_throw (elim sheets [ [] ↦ none | x ∷ xs ↦ some x ]) bad_request no_worksheet
    let (devices, errors) = read_rows (select is_body sheet)
    throw_if (is_nil devices && is_nil errors) bad_request no_records
    create_listed uuid devices errors
