-- ===== src/Reports/Csv.antt =====
-- The CSV report of src/reports/reports.service.ts (generateCsv) as a table.
use gbi_backend.Base.{
  ◌||◌, ℕ, suc, zero, ◌-◌, ◌/◌, ◌≡◌, ◌≢◌, refl, sym, ap, ◌∙◌, Bool, true, false, List, [], ◌∷◌,
  ◌++◌, map, Text, ◌==◌, leb, if◌then◌else◌, select, arith, All, Bool-cases, inl, inr,
}
use gbi_backend.Base.Texts.{
  includes, codes, comma, newline, join, replicate, set, map-replicate, map-set,
}
use mathlib.Core.List.{append-nil}
use gbi_backend.Reports.Table.{
  escape_csv, special, carriage, IsWhole, row_text, IsTable, read_csv, read_csv-lines_text,
}
use gbi_backend.Reports.{
  FormattedRow, Column, date, time, device, metric, columns, ordered_params, column_label, or_empty,
  is_blank, empty_line, labelled, device_header, cell, row_line, of_device, data_lines, total_of,
  csv_lines, csv_text,
}

-- No comma, quote, newline or carriage return
abbrev pub IsPlain : Text → Type 0
IsPlain t = (special t || includes carriage t) ≡ false

escape-plain : (t : Text) → IsPlain t → escape_csv t ≡ t
unfolding escape_csv
escape-plain t h = let k : special t ≡ false = ground arith in rw k refl

plain-IsWhole : (t : Text) → IsPlain t → IsWhole t
plain-IsWhole t h = ground arith

includes-append : (s t : Text) → IsWhole s → IsWhole t → IsWhole (s ++ t)
includes-append [] t h k = k
includes-append (c ∷ s) t h k =
    let first : (carriage == c) ≡ false = ground arith in
    let rest = includes-append s t (ground arith) k in rw first rest

-- Empty cells around a text
abbrev pub centred : ℕ → Text → ℕ → List Text
centred l t r = replicate l [] ++ t ∷ replicate r []

row_text-right :
    (t : Text) (r : ℕ) → IsPlain t → row_text (t ∷ replicate r []) ≡ t ++ replicate r comma
unfolding join escape_csv
row_text-right t zero h = escape-plain t h ∙ sym (append-nil t)
row_text-right t (suc r) h =
    ap (λ e. e ++ comma ∷ row_text ([] ∷ replicate r [])) (escape-plain t h)
    ∙ ap (λ e. t ++ comma ∷ e) (row_text-right [] r refl)

row_text-centred :
    (l : ℕ) (t : Text) (r : ℕ)
    → IsPlain t
    → row_text (centred l t r) ≡ replicate l comma ++ (t ++ replicate r comma)
unfolding join escape_csv
row_text-centred zero t r h = row_text-right t r h
row_text-centred (suc zero) t r h = ap (λ e. comma ∷ e) (row_text-right t r h)
row_text-centred (suc (suc l)) t r h = ap (λ e. comma ∷ e) (row_text-centred (suc l) t r h)

-- The cells of the device's line, before they are escaped
abbrev put : Text → Text → ℕ → List Text → List Text
put label text i row = if is_blank text then row else set row i (label ++ text)

abbrev pub header_cells : ℕ → (device_id name location : Text) → List Text
header_cells total device_id name location =
    let row = set (replicate total []) 0 (codes "Device ID: " ++ device_id) in
    if leb 11 total
    then put (codes "Location: ") location 10 (put (codes "Device Name: ") name 5 row)
    else put (codes "Location: ") location (total - 1)
        (put (codes "Device Name: ") name ((total - 1) / 2) row)

labelled-map :
    (label text : Text) (i : ℕ) (row : List Text)
    → labelled label text i (map escape_csv row) ≡ map escape_csv (put label text i row)
labelled-map label [] i row = refl
labelled-map label (c ∷ s) i row = sym (map-set escape_csv row i (label ++ c ∷ s))

first_cell :
    (total : ℕ) (t : Text)
    → set (replicate total []) 0 (escape_csv t) ≡ map escape_csv (set (replicate total []) 0 t)
unfolding escape_csv
first_cell zero t = refl
first_cell (suc n) t = ap (λ r. escape_csv t ∷ r) (sym (map-replicate escape_csv n []))

device_header-map :
    (total : ℕ) (device_id name location : Text)
    → device_header total device_id name location
      ≡ map escape_csv (header_cells total device_id name location)
device_header-map total device_id name location =
    let title = codes "Device ID: " ++ device_id in
    let row = set (replicate total []) 0 title in
    rw (first_cell total title) (elim (Bool-cases (leb 11 total)) [
      | inl wide ↦
          rw (wide, labelled-map (codes "Device Name: ") name 5 row)
            (labelled-map (codes "Location: ") location 10 (put (codes "Device Name: ") name 5 row))
      | inr narrow ↦
          rw (narrow, labelled-map (codes "Device Name: ") name ((total - 1) / 2) row)
            (labelled-map (codes "Location: ") location (total - 1)
              (put (codes "Device Name: ") name ((total - 1) / 2) row))
    ])

choice-IsPlain : (b : Bool) (s t : Text) → IsPlain s → IsPlain t → IsPlain (if b then s else t)
choice-IsPlain true s t h k = h
choice-IsPlain false s t h k = k

column_label-IsPlain : (c : Column) → IsPlain (column_label c)
column_label-IsPlain date = refl
column_label-IsPlain time = refl
column_label-IsPlain device = refl
column_label-IsPlain (metric p) = choice-IsPlain (p == 0) _ _ refl (
    choice-IsPlain (p == 1) _ _ refl (
      choice-IsPlain (p == 2) _ _ refl (
        choice-IsPlain (p == 3) _ _ refl (
          choice-IsPlain (p == 4) _ _ refl
            (choice-IsPlain (p == 5) _ _ refl (choice-IsPlain (p == 6) _ _ refl refl))))))

-- Plain cells are written as they stand.
plain_cells :
    {A : Type 0} (f : A → Text) (xs : List A)
    → ((x : A) → IsPlain (f x))
    → row_text (map f xs) ≡ join comma (map f xs)
plain_cells f xs h = ap (join comma) (same f xs h)
  where
    same :
        {A : Type 0} (f : A → Text) (xs : List A)
        → ((x : A) → IsPlain (f x))
        → map escape_csv (map f xs) ≡ map f xs
    same f [] h = refl
    same f (x ∷ xs) h = rw (escape-plain (f x) (h x), same f xs h) refl

-- No cell of these rows holds a carriage return.
replicate-IsWhole : (n : ℕ) → All IsWhole (replicate n [])
replicate-IsWhole zero = tt
replicate-IsWhole (suc n) = (refl, replicate-IsWhole n)

centred-IsWhole : (l : ℕ) (t : Text) (r : ℕ) → IsWhole t → All IsWhole (centred l t r)
centred-IsWhole zero t r h = (h, replicate-IsWhole r)
centred-IsWhole (suc l) t r h = (refl, centred-IsWhole l t r h)

set-IsWhole :
    (xs : List Text) (i : ℕ) (v : Text) → All IsWhole xs → IsWhole v → All IsWhole (set xs i v)
set-IsWhole [] i v h k = tt
set-IsWhole (x ∷ xs) zero v (h, hs) k = (k, hs)
set-IsWhole (x ∷ xs) (suc i) v (h, hs) k = (h, set-IsWhole xs i v hs k)

put-IsWhole :
    (label text : Text) (i : ℕ) (row : List Text)
    → IsWhole label
    → IsWhole text
    → All IsWhole row
    → All IsWhole (put label text i row)
put-IsWhole label [] i row h k w = w
put-IsWhole label (c ∷ s) i row h k w =
    set-IsWhole row i (label ++ c ∷ s) w (includes-append label (c ∷ s) h k)

header_cells-IsWhole :
    (total : ℕ) (device_id name location : Text)
    → IsWhole device_id
    → IsWhole name
    → IsWhole location
    → All IsWhole (header_cells total device_id name location)
header_cells-IsWhole total device_id name location d n l =
    let row =
      set-IsWhole (replicate total []) 0 (codes "Device ID: " ++ device_id)
        (replicate-IsWhole total) (includes-append (codes "Device ID: ") device_id refl d) in
    elim (Bool-cases (leb 11 total)) [
      | inl e ↦ rw e (
          put-IsWhole (codes "Location: ") location 10 _ refl l
            (put-IsWhole (codes "Device Name: ") name 5 _ refl n row))
      | inr e ↦ rw e (
          put-IsWhole (codes "Location: ") location (total - 1) _ refl l
            (put-IsWhole (codes "Device Name: ") name ((total - 1) / 2) _ refl n row))
    ]

map-IsWhole :
    {A : Type 0} (f : A → Text) (xs : List A) → ((x : A) → IsPlain (f x)) → All IsWhole (map f xs)
map-IsWhole f [] h = tt
map-IsWhole f (x ∷ xs) h = (plain-IsWhole (f x) (h x), map-IsWhole f xs h)

module _ (display : ℕ → Text) where
  -- Dates, numbers and device ids hold no special character.
  abbrev pub IsPlainRow : FormattedRow → Type 0
  IsPlainRow row =
      IsPlain row.date
      × IsPlain row.time
      × IsPlain (display row.device_id)
      × ((p : ℕ) → IsPlain (or_empty (row.value p)))

  cell-IsPlain : (row : FormattedRow) → IsPlainRow row → (c : Column) → IsPlain (cell display row c)
  cell-IsPlain row (d, t, i, v) date = d
  cell-IsPlain row (d, t, i, v) time = t
  cell-IsPlain row (d, t, i, v) device = i
  cell-IsPlain row (d, t, i, v) (metric p) = v p

  abbrev pub data_cells : List Column → ℕ → List FormattedRow → List (List Text)
  data_cells cols total [] = replicate total [] ∷ []
  data_cells cols total (row ∷ rows) = map (λ r. map (cell display r) cols) (row ∷ rows)

  -- The table of a report
  abbrev pub report_table :
      (parameters : List ℕ) (device_id : ℕ) (name location range : Text)
      → List FormattedRow
      → List (List Text)
  report_table parameters device_id name location range rows =
      let cols = columns parameters in
      let total = total_of cols in
      let left = (total - 1) / 2 in
      let right = total - 1 - left in
      centred left (codes "GBI Air Quality Monitor - Report") right
      ∷ replicate total []
      ∷ centred left range right
      ∷ replicate total []
      ∷ header_cells total (display device_id) name location
      ∷ replicate total []
      ∷ map column_label cols
      ∷ data_cells cols total (select (of_device display device_id) rows)

  empty_row : (n : ℕ) → row_text (replicate (suc n) []) ≡ empty_line (suc n)
  empty_row n = row_text-right [] n refl ∙ ap (λ k. replicate k comma) (omega arith)

  data_lines-map :
      (cols : List Column) (n : ℕ) (rows : List FormattedRow)
      → All IsPlainRow rows
      → data_lines display cols (suc n) rows ≡ map row_text (data_cells cols (suc n) rows)
  data_lines-map cols n [] h = ap (λ l. l ∷ []) (sym (empty_row n))
  data_lines-map cols n (row ∷ rows) h = all (row ∷ rows) h
    where
      all :
          (rows : List FormattedRow)
          → All IsPlainRow rows
          → map (row_line display cols) rows
            ≡ map row_text (map (λ r. map (cell display r) cols) rows)
      all [] h = refl
      all (r ∷ rest) (h, k) =
          rw (plain_cells (cell display r) cols (cell-IsPlain r h), all rest k) refl

  All-select :
      (p : FormattedRow → Bool) (rows : List FormattedRow)
      → All IsPlainRow rows
      → All IsPlainRow (select p rows)
  All-select p [] h = tt
  All-select p (r ∷ rest) (h, k) = elim (Bool-cases (p r)) [
    | inl e ↦ rw e (h, All-select p rest k)
    | inr e ↦ rw e (All-select p rest k)
  ]

  -- Every line of the report is the text of a row of its table.
  csv_lines-map :
      (parameters : List ℕ) (device_id : ℕ) (name location range : Text) (rows : List FormattedRow)
      → IsPlain range
      → All IsPlainRow rows
      → csv_lines display parameters device_id name location range rows
        ≡ map row_text (report_table parameters device_id name location range rows)
  unfolding csv_lines
  csv_lines-map parameters device_id name location range rows h k =
      let cols = columns parameters in
      let n = total_of (time ∷ device ∷ map metric (ordered_params parameters)) in
      let left = (suc n - 1) / 2 in
      let right = suc n - 1 - left in
      let title = codes "GBI Air Quality Monitor - Report" in
      rw
        (
          row_text-centred left title right refl,
          row_text-centred left range right h,
          empty_row n,
          ← device_header-map (suc n) (display device_id) name location,
          plain_cells column_label cols column_label-IsPlain,
          ← data_lines-map cols n (select (of_device display device_id) rows)
              (All-select (of_device display device_id) rows k),
        )
        refl

  centred_ne : (l : ℕ) (t : Text) (r : ℕ) → centred l t r ≢ []
  centred_ne zero t r = cc
  centred_ne (suc l) t r = cc

  set_ne : (xs : List Text) (i : ℕ) (v : Text) → xs ≢ [] → set xs i v ≢ []
  set_ne [] i v h = h
  set_ne (x ∷ xs) zero v h = cc
  set_ne (x ∷ xs) (suc i) v h = cc

  put_ne : (label text : Text) (i : ℕ) (row : List Text) → row ≢ [] → put label text i row ≢ []
  put_ne label [] i row h = h
  put_ne label (c ∷ s) i row h = set_ne row i (label ++ c ∷ s) h

  header_cells_ne :
      (n : ℕ) (device_id name location : Text) → header_cells (suc n) device_id name location ≢ []
  header_cells_ne n device_id name location = elim (Bool-cases (leb 11 (suc n))) [
    | inl e ↦ rw e (
        put_ne (codes "Location: ") location 10 _ (
          put_ne (codes "Device Name: ") name 5 _
            (set_ne (replicate (suc n) []) 0 (codes "Device ID: " ++ device_id) (cc))))
    | inr e ↦ rw e (
        put_ne (codes "Location: ") location (suc n - 1) _ (
          put_ne (codes "Device Name: ") name ((suc n - 1) / 2) _
            (set_ne (replicate (suc n) []) 0 (codes "Device ID: " ++ device_id) (cc))))
  ]

  data_cells-IsTable :
      (c : Column) (cols : List Column) (n : ℕ) (rows : List FormattedRow)
      → All IsPlainRow rows
      → IsTable (data_cells (c ∷ cols) (suc n) rows)
  data_cells-IsTable c cols n [] h = (cc, replicate-IsWhole (suc n), tt)
  data_cells-IsTable c cols n (row ∷ rows) h = all (row ∷ rows) h
    where
      all :
          (rows : List FormattedRow)
          → All IsPlainRow rows
          → IsTable (map (λ r. map (cell display r) (c ∷ cols)) rows)
      all [] h = tt
      all (r ∷ rest) (h, k) =
          (cc, map-IsWhole (cell display r) (c ∷ cols) (cell-IsPlain r h), all rest k)

  -- Where the range of dates and the cells of the rows hold no comma, quote, newline or carriage
  -- return, and the id, the name and the location of the device hold no carriage return, the
  -- text of a CSV report is a byte order mark and a body that a reader of CSV, to which a
  -- newline or a carriage return outside of quotes ends a line, reads back as the table of the
  -- report: the centred titles, the line with the device's id, name and location, the column
  -- labels, and the rows of the device.
  pub read_csv-csv_text :
      (parameters : List ℕ) (device_id : ℕ) (name location range : Text) (rows : List FormattedRow)
      → IsPlain range
      → IsWhole (display device_id)
      → IsWhole name
      → IsWhole location
      → All IsPlainRow rows
      → (body : Text) × (csv_text display parameters device_id name location range rows
          ≡ 65279 ∷ body)
        × (read_csv body ≡ report_table parameters device_id name location range rows)
  unfolding csv_text
  read_csv-csv_text parameters device_id name location range rows h wd wn wl k =
      let cols = columns parameters in
      let n = total_of (time ∷ device ∷ map metric (ordered_params parameters)) in
      let left = (suc n - 1) / 2 in
      let right = suc n - 1 - left in
      let title = codes "GBI Air Quality Monitor - Report" in
      (
        join newline (csv_lines display parameters device_id name location range rows),
        refl,
        rw (csv_lines-map parameters device_id name location range rows h k) (
            read_csv-lines_text (centred left title right)
              (replicate (suc n) []
                ∷ centred left range right
                ∷ replicate (suc n) []
                ∷ header_cells (suc n) (display device_id) name location
                ∷ replicate (suc n) []
                ∷ map column_label cols
                ∷ data_cells cols (suc n) (select (of_device display device_id) rows))
              (
                centred_ne left title right,
                centred-IsWhole left title right refl,
                (
                  cc,
                  replicate-IsWhole (suc n),
                  (
                    centred_ne left range right,
                    centred-IsWhole left range right (plain-IsWhole range h),
                    (
                      cc,
                      replicate-IsWhole (suc n),
                      (
                        header_cells_ne n (display device_id) name location,
                        header_cells-IsWhole (suc n) (display device_id) name location wd wn wl,
                        (
                          cc,
                          replicate-IsWhole (suc n),
                          (
                            cc,
                            map-IsWhole column_label cols column_label-IsPlain,
                            data_cells-IsTable date
                                (time ∷ device ∷ map metric (ordered_params parameters)) n
                                (select (of_device display device_id) rows)
                                (All-select (of_device display device_id) rows k),
                          ),
                        ),
                      ),
                    ),
                  ),
                ),
              )),
      )
