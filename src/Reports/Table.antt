-- ===== src/Reports/Table.antt =====
-- The cells of a CSV report: `escapeCsv` of src/reports/reports.service.ts, and a reader of CSV
-- texts that is written independently of it: outside of quotes, a newline, a carriage return, and
-- both in this order end a line.
use gbi_backend.Base.{
  ℕ, All, ◌≡◌, ◌≢◌, refl, ap, ◌∙◌, inl, inr, ◌⊎◌, Bool, false, ◌||◌, List, [], ◌∷◌, ◌++◌, map, Text,
  ◌==◌, if◌then◌else◌, Bool-cases, arith,
}
use gbi_backend.Base.Texts.{comma, newline, quote, includes, join}
use mathlib.Core.List.{append_assoc, append-nil}

-- `str.replace(/"/g, '""')`
unfoldable pub doubled : Text → Text
doubled [] = []
doubled (c ∷ s) = let rest = doubled s in if c == quote then quote ∷ quote ∷ rest else c ∷ rest

unfoldable pub escape_csv : Text → Text
unfolding doubled
escape_csv s =
    if includes comma s || includes quote s || includes newline s
    then quote ∷ (doubled s ++ quote ∷ [])
    else s

pub data Mode : Type 0 where
  fresh after_cr plain quoted closing : Mode

-- `\r`, which ends a line of CSV alone and before a newline
abbrev pub carriage : ℕ
carriage = 13

-- The reader: the mode, the cell, the row and the rows so far, and the text that is left.
unfoldable pub read : Mode → Text → List Text → List (List Text) → Text → List (List Text)
read m cell row rows [] = rows ++ (row ++ cell ∷ []) ∷ []
read quoted cell row rows (c ∷ s) =
    let close = read closing cell row rows s in
    let more = read quoted (cell ++ c ∷ []) row rows s in if c == quote then close else more
read m cell row rows (c ∷ s) =
    let cell_done = read fresh [] (row ++ cell ∷ []) rows s in
    let cr_done = read after_cr [] [] (rows ++ (row ++ cell ∷ []) ∷ []) s in
    let skipped = read fresh cell row rows s in
    let row_done = read fresh [] [] (rows ++ (row ++ cell ∷ []) ∷ []) s in
    let more = read plain (cell ++ c ∷ []) row rows s in
    let open_quote = read quoted cell row rows s in
    let escaped_quote = read quoted (cell ++ quote ∷ []) row rows s in
    if c == comma
    then cell_done
    else if c == carriage
    then cr_done
    else if c == newline
    then elim m [ after_cr ↦ skipped | _ ↦ row_done ]
    else if c == quote
    then elim m [ fresh ↦ open_quote | after_cr ↦ open_quote | closing ↦ escaped_quote | _ ↦ more ]
    else more

unfoldable pub read_csv : Text → List (List Text)
unfolding read
read_csv s = read fresh [] [] [] s

abbrev pub special : Text → Bool
special s = includes comma s || includes quote s || includes newline s

-- No carriage return
abbrev pub IsWhole : Text → Type 0
IsWhole t = includes carriage t ≡ false

-- A text without special characters is read as it stands.
read-plain :
    (t cell : Text) (row : List Text) (rows : List (List Text)) (rest : Text)
    → special t ≡ false
    → IsWhole t
    → read plain cell row rows (t ++ rest) ≡ read plain (cell ++ t) row rows rest
unfolding read
read-plain [] cell row rows rest h w = rw append-nil
read-plain (c ∷ t) cell row rows rest h w =
    ground (arith, read-plain t (cell ++ c ∷ []) row rows rest, append_assoc cell (c ∷ []) t)

-- So is the inside of a quoted cell.
read-doubled :
    (t cell : Text) (row : List Text) (rows : List (List Text)) (rest : Text)
    → read quoted cell row rows (doubled t ++ quote ∷ rest) ≡ read closing (cell ++ t) row rows rest
unfolding read doubled
read-doubled [] cell row rows rest = rw append-nil
read-doubled (c ∷ t) cell row rows rest =
    ground (arith, read-doubled t (cell ++ c ∷ []) row rows rest, append_assoc cell (c ∷ []) t)

-- What may follow a cell
abbrev IsEnd : Text → Type 0
IsEnd rest = (rest ≡ []) ⊎ (((s : Text) × (rest ≡ comma ∷ s)) ⊎ ((s : Text) × (rest ≡ newline ∷ s)))

at_end :
    (m : Mode) (cell : Text) (row : List Text) (rows : List (List Text)) (rest : Text)
    → m ≢ quoted
    → m ≢ after_cr
    → IsEnd rest
    → read m cell row rows rest ≡ read plain cell row rows rest
unfolding read
at_end m cell row rows rest h k (inl e) = rw e refl
at_end fresh cell row rows rest h k (inr (inl (s, e))) = rw e refl
at_end plain cell row rows rest h k (inr (inl (s, e))) = refl
at_end after_cr cell row rows rest h k (inr (inl (s, e))) = absurd (k refl)
at_end quoted cell row rows rest h k (inr (inl (s, e))) = absurd (h refl)
at_end closing cell row rows rest h k (inr (inl (s, e))) = rw e refl
at_end fresh cell row rows rest h k (inr (inr (s, e))) = rw e refl
at_end plain cell row rows rest h k (inr (inr (s, e))) = refl
at_end after_cr cell row rows rest h k (inr (inr (s, e))) = absurd (k refl)
at_end quoted cell row rows rest h k (inr (inr (s, e))) = absurd (h refl)
at_end closing cell row rows rest h k (inr (inr (s, e))) = rw e refl

read-unquoted :
    (t : Text) (row : List Text) (rows : List (List Text)) (rest : Text)
    → special t ≡ false
    → IsWhole t
    → IsEnd rest
    → read fresh [] row rows (t ++ rest) ≡ read plain t row rows rest
unfolding read
read-unquoted [] row rows rest h w e = at_end fresh [] row rows rest (cc) (cc) e
read-unquoted (c ∷ t) row rows rest h w e = ground (arith, read-plain t (c ∷ []) row rows rest)

-- A cell that was escaped is read as it was.
read-escape_csv :
    (t : Text) (row : List Text) (rows : List (List Text)) (rest : Text)
    → IsWhole t
    → IsEnd rest
    → read fresh [] row rows (escape_csv t ++ rest) ≡ read plain t row rows rest
unfolding escape_csv
read-escape_csv t row rows rest w e = elim (Bool-cases (special t)) [
  | inr p ↦ rw p (read-unquoted t row rows rest p w e)
  | inl p ↦ rw p (opened t ∙ at_end closing t row rows rest (cc) (cc) e)
]
  where
    opened :
        (t : Text)
        → read fresh [] row rows ((quote ∷ (doubled t ++ quote ∷ [])) ++ rest)
          ≡ read closing t row rows rest
    opened t =
        unfold read in
        rw (append_assoc (doubled t) (quote ∷ []) rest) (read-doubled t [] row rows rest)

-- The cells of a row in the text, and what may follow them: nothing, or another line.
abbrev pub row_text : List Text → Text
row_text row = join comma (map escape_csv row)

data Next : Type 0 where
  nothing : Next
  line : Text → Next

abbrev tail : Next → Text
tail nothing = []
tail (line s) = newline ∷ s

abbrev then_read : List (List Text) → Next → List (List Text)
then_read rows nothing = rows
then_read rows (line s) = read fresh [] [] rows s

tail-IsEnd : (n : Next) → IsEnd (tail n)
tail-IsEnd nothing = inl refl
tail-IsEnd (line s) = inr (inr (s, refl))

end_of_row :
    (cell : Text) (row : List Text) (rows : List (List Text)) (n : Next)
    → read plain cell row rows (tail n) ≡ then_read (rows ++ (row ++ cell ∷ []) ∷ []) n
unfolding read
end_of_row cell row rows nothing = refl
end_of_row cell row rows (line s) = refl

read-row :
    (x : Text) (xs done : List Text) (rows : List (List Text)) (n : Next)
    → All IsWhole (x ∷ xs)
    → read fresh [] done rows (row_text (x ∷ xs) ++ tail n)
      ≡ then_read (rows ++ (done ++ x ∷ xs) ∷ []) n
unfolding join
read-row x [] done rows n (w, ws) =
    read-escape_csv x done rows (tail n) w (tail-IsEnd n) ∙ end_of_row x done rows n
read-row x (y ∷ ys) done rows n (w, ws) =
    let rest = row_text (y ∷ ys) ++ tail n in
    let cells = append_assoc done (x ∷ []) (y ∷ ys) in
    rw (append_assoc (escape_csv x) (comma ∷ row_text (y ∷ ys)) (tail n)) (
      read-escape_csv x done rows (comma ∷ rest) w (inr (inl (rest, refl)))
      ∙ next_cell x done rows rest
      ∙ read-row y ys (done ++ x ∷ []) rows n ws
      ∙ ap (λ cs. then_read (rows ++ cs ∷ []) n) cells)
  where
    next_cell :
        (x : Text) (done : List Text) (rows : List (List Text)) (rest : Text)
        → read plain x done rows (comma ∷ rest) ≡ read fresh [] (done ++ x ∷ []) rows rest
    next_cell x done rows rest = unfold read in refl

-- Every row has a cell, and no cell holds a carriage return.
abbrev pub IsTable : List (List Text) → Type 0
IsTable [] = Unit {0}
IsTable (row ∷ rows) = (row ≢ []) × All IsWhole row × IsTable rows

-- The lines of a table
abbrev pub lines_text : List (List Text) → Text
lines_text rows = join newline (map row_text rows)

read-lines :
    (row : List Text) (more done : List (List Text))
    → IsTable (row ∷ more)
    → read fresh [] [] done (lines_text (row ∷ more)) ≡ done ++ row ∷ more
unfolding join
read-lines [] more done (h, w, t) = absurd (h refl)
read-lines (x ∷ xs) [] done (h, w, t) =
    rw (← append-nil (row_text (x ∷ xs))) (read-row x xs [] done nothing w)
read-lines (x ∷ xs) (row ∷ more) done (h, w, t) =
    read-row x xs [] done (line (lines_text (row ∷ more))) w
    ∙ read-lines row more (done ++ (x ∷ xs) ∷ []) t
    ∙ append_assoc done ((x ∷ xs) ∷ []) (row ∷ more)

-- A table is read back from its escaped text.
pub read_csv-lines_text :
    (row : List Text) (more : List (List Text))
    → IsTable (row ∷ more)
    → read_csv (lines_text (row ∷ more)) ≡ row ∷ more
unfolding read_csv
read_csv-lines_text row more h = read-lines row more [] h
