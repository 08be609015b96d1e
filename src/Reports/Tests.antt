-- ===== src/Reports/Tests.antt =====
-- Runs of the reports (src/reports/reports.service.ts and src/reports/reports.scheduler.ts).
use gbi_backend.Base.{◌<◌, ◌≤◌}
use gbi_backend.Base.{
  ℕ, ◌≡◌, ◌↔◌, refl, Bool, Option, none, some, [], ◌∷◌, ◌++◌, Text, All, Memᴰ, ◌==◌, if◌then◌else◌,
  arith,
}
use gbi_backend.Base.Texts.{codes}
use gbi_backend.Http.{ok}
use gbi_backend.Prisma.Memory.{memory}
use gbi_backend.Reports.{
  or_empty, FormattedRow, GeneratedReport, csv, State, Status, csv_text, get_report_status,
  cleanup_expired_reports,
}
use gbi_backend.Reports.Table.{read_csv, escape_csv}
use gbi_backend.Reports.Csv.{IsPlain, report_table, read_csv-csv_text}
use gbi_backend.Reports.Jobs.{
  IsReady, IsRefused, get_report_status_iff, cleanup_expired_reports_exact,
}

abbrev shown : ℕ → Text
shown id = if id == 70 then codes "GBI-070" else codes "GBI-001"

abbrev row : ℕ → FormattedRow
row id = record {
  device_id = id;
  date = codes "01-02-2026";
  time = codes "10:00";
  value = λ p. if p == 0 then some (codes "12") else none;
}

escape_runs : escape_csv (codes "Hall, \"A\"") ≡ codes "\"Hall, \"\"A\"\"\""
unfolding escape_csv
escape_runs = refl

read_runs :
    read_csv (codes "a,\"b,\"\"c\",\nd")
    ≡ (codes "a" ∷ codes "b,\"c" ∷ [] ∷ []) ∷ (codes "d" ∷ []) ∷ []
unfolding read_csv
read_runs = refl

-- A carriage return is not escaped, and cuts the cell in two.
cut_runs :
    read_csv (escape_csv (codes "a" ++ 13 ∷ codes "b")) ≡ (codes "a" ∷ []) ∷ (codes "b" ∷ []) ∷ []
unfolding read_csv escape_csv
cut_runs = refl

-- A report of one metric, for a device whose name holds a comma
read_csv-csv_text_example :
    (body : Text) × (csv_text shown
        (0 ∷ [])
        70
        (codes "Hall, A")
        (codes "Pune")
        (codes "today")
        (row 70 ∷ row 1 ∷ [])
      ≡ 65279 ∷ body)
    × (read_csv body
        ≡ report_table shown
            (0 ∷ [])
            70
            (codes "Hall, A")
            (codes "Pune")
            (codes "today")
            (row 70 ∷ row 1 ∷ []))
read_csv-csv_text_example =
    read_csv-csv_text shown (0 ∷ []) 70 (codes "Hall, A") (codes "Pune") (codes "today")
      (row 70 ∷ row 1 ∷ []) refl refl refl refl
      ((refl, refl, refl, plain), ((refl, refl, refl, plain), tt))
  where
    plain : (p : ℕ) → IsPlain (or_empty (if p == 0 then some (codes "12") else none))
    plain p = ground arith

abbrev report : ℕ → ℕ → Option ℕ → GeneratedReport
report id expires_at key = record {
  id = id;
  user_id = 1;
  type = csv;
  file_key = key;
  expires_at = expires_at;
}

abbrev archive : State
archive = record {
  devices = [];
  assignments = [];
  reports =
      report 5 100 (some 5)
      ∷ report 6 300 (some 6)
      ∷ report 7 100 none
      ∷ report 8 100 (some 8)
      ∷ [];
  jobs = [];
  files = 5 ∷ 6 ∷ 8 ∷ [];
}

abbrev refusing : ℕ → Bool
refusing key = key == 8

cleanup_runs :
    (cleanup_expired_reports memory refusing 200 archive).reports
    ≡ report 6 300 (some 6) ∷ report 8 100 (some 8) ∷ []
unfolding cleanup_expired_reports
cleanup_runs = refl

cleanup_expired_reports_exact_example :
    All
      (λ r. r.expires_at < 200 → IsRefused memory refusing r)
      (cleanup_expired_reports memory refusing 200 archive).reports
    × ((r : GeneratedReport)
        → Memᴰ r archive.reports
        → 200 ≤ r.expires_at
        → Memᴰ r (cleanup_expired_reports memory refusing 200 archive).reports)
cleanup_expired_reports_exact_example = cleanup_expired_reports_exact memory refusing 200 archive (
  ((λ e. absurd (omega arith)), ((λ e. absurd (omega arith)), ((λ e. absurd (omega arith)), tt))),
  (
    ((λ e. absurd (omega arith)), ((λ e. absurd (omega arith)), tt)),
    (((λ e. absurd (omega arith)), tt), (tt, tt)),
  ),
)

get_report_status_iff_example :
    ((get_report_status memory 1 6 archive).0 ≡ ok (Status.completed 6))
    ↔ IsReady memory 1 6 6 archive
get_report_status_iff_example = get_report_status_iff memory 1 6 6 archive
