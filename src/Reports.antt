-- ===== src/Reports.antt =====
-- Reports: src/reports/reports.service.ts, src/reports/reports.processor.ts and
-- src/reports/reports.scheduler.ts. The bucketed query, the texts of dates and numbers, and the job
-- queue are arguments.
pub mod Table
pub mod Csv
pub mod Jobs
mod Tests
use gbi_backend.Base.{
  not, ℕ, suc, ◌+◌, ◌-◌, ◌/◌, Bool, true, false, ◌&&◌, Option, none, some, List, [], ◌∷◌, ◌++◌, map,
  Text, ltb, leb, ◌==◌, is_some, if◌then◌else◌, select, update_where, remove_where,
}
use gbi_backend.Base.Texts.{codes, comma, newline, join, replicate, set}
use gbi_backend.Http.{
  Action, pure, throw, throw_if, gets, or_throw, modify, ◌>>=◌, ◌>>◌, bad_request, forbidden,
  invalid_timestamp, no_device, not_assigned, report_not_found, report_access, no_job, internal,
  record_not_found,
}
use gbi_backend.Prisma.{Prisma}
use gbi_backend.Alerts.{Assignment}
use gbi_backend.Devices.{Device, has_device_id, assigned_to}
use gbi_backend.Reports.Table.{escape_csv}

-- A row of `formatTelemetryRows`, each number as its text.
pub record FormattedRow : Type 0 where
  pub device_id : ℕ
  pub date : Text
  pub time : Text
  pub value : ℕ → Option Text

pub data Column : Type 0 where
  date time device : Column
  metric : ℕ → Column

-- The columns that CANONICAL_ORDER names, under the numbers of the metrics.
abbrev pub canonical_order : List ℕ
canonical_order = 7 ∷ 0 ∷ 1 ∷ 2 ∷ 3 ∷ 4 ∷ 5 ∷ 6 ∷ []

abbrev pub contains : List ℕ → ℕ → Bool
contains [] p = false
contains (q ∷ rest) p = let later = contains rest p in if q == p then true else later

abbrev pub ordered_params : List ℕ → List ℕ
ordered_params parameters = select (contains parameters) canonical_order

abbrev pub columns : List ℕ → List Column
columns parameters = date ∷ time ∷ device ∷ map metric (ordered_params parameters)

-- CSV_COLUMN_LABELS
abbrev pub metric_label : ℕ → Text
metric_label p =
    if p == 0
    then codes "PM2.5 (µg/m³)"
    else if p == 1
    then codes "PM10 (µg/m³)"
    else if p == 2
    then codes "TVOC (ppb)"
    else if p == 3
    then codes "CO2 (ppm)"
    else if p == 4
    then codes "Temperature (°C)"
    else if p == 5
    then codes "Humidity (%)"
    else if p == 6
    then codes "Noise (dB)"
    else codes "AQI"

abbrev pub column_label : Column → Text
column_label date = codes "Date"
column_label time = codes "Time"
column_label device = codes "deviceId"
column_label (metric p) = metric_label p

abbrev pub or_empty : Option Text → Text
or_empty none = []
or_empty (some t) = t

abbrev pub is_blank : Text → Bool
is_blank [] = true
is_blank (c ∷ s) = false

-- `centerText`
abbrev pub center_text : ℕ → Text → Text
center_text total text =
    let left = (total - 1) / 2 in
    replicate left comma ++ (text ++ replicate (total - 1 - left) comma)

abbrev pub empty_line : ℕ → Text
empty_line total = replicate (total - 1) comma

abbrev pub labelled : Text → Text → ℕ → List Text → List Text
labelled label text i row = if is_blank text then row else set row i (escape_csv (label ++ text))

-- The line with the device's id, name and location. There are at least three columns.
abbrev pub device_header : ℕ → (device_id name location : Text) → List Text
device_header total device_id name location =
    let row = set (replicate total []) 0 (escape_csv (codes "Device ID: " ++ device_id)) in
    if leb 11 total
    then labelled (codes "Location: ") location 10 (labelled (codes "Device Name: ") name 5 row)
    else labelled (codes "Location: ") location (total - 1)
        (labelled (codes "Device Name: ") name ((total - 1) / 2) row)

abbrev pub total_of : List Column → ℕ
total_of [] = 0
total_of (c ∷ cols) = suc (total_of cols)

module _ (display : ℕ → Text) where
  abbrev pub cell : FormattedRow → Column → Text
  cell row date = row.date
  cell row time = row.time
  cell row device = display row.device_id
  cell row (metric p) = or_empty (row.value p)

  abbrev pub row_line : List Column → FormattedRow → Text
  row_line cols row = join comma (map (cell row) cols)

  abbrev pub of_device : ℕ → FormattedRow → Bool
  of_device device_id row = row.device_id == device_id

  abbrev pub data_lines : List Column → ℕ → List FormattedRow → List Text
  data_lines cols total [] = empty_line total ∷ []
  data_lines cols total (row ∷ rows) = map (row_line cols) (row ∷ rows)

  -- The lines of the file, from the title on; `range` is the text of the two dates.
  unfoldable pub csv_lines :
      (parameters : List ℕ) (device_id : ℕ) (name location range : Text)
      → List FormattedRow
      → List Text
  csv_lines parameters device_id name location range rows =
      let cols = columns parameters in
      let total = total_of cols in
      center_text total (codes "GBI Air Quality Monitor - Report")
      ∷ empty_line total
      ∷ center_text total range
      ∷ empty_line total
      ∷ join comma (device_header total (display device_id) name location)
      ∷ empty_line total
      ∷ join comma (map column_label cols)
      ∷ data_lines cols total (select (of_device device_id) rows)

  unfoldable pub csv_text :
      (parameters : List ℕ) (device_id : ℕ) (name location range : Text) → List FormattedRow → Text
  unfolding csv_lines
  csv_text parameters device_id name location range rows =
      65279 ∷ join newline (csv_lines parameters device_id name location range rows)

pub data ReportType : Type 0 where
  csv pdf : ReportType

pub record GeneratedReport : Type 0 where
  pub id : ℕ
  pub user_id : ℕ
  pub type : ReportType
  pub file_key : Option ℕ  -- `reports/{id}.{ext}`, under the id
  pub expires_at : ℕ

-- `job.getState()`: what is neither completed nor failed is processed.
pub data JobState : Type 0 where
  completed failed waiting : JobState

pub record Job : Type 0 where
  pub id : ℕ
  pub type : ReportType
  pub user_id : ℕ
  pub device_id : ℕ
  pub state : JobState

-- The tables, the queue, and the ids of the files on the disk.
pub record State : Type 0 where
  pub devices : List Device
  pub assignments : List Assignment
  pub reports : List GeneratedReport
  pub jobs : List Job
  pub files : List ℕ

pub data Status : Type 0 where
  completed : ℕ → Status
  failed processing : Status

abbrev pub has_report_id : ℕ → GeneratedReport → Bool
has_report_id id r = r.id == id

abbrev pub has_job_id : ℕ → Job → Bool
has_job_id id j = j.id == id

abbrev pub is_expired : ℕ → GeneratedReport → Bool
is_expired now r = ltb r.expires_at now

abbrev pub with_file : ℕ → GeneratedReport → GeneratedReport
with_file key r = record r { file_key = some key }

module _ (db : Prisma) where
  open db use {find_first, find_many, create, update_many, delete_many}

  unfoldable pub validate_and_get_device : (user_id device_id : ℕ) → Action State Device
  validate_and_get_device user_id device_id = do
    found ←
        or_throw (← gets (λ s. find_first (has_device_id device_id) s.devices)) forbidden no_device
    assignment ←
        or_throw (← gets (λ s. find_first (assigned_to user_id found.id) s.assignments)) forbidden
          not_assigned
    pure found

  -- The queue gives the job its id, or none.
  unfoldable pub enqueue_report :
      (user_id : ℕ) → ReportType → (device_id : ℕ) → Option ℕ → (now : ℕ) → Action State ℕ
  unfolding validate_and_get_device
  enqueue_report user_id type device_id job_id now = do
    found ← validate_and_get_device user_id device_id
    id ← or_throw job_id bad_request no_job
    modify (λ s. record s {
      jobs =
          create
            (record {
              id = id;
              type = type;
              user_id = user_id;
              device_id = device_id;
              state = waiting;
            })
            s.jobs;
      reports =
          create
            (record {
              id = id;
              user_id = user_id;
              type = type;
              file_key = none;
              expires_at = now + 86400000;
            })
            s.reports;
    })
    pure id

  -- the branches on the job of `getReportStatus`
  status_of : Option Job → GeneratedReport → Status
  status_of none report = elim report.file_key [ some key ↦ completed key | none ↦ failed ]
  status_of (some job) report = elim job.state [
    | completed ↦ elim report.file_key [ some key ↦ completed key | none ↦ processing ]
    | failed ↦ failed
    | waiting ↦ processing
  ]

  unfoldable pub get_report_status : (user_id job_id : ℕ) → Action State Status
  unfolding status_of
  get_report_status user_id job_id = do
    report ←
        or_throw (← gets (λ s. find_first (has_report_id job_id) s.reports)) bad_request
          report_not_found
    throw_if (not (report.user_id == user_id)) forbidden report_access
    job ← gets (λ s. find_first (has_job_id job_id) s.jobs)
    pure (status_of job report)

  -- `process`, once the file's content was generated: the file, the key in the row, and the job, which
  -- the queue removes on completion
  unfoldable pub process : ℕ → Action State (Unit {0})
  process job_id = do
    modify (λ s. record s { files = s.files ++ job_id ∷ [] })
    report ←
        or_throw (← gets (λ s. find_first (has_report_id job_id) s.reports)) internal
          record_not_found
    modify (λ s. record s {
      reports = update_many (has_report_id job_id) (with_file job_id) s.reports;
      jobs = delete_many (has_job_id job_id) s.jobs;
    })

  -- one round of the loop of `cleanupExpiredReports`; the file system may refuse to delete a file
  clean : (ℕ → Bool) → GeneratedReport → State → State
  clean refuses r s = elim r.file_key [
    | none ↦ record s { reports = delete_many (has_report_id r.id) s.reports }
    | some key ↦ if refuses key then s else record s {
      files = remove_where (λ f. f == key) s.files;
      reports = delete_many (has_report_id r.id) s.reports;
    }
  ]

  clean_all : (ℕ → Bool) → List GeneratedReport → State → State
  unfolding clean
  clean_all refuses [] s = s
  clean_all refuses (r ∷ rest) s = clean_all refuses rest (clean refuses r s)

  unfoldable pub cleanup_expired_reports : (ℕ → Bool) → ℕ → State → State
  unfolding clean_all
  cleanup_expired_reports refuses now s = clean_all refuses (find_many (is_expired now) s.reports) s
