-- ===== src/Api/Queries/Export.antt =====
-- `handleExport` of internal/api/server.go: the runs of all drives as JSON or as CSV. A row of the CSV is
-- its fields, before csv.Writer quotes them. `Formatting` is strconv, and `time.Format` with RFC 3339.
use bit_rot_detector.Base.{
  take_all, take, ap, ◌≤◌, ◌++◌, length, sym, ◌++◌, subst, ℕ, String, Bool, true, false, Option,
  none, some, List, [], ◌∷◌, ◌==◌, ◌≡◌, refl, string_eq, All, if◌then◌else◌,
}
use bit_rot_detector.Base.Moment.{Moment}
use bit_rot_detector.Storage.History.{get_run_history, read_runs, query_runs, query_table}
use bit_rot_detector.Storage.Table.{select_history}
use bit_rot_detector.Domain.{err, RunRecord}
use bit_rot_detector.Api.Queries.{ok, gather, Database, Engine, Databases, exported_runs}

pub record Formatting : Type 0 where
  pub itoa : ℕ → String
  pub rfc_3339 : Moment → String

abbrev pub csv_header : List String
csv_header =
    "id" ∷ "drive_id" ∷ "drive_name" ∷ "started_at" ∷ "duration_ms" ∷ "files_scanned"
    ∷ "files_added" ∷ "files_modified" ∷ "files_removed" ∷ "files_moved" ∷ "files_validated"
    ∷ "files_corrupted" ∷ "sync_errors" ∷ "scrub_errors" ∷ []

module _ (f : Formatting) where
  open f use {itoa, rfc_3339}

  abbrev pub csv_row : RunRecord → List String
  csv_row r =
      itoa r.id
      ∷ r.drive_id
      ∷ r.drive_name
      ∷ rfc_3339 r.started_at
      ∷ itoa r.duration_ms
      ∷ itoa r.files_scanned
      ∷ itoa r.files_added
      ∷ itoa r.files_modified
      ∷ itoa r.files_removed
      ∷ itoa r.files_moved
      ∷ itoa r.files_validated
      ∷ itoa r.files_corrupted
      ∷ itoa r.sync_errors
      ∷ itoa r.scrub_errors
      ∷ []

  abbrev pub csv_rows : List RunRecord → List (List String)
  csv_rows [] = []
  csv_rows (r ∷ runs) = csv_row r ∷ csv_rows runs

-- What is written.
pub data Export : Type 0 where
  json : List RunRecord → Export
  csv : (header : List String) → (rows : List (List String)) → Export

-- `handleExport`, of the query parameter `format`.
unfoldable pub handle_export : Formatting → Databases → String → List String → Export
handle_export f d format paths =
    let format' = if format == "" then "json" else format in
    let all = exported_runs d paths in
    if format' == "csv" then csv csv_header (csv_rows f all) else json all

infixl 5 ◌>>=◌
abbrev ◌>>=◌ {ℓ κ} : {A : Type ℓ} {B : Type κ} → Option A → (A → Option B) → Option B
none >>= f = none
some a >>= f = f a

-- A reader that finds a field by the name of its column.
unfoldable pub column : String → List String → List String → Option String
column name [] fields = none
column name (c ∷ header) [] = none
column name (c ∷ header) (field ∷ fields) =
    let rest = column name header fields in if c == name then some field else rest

module _ (atoi : String → Option ℕ) (parse_time : String → Option Moment) where
  unfoldable pub read_row : List String → List String → Option RunRecord
  unfolding column
  read_row header fields = do
    id ← column "id" header fields >>= atoi
    drive_id ← column "drive_id" header fields
    drive_name ← column "drive_name" header fields
    started_at ← column "started_at" header fields >>= parse_time
    duration_ms ← column "duration_ms" header fields >>= atoi
    files_scanned ← column "files_scanned" header fields >>= atoi
    files_added ← column "files_added" header fields >>= atoi
    files_modified ← column "files_modified" header fields >>= atoi
    files_removed ← column "files_removed" header fields >>= atoi
    files_moved ← column "files_moved" header fields >>= atoi
    files_validated ← column "files_validated" header fields >>= atoi
    files_corrupted ← column "files_corrupted" header fields >>= atoi
    sync_errors ← column "sync_errors" header fields >>= atoi
    scrub_errors ← column "scrub_errors" header fields >>= atoi
    some (record {
      id = id;
      drive_id = drive_id;
      drive_name = drive_name;
      started_at = started_at;
      duration_ms = duration_ms;
      files_scanned = files_scanned;
      files_added = files_added;
      files_modified = files_modified;
      files_removed = files_removed;
      files_moved = files_moved;
      files_validated = files_validated;
      files_corrupted = files_corrupted;
      sync_errors = sync_errors;
      scrub_errors = scrub_errors;
    })

  unfoldable pub read_rows : List String → List (List String) → Option (List RunRecord)
  unfolding read_row
  read_rows header [] = some []
  read_rows header (fields ∷ rows) = do
    r ← read_row header fields
    runs ← read_rows header rows
    some (r ∷ runs)

-- What is read from a response: the runs of one in JSON are read as they are.
unfoldable pub read_export :
    (String → Option ℕ) → (String → Option Moment) → Export → Option (List RunRecord)
read_export atoi parse_time (json runs) = some runs
read_export atoi parse_time (csv header rows) = read_rows atoi parse_time header rows

-- The runs of a database, in the order of `ORDER BY started_at DESC`.
unfoldable pub runs_at : Engine → Option Database → List RunRecord
runs_at engine none = []
runs_at engine (some db) = elim db.run_history [
  | none ↦ []
  | some runs ↦ engine.order_by_started_at_desc runs
]

-- The runs of the databases of all paths.
unfoldable pub all_runs : Engine → (String → Option Database) → List String → List RunRecord
unfolding runs_at
all_runs engine prod [] = []
all_runs engine prod (p ∷ paths) = runs_at engine (prod p) ++ all_runs engine prod paths

module _ (d : Databases) (opens : (p : String) → d.opening p ≡ none)
    (works : (db : Database) → (d.engine).fails select_history db ≡ none) where
  get_run_history-runs_at :
      (prod : Option Database) (limit : ℕ)
      → length (runs_at d.engine prod) ≤ limit
      → get_run_history d.engine none prod limit ≡ ok (runs_at d.engine prod)
  unfolding get_run_history read_runs query_runs query_table runs_at
  get_run_history-runs_at none limit small = refl
  get_run_history-runs_at (some db) limit small =
      subst
        (λ o.
          query_runs d.engine none o db
            (λ runs. take limit ((d.engine).order_by_started_at_desc runs))
          ≡ ok (runs_at d.engine (some db)))
        (sym (works db)) (table db.run_history small)
    where
      runs_in_table : Option (List RunRecord) → List RunRecord
      runs_in_table o = elim o [ none ↦ [] | some runs ↦ (d.engine).order_by_started_at_desc runs ]

      table :
          (o : Option (List RunRecord))
          → length (runs_in_table o) ≤ limit
          → query_table d.engine none o
              (λ runs. take limit ((d.engine).order_by_started_at_desc runs))
            ≡ ok (runs_in_table o)
      table none small = refl
      table (some runs) small = ap ok (take_all limit _ small)

  exported_runs-all_runs :
      (paths : List String)
      → All (λ p. length (runs_at d.engine (d.prod p)) ≤ 10_000) paths
      → exported_runs d paths ≡ all_runs d.engine d.prod paths
  unfolding exported_runs gather all_runs
  exported_runs-all_runs [] small = refl
  exported_runs-all_runs (p ∷ paths) (here, small) =
      let asked : get_run_history d.engine (d.opening p) (d.prod p) 10_000
          ≡ ok (runs_at d.engine (d.prod p)) =
        subst (λ o. get_run_history d.engine o (d.prod p) 10_000 ≡ ok (runs_at d.engine (d.prod p)))
          (sym (opens p)) (get_run_history-runs_at (d.prod p) 10_000 here) in
      let rest = exported_runs d paths in
      subst
        (λ o.
          elim o as (λ _. List RunRecord) [ err e ↦ rest | ok runs ↦ runs ++ rest ]
          ≡ runs_at d.engine (d.prod p) ++ all_runs d.engine d.prod paths)
        (sym asked)
        (ap (λ rest. runs_at d.engine (d.prod p) ++ rest) (exported_runs-all_runs paths small))

module _ (f : Formatting) (atoi : String → Option ℕ) (parse_time : String → Option Moment)
    (numbers : (n : ℕ) → atoi (f.itoa n) ≡ some n) where
  read_row-csv_row :
      (r : RunRecord)
      → parse_time (f.rfc_3339 r.started_at) ≡ some r.started_at
      → read_row atoi parse_time csv_header (csv_row f r) ≡ some r
  unfolding read_row column string_eq
  read_row-csv_row r time =
      rw
        (
          numbers r.id,
          time,
          numbers r.duration_ms,
          numbers r.files_scanned,
          numbers r.files_added,
          numbers r.files_modified,
          numbers r.files_removed,
          numbers r.files_moved,
          numbers r.files_validated,
          numbers r.files_corrupted,
          numbers r.sync_errors,
          numbers r.scrub_errors,
        )
        refl

  read_rows-csv_rows :
      (runs : List RunRecord)
      → All (λ r. parse_time (f.rfc_3339 r.started_at) ≡ some r.started_at) runs
      → read_rows atoi parse_time csv_header (csv_rows f runs) ≡ some runs
  unfolding read_rows
  read_rows-csv_rows [] times = refl
  read_rows-csv_rows (r ∷ runs) (time, times) =
      rw (read_row-csv_row r time, read_rows-csv_rows runs times) refl

  -- The reader gets what was exported.
  read_export-exported :
      (d : Databases) (format : String) (paths : List String) (runs : List RunRecord)
      → exported_runs d paths ≡ runs
      → All (λ r. parse_time (f.rfc_3339 r.started_at) ≡ some r.started_at) runs
      → read_export atoi parse_time (handle_export f d format paths) ≡ some runs
  unfolding handle_export read_export
  read_export-exported d format paths runs e times =
      subst (λ all. read_export atoi parse_time (written all) ≡ some runs) (sym e)
        (go ((if format == "" then "json" else format) == "csv"))
    where
      written : List RunRecord → Export
      written all =
          if (if format == "" then "json" else format) == "csv"
          then csv csv_header (csv_rows f all)
          else json all

      go :
          (b : Bool)
          → read_export atoi parse_time (if b then csv csv_header (csv_rows f runs) else json runs)
            ≡ some runs
      go true = read_rows-csv_rows runs times
      go false = refl

  -- If numbers are read as they were written, and so are the times of the runs, every database can be
  -- opened and queried, and none holds more than 10000 runs, then a reader that finds the fields by the names
  -- of their columns reads from the response of `handleExport`, in either format, exactly the runs of the
  -- databases of all paths: those of one path in the order of the query, the paths in their order.
  pub read_export-handle_export :
      (d : Databases) (format : String) (paths : List String)
      → ((p : String) → d.opening p ≡ none)
      → ((db : Database) → (d.engine).fails select_history db ≡ none)
      → All (λ p. length (runs_at d.engine (d.prod p)) ≤ 10_000) paths
      → All
          (λ r. parse_time (f.rfc_3339 r.started_at) ≡ some r.started_at)
          (all_runs d.engine d.prod paths)
      → read_export atoi parse_time (handle_export f d format paths)
        ≡ some (all_runs d.engine d.prod paths)
  read_export-handle_export d format paths opens works small times =
      read_export-exported d format paths (all_runs d.engine d.prod paths)
        (exported_runs-all_runs d opens works paths small) times
