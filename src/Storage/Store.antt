-- ===== src/Storage/Store.antt =====
-- The repository of internal/storage/repository.go: the files of the drive, the connection, and the
-- methods. Each call of the operating system may fail for its own reason; a statement may fail for
-- the engine's. A use of `r.db` after it was set to nil is a panic of the program, which stands here
-- as the error `nil_pointer`. A call that the context has cancelled is a statement that fails.
pub mod Files
pub mod Open
pub mod Laws
pub mod Untouched
pub mod Opened
pub mod Swap
pub mod Select
pub mod Recorded
pub mod Tests
pub use bit_rot_detector.Storage.Store.Files.{
  Disk, Connection, Store, OsCall, Os, Float64, nil_pointer, with_tables, live, closed, nil,
  remove_shadow, remove_wal, remove_shm, open_prod, create_shadow, close_empty, copy_prod,
  sync_shadow, open_sqlite, close_db, rename_shadow, read_shadow,
}
unfoldable pub use bit_rot_detector.Storage.Store.Open.{
  rolled_back, clean, copy_file, open_sqlite_error, open_shadow, open_copied, open_repository,
}
pub use bit_rot_detector.Storage.Store.Open.{remove_file, remove_sidecar}
use bit_rot_detector.Base.{
  ℕ, suc, ◌+◌, ◌-◌, ◌*◌, ◌^◌, ◌%◌, String, ◌<>◌, Bool, true, false, Option, none, some, List, [],
  ◌∷◌, ◌++◌, ltb, length, take, if◌then◌else◌,
}
use bit_rot_detector.Base.Int.{ℤ, to_int64}
use bit_rot_detector.Base.Moment.{Moment, unix, at_unix, add_signed, hour}
use bit_rot_detector.Base.Dict.{Dict}
use bit_rot_detector.Domain.{Result, ok, err, FileRecord, RunRecord, Repository}
use bit_rot_detector.Storage.Table.{
  Row, Database, blank, to_record, to_row, delete_rows, replace_row, mark_scrubbed, rows_before,
  collect_rows, Statement, journal_mode, integrity_check, create_schema, select_files,
  insert_or_replace, delete_file, select_for_scrub, update_scrub, insert_run, Engine,
}

-- The database that a statement meets, or its error.
pub query : Engine → Statement → Store → Result Database
query engine statement s = elim s.db [
  | nil ↦ err nil_pointer
  | closed ↦ err "sql: database is closed"
  | live ↦ elim (s.disk).shadow [
    | none ↦ err "unable to open database file"
    | some db ↦ elim (engine.fails statement db) [ some e ↦ err e | none ↦ ok db ]
  ]
]

abbrev write : Store → Database → Store
write s db = record s { disk = record (s.disk) { shadow = some db } }

change_table : Database → Option (List Row) → (List Row → List Row) → Store → Option String × Store
change_table db none f s = (some "no such table: files", s)
change_table db (some rows) f s = (none, write s (record db { files = some (f rows) }))

-- A statement that changes the rows of `files`.
change_files : Result Database → (List Row → List Row) → Store → Option String × Store
unfolding change_table
change_files (err e) f s = (some e, s)
change_files (ok db) f s = change_table db db.files f s

read_files : Result Database → Result (List Row)
read_files (err e) = err e
read_files (ok db) = elim db.files [ none ↦ err "no such table: files" | some rows ↦ ok rows ]

-- The columns of the INSERT: the engine numbers the rows, and the time is in whole seconds. A row of
-- run_history is held as the record that a SELECT of its columns gives.
abbrev pub recorded : Database → RunRecord → RunRecord
recorded db r = record {
  id = db.next_id;
  drive_id = r.drive_id;
  drive_name = r.drive_name;
  started_at = at_unix (unix r.started_at);
  duration_ms = r.duration_ms;
  files_scanned = r.files_scanned;
  files_added = r.files_added;
  files_modified = r.files_modified;
  files_removed = r.files_removed;
  files_moved = r.files_moved;
  files_validated = r.files_validated;
  files_corrupted = r.files_corrupted;
  sync_errors = r.sync_errors;
  scrub_errors = r.scrub_errors;
}

insert_into : RunRecord → Database → Option (List RunRecord) → Store → Option String × Store
insert_into r db none s = (some "no such table: run_history", s)
insert_into r db (some rows) s = (
  none,
  write s
      (record db { run_history = some (rows ++ (recorded db r ∷ [])); next_id = db.next_id + 1 }),
)

insert_queried : RunRecord → Result Database → Store → Option String × Store
unfolding insert_into
insert_queried r (err e) s = (some e, s)
insert_queried r (ok db) s = insert_into r db db.run_history s

-- The loop of `GetFilesForScrub`.
pub records : List Row → List FileRecord
records [] = []
records (r ∷ rows) = to_record r ∷ records rows

module _ (fl : Float64) where
  open fl use {Float, of_int, mul, div, to_int}

  -- How many of the files are selected.
  pub selected : ℕ → Float → ℕ
  selected count percentage =
      let share = to_int (div (mul (of_int count) percentage) (of_int 100)) in
      let n = if ltb 1 share then share else 1 in if ltb count n then count else n

-- `time.Now().Add(-time.Duration(days) * 24 * time.Hour).Unix()`: the duration is an int64.
pub cutoff : Moment → ℕ → ℤ
cutoff now days = unix (add_signed now (to_int64 (2 ^ 64 - days * (24 * hour) % 2 ^ 64)))

-- `WHERE`, if there is a minimum age.
pub eligible : Moment → Option ℕ → List Row → List Row
unfolding cutoff
eligible now none rows = rows
eligible now (some days) rows = rows_before (cutoff now days) rows

module _ (engine : Engine) where
  -- `GetAllFiles`
  pub get_all_files : Store → Result (Dict FileRecord)
  unfolding query read_files
  get_all_files s = elim (read_files (query engine select_files s)) [
    | err e ↦ err e
    | ok rows ↦ ok (collect_rows rows [])
  ]

  -- `UpsertFile`
  pub upsert_file : Moment → FileRecord → Store → Option String × Store
  unfolding query change_files
  upsert_file now r s =
      change_files (query engine insert_or_replace s) (replace_row (to_row now r)) s

  -- `DeleteFile`
  pub remove_row : String → Store → Option String × Store
  unfolding query change_files
  remove_row path s = change_files (query engine delete_file s) (delete_rows path) s

  -- `UpdateScrubStatus`
  unfoldable pub update_scrub_status : Moment → String → Store → Option String × Store
  unfolding query change_files
  update_scrub_status now path s =
      change_files (query engine update_scrub s) (mark_scrubbed (unix now) path) s

  -- `InsertRunHistory`
  unfoldable pub insert_run_history : RunRecord → Store → Option String × Store
  unfolding query insert_queried
  insert_run_history r s = insert_queried r (query engine insert_run s) s

  scrub_rows :
      (fl : Float64) → Moment → fl.Float → Option ℕ → Result (List Row) → Result (List FileRecord)
  unfolding records selected eligible
  scrub_rows fl now percentage min_age_days (err e) = err e
  scrub_rows fl now percentage min_age_days (ok rows) =
      let all = engine.order_by_last_scrubbed (eligible now min_age_days rows) in
      ok (records (take (selected fl (length all) percentage) all))

  -- `GetFilesForScrub`
  unfoldable pub get_files_for_scrub :
      (fl : Float64) → Moment → fl.Float → Option ℕ → Store → Result (List FileRecord)
  unfolding query read_files scrub_rows
  get_files_for_scrub fl now percentage min_age_days s =
      scrub_rows fl now percentage min_age_days (read_files (query engine select_for_scrub s))

module _ (os : Os) where
  -- `ComputeChecksum`
  pub compute_checksum : Store → Result String
  compute_checksum s = elim (s.disk).shadow [
    | none ↦ err "no such file"
    | some db ↦ elim (os.fails read_shadow) [ some e ↦ err e | none ↦ ok (os.checksum db) ]
  ]

  renamed : Option String → Database → Store → Option String × Store
  renamed (some e) db s = (some ("atomic rename shadow -> prod: " <> e), s)
  renamed none db s = (none, record s { disk = record (s.disk) { prod = some db; shadow = none } })

  -- `os.Rename(r.shadowPath, r.prodPath)`
  rename : Option Database → Store → Option String × Store
  unfolding renamed
  rename none s = (some "atomic rename shadow -> prod: no such file", s)
  rename (some db) s = renamed (os.fails rename_shadow) db s

  -- `r.db.Close()`: closing twice is no error.
  close_error : Connection → Option String
  close_error nil = some nil_pointer
  close_error closed = none
  close_error live = os.fails close_db

  -- `Close` of an open connection closes it even if it returns an error.
  abbrev after_close : Connection → Connection
  after_close nil = nil
  after_close closed = closed
  after_close live = closed

  -- `Commit`, after `r.db.Close()` has returned.
  commit_closed : Option String → Store → Option String × Store
  unfolding rename
  commit_closed (some e) s = (some ("close shadow DB: " <> e), record s { db = after_close s.db })
  commit_closed none s = rename (s.disk).shadow (record s { db = nil })

  -- `Commit`
  pub commit : Store → Option String × Store
  unfolding commit_closed close_error
  commit s = commit_closed (close_error s.db) s

  -- `Rollback`
  pub rollback : Store → Option String × Store
  rollback s =
      let t : Store = record s { db = nil } in
      elim (s.disk).shadow [
        | none ↦ (none, t)
        | some db ↦ elim (os.fails remove_shadow) [
          | some e ↦ (some ("remove shadow DB: " <> e), t)
          | none ↦ (none, record t { disk = record (s.disk) { shadow = none } })
        ]
      ]

  -- `Close`
  pub close : Store → Option String × Store
  unfolding close_error
  close s = elim s.db [
    | nil ↦ (none, s)
    | closed ↦ (none, s)
    | live ↦ (close_error live, record s { db = closed })
  ]

-- The implementation of the interface of internal/domain/interfaces.go.
abbrev pub sqlite : Os → Engine → (fl : Float64) → Repository fl.Float
sqlite os engine fl = record {
  State = Store;
  get_all_files = get_all_files engine;
  upsert_file = upsert_file engine;
  delete_file = remove_row engine;
  get_files_for_scrub = get_files_for_scrub engine fl;
  update_scrub_status = update_scrub_status engine;
  compute_checksum = compute_checksum os;
  commit = commit os;
  rollback = rollback os;
  close = close os;
}
