-- ===== src/Coordinator.antt =====
-- internal/coordinator/coordinator.go: the run over one drive, from the canary check to the commit,
-- and the collection of the results of all drives. `World` is what one run meets: the answers of the
-- operating system and of the hasher, the order in which the goroutines of the sync go on, and the
-- clock. The number of hashing workers and the semaphore only choose among the orders of steps. The
-- comparison of the stored checksum only logs, and is left out.
pub mod Results
pub mod Publish
pub mod Collect
pub mod Scrubbed
pub mod Remembered
pub mod Synced
pub mod Drives
pub mod Workers
pub mod Tests
pub use bit_rot_detector.Coordinator.Results.{DriveResult, to_mailer_sync_entries, to_health_slice}
unfoldable pub use bit_rot_detector.Coordinator.Results.{collect_errors, to_mailer_scrub_entries}
use bit_rot_detector.Base.{
  ℕ, zero, suc, String, ◌<>◌, Bool, true, false, ◌||◌, Option, none, some, List, [], ◌∷◌, ◌==◌,
  string_eq, if◌then◌else◌, length, map,
}
use bit_rot_detector.Base.Moment.{Moment}
use bit_rot_detector.Domain.{Result, ok, err, SyncResult, ScrubResult, DriveHealth, RunRecord}
use bit_rot_detector.Storage.Table.{Engine}
use bit_rot_detector.Storage.Store.{
  Disk, Store, Os, Float64, sqlite, open_repository, insert_run_history, commit, rollback,
}
use bit_rot_detector.Monitor.{Platform, detect, is_hdd}
use bit_rot_detector.Scanner.Walk.{Node}
use bit_rot_detector.Scanner.Sync.{Choice, sync_directory}
use bit_rot_detector.Scanner.Scrub.{scrub_files}

pub record Options (Float : Type 0) : Type 0 where
  pub run_sync : Bool
  pub run_scrub : Bool
  pub scrub_percentage : Float
  pub scrub_frequency : String
  pub max_workers : ℕ

-- A drive: the content of `.bitrot-canary`, if there is one, and the database files.
pub record Drive : Type 0 where
  pub canary : Option String
  pub disk : Disk

-- An answer of `statFS`.
pub record StatFs : Type 0 where
  pub total : ℕ
  pub used : ℕ
  pub free : ℕ

pub record World : Type 1 where
  pub os : Os
  pub engine : Engine
  pub fl : Float64
  -- `filepath.Base`
  pub base : String → String
  pub stat_fs : Result StatFs
  -- What `monitor.Detect` meets.
  pub platform : Platform
  -- An error of reading the canary that is there, of the test for it after the scan, and of writing it.
  pub read_canary_fails : Option String
  pub canary_gone : Option String
  pub write_canary_fails : Option String
  -- The canary after a write that failed: the file may have been truncated.
  pub torn_canary : Option String
  pub checksum_file : Result String
  pub started_at : Moment
  pub duration_ms : ℕ
  -- The sync: the error of the context at its start, the files, the hasher, the clock.
  pub sync_ctx : Option String
  pub root : Node
  pub choices : List Choice
  pub sync_hash : String → Result String
  pub added_now : String → Moment
  pub seen_now : String → Moment
  -- The scrub, in the same way.
  pub scrub_ctx : Option String
  pub scrub_done : ℕ → Bool
  pub scrub_at : Moment
  pub missing : String → Bool
  pub scrub_hash : String → Result String
  pub scrub_now : String → Moment

-- `diskHealth`
pub disk_health : (String → String) → Result StatFs → String → DriveHealth
disk_health base stat path =
    let name = base path in
    let h : DriveHealth = record {
      drive_name = if name == "." then path else name;
      total_space = 0;
      used_space = 0;
      free_space = 0;
      temperature = none;
      smart_status = "UNKNOWN";
      smart_errors = [];
      is_rotational = false;
    } in
    elim stat [
      | err e ↦ h
      | ok s ↦ record h { total_space = s.total; used_space = s.used; free_space = s.free }
    ]

-- `readCanary`
pub read_canary : (fails canary : Option String) → Result String
read_canary fails none = err ".bitrot-canary not found"
read_canary (some e) (some content) = err e
read_canary none (some content) = ok content

-- `buildRunRecord`: the fields of the two phases.
abbrev add_sync : Option SyncResult → RunRecord → RunRecord
add_sync none r = r
add_sync (some s) r = record r {
  files_scanned = s.files_scanned;
  files_added = s.files_added;
  files_modified = s.files_modified;
  files_removed = s.files_removed;
  files_moved = s.files_moved;
  sync_errors = length s.errors;
}

abbrev add_scrub : Option ScrubResult → RunRecord → RunRecord
add_scrub none r = r
add_scrub (some s) r = record r {
  files_validated = s.files_validated;
  files_corrupted = length s.files_corrupted;
  scrub_errors = length s.errors;
}

pub build_run_record :
    (drive_name drive_id : String) → Moment → ℕ → Option SyncResult → Option ScrubResult → RunRecord
build_run_record drive_name drive_id started_at duration_ms sync scrub = add_scrub scrub (
    add_sync sync (record {
      id = 0;
      drive_id = drive_id;
      drive_name = drive_name;
      started_at = started_at;
      duration_ms = duration_ms;
      files_scanned = 0;
      files_added = 0;
      files_modified = 0;
      files_removed = 0;
      files_moved = 0;
      files_validated = 0;
      files_corrupted = 0;
      sync_errors = 0;
      scrub_errors = 0;
    }))

-- The minimum age that a frequency stands for.
pub min_age_days : String → Option ℕ
min_age_days frequency =
    if frequency == "weekly" then some 7 else if frequency == "monthly" then some 30 else none

module _ (w : World) (path : String) (opts : Options (w.fl).Float) where
  -- The deferred function: an early exit rolls back.
  give_up : String → DriveResult → Option String → Store → DriveResult × Drive
  give_up message res canary s = (
    record res { error = some message },
    record { canary = canary; disk = ((rollback w.os s).1).disk },
  )

  -- The checksum in the canary. An error is only logged.
  update_canary : Result String → Option String → Option String → Option String
  update_canary (err e) fails canary = canary
  update_canary (ok sum) (some e) canary = w.torn_canary
  update_canary (ok sum) none canary = some sum

  committed : DriveResult → Option String → Option String × Store → DriveResult × Drive
  unfolding give_up update_canary
  committed res canary (some e, s) = give_up ("commit: " <> e) res canary s
  committed res canary (none, s) = (
    res,
    record { canary = update_canary w.checksum_file w.write_canary_fails canary; disk = s.disk },
  )

  -- The row of this run. An error of `InsertRunHistory` is only logged.
  record_run : DriveResult → Store → Store
  unfolding build_run_record
  record_run res s =
      if opts.run_sync || opts.run_scrub
      then (insert_run_history w.engine
          (build_run_record res.drive path w.started_at w.duration_ms res.sync_result
            res.scrub_result)
          s).1
      else s

  -- From the second canary check on.
  post_check : Option String → DriveResult → Option String → Store → DriveResult × Drive
  unfolding committed record_run give_up
  post_check (some e) res canary s = give_up ("canary post-check failed: " <> e) res canary s
  post_check none res canary s = committed res canary (commit w.os (record_run res s))

  scrubbed_drive :
      DriveResult → Option String → Option ScrubResult × Option String × Store → DriveResult × Drive
  unfolding post_check give_up
  scrubbed_drive res canary (out, some e, s) = give_up ("scrub: " <> e) res canary s
  scrubbed_drive res canary (out, none, s) =
      post_check w.canary_gone (record res { scrub_result = out }) canary s

  -- From the scrub on.
  scrub_drive : Bool → DriveResult → Option String → Store → DriveResult × Drive
  unfolding scrubbed_drive post_check min_age_days
  scrub_drive false res canary s = post_check w.canary_gone res canary s
  scrub_drive true res canary s = scrubbed_drive res canary (
      scrub_files (sqlite w.os w.engine w.fl) w.missing w.scrub_hash w.scrub_now w.scrub_ctx
        w.scrub_done w.scrub_at opts.scrub_percentage (min_age_days opts.scrub_frequency) s)

  synced_drive :
      DriveResult → Option String → Option SyncResult × Option String × Store → DriveResult × Drive
  unfolding scrub_drive give_up
  synced_drive res canary (out, some e, s) = give_up ("sync: " <> e) res canary s
  synced_drive res canary (out, none, s) =
      scrub_drive opts.run_scrub (record res { sync_result = out }) canary s

  -- From the sync on.
  sync_drive : Bool → DriveResult → Option String → Store → DriveResult × Drive
  unfolding synced_drive scrub_drive
  sync_drive false res canary s = scrub_drive opts.run_scrub res canary s
  sync_drive true res canary s = synced_drive res canary (
      sync_directory (sqlite w.os w.engine w.fl) w.sync_hash w.added_now w.seen_now w.sync_ctx
        w.root w.choices s)

  opened_drive : DriveResult → Option String → Result Store × Disk → DriveResult × Drive
  unfolding sync_drive
  opened_drive res canary (err e, d) =
      (record res { error = some ("open repository: " <> e) }, record { canary = canary; disk = d })
  opened_drive res canary (ok s, d) =
      let health : Option DriveHealth = elim res.health [
        | none ↦ none
        | some h ↦ some (record h { is_rotational = is_hdd (detect w.platform) })
      ] in
      sync_drive opts.run_sync (record res { health = health }) canary s

  checked_drive : DriveResult → Drive → Result String → DriveResult × Drive
  unfolding opened_drive
  checked_drive res d (err e) = (record res { error = some ("canary pre-check failed: " <> e) }, d)
  checked_drive res d (ok sum) = opened_drive res d.canary (open_repository w.os w.engine d.disk)

  abbrev drive_name : String
  drive_name = let name = w.base path in if name == "." || name == "" then path else name

  begun : DriveResult
  unfolding disk_health
  begun = record {
    drive = drive_name;
    health = some (disk_health w.base w.stat_fs path);
    sync_result = none;
    scrub_result = none;
    error = none;
  }

  -- `processDrive`
  pub process_drive : Drive → DriveResult × Drive
  unfolding checked_drive read_canary begun
  process_drive d = checked_drive begun d (read_canary w.read_canary_fails d.canary)
