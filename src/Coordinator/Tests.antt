-- ===== src/Coordinator/Tests.antt =====
-- A run over the drive of the scanner's tests.
use bit_rot_detector.Scanner.Walk.{walk, skip_system_dir, skip_file}
use bit_rot_detector.Scanner.Classify.{
  pick, compute, work_item, known_hash, find_moved_file, same_stamp,
}
use bit_rot_detector.Base.Dict.{lookup}
use bit_rot_detector.Base.{nat_eq}
use bit_rot_detector.Base.Int.{int_eq}
use bit_rot_detector.Storage.Store.{insert_run_history, Store, open_repository}
use bit_rot_detector.Storage.Store.Tests.{known_files, listed, opens}
use bit_rot_detector.Scanner.Sync.Invariant.{on_disk}
use bit_rot_detector.Scanner.Tests.{distinct, ends}
use bit_rot_detector.Coordinator.Remembered.{recorded_hash}
use bit_rot_detector.Coordinator.Synced.{Agrees, process_drive-Agrees}
use bit_rot_detector.Scanner.Sync.Schedules.{walk_then}
use bit_rot_detector.Scanner.Sync.{computes}
use bit_rot_detector.Coordinator.Workers.{new_syncer, num_workers, new_syncer-num_workers}
use bit_rot_detector.Monitor.{is_hdd, detect}
use bit_rot_detector.Base.{
  arith, ◌≤◌, ◌==◌, string_eq, ℕ, true, false, none, some, [], ◌∷◌, ◌≡◌, ◌⊎◌, refl,
}
use bit_rot_detector.Base.Int.{pos}
use bit_rot_detector.Base.Moment.{at_unix}
use bit_rot_detector.Domain.{Result, err, ok}
use bit_rot_detector.Monitor.{Platform}
use bit_rot_detector.Storage.Store.Tests.{plain_os, plain_engine, whole_numbers}
use bit_rot_detector.Storage.Store.Tests as Stored
use bit_rot_detector.Storage.Store.Tests.{program as stored}
use bit_rot_detector.Scanner.Tests.{root, hash_of, clock, choices}
use bit_rot_detector.Coordinator.{
  read_canary, to_mailer_scrub_entries, DriveResult, Options, Drive, World, process_drive,
  collect_errors,
}
use bit_rot_detector.Scanner.Scrub.{scrub_files}
use bit_rot_detector.Coordinator.Publish.{Published, Unpublished, process_drive_lem}

-- The definitions that a run computes by.
unfoldable pub program : Unit {0}
unfolding stored process_drive scrub_files string_eq collect_errors to_mailer_scrub_entries
program = tt

-- An HDD that is mounted at /d.
abbrev pub disk_platform : Platform
disk_platform = record {
  is_linux = true;
  num_cpu = 8;
  resolved = ok "/d";
  mounts = ok (("/dev/sda1" ∷ "/d" ∷ "ext4" ∷ []) ∷ []);
  has_prefix = λ s prefix. true;
  has_part = λ s part. false;
  base = λ p. "sda1";
  in_sys_block = λ name. name == "sda";
  flag = λ name. ok "1";
}

abbrev pub world : World
world = record {
  os = plain_os;
  engine = plain_engine;
  fl = whole_numbers;
  base = λ p. "d";
  stat_fs = ok (record { total = 100; used = 60; free = 40 });
  platform = disk_platform;
  read_canary_fails = none;
  canary_gone = none;
  write_canary_fails = none;
  torn_canary = some "";
  checksum_file = ok "sum";
  started_at = at_unix (pos 450);
  duration_ms = 20;
  sync_ctx = none;
  root = root;
  choices = choices;
  sync_hash = hash_of;
  added_now = clock;
  seen_now = clock;
  scrub_ctx = none;
  scrub_done = λ i. false;
  scrub_at = at_unix (pos 600);
  missing = λ p. false;
  scrub_hash = hash_of;
  scrub_now = clock;
}

abbrev options : Options ℕ
options = record {
  run_sync = true;
  run_scrub = true;
  scrub_percentage = 100;
  scrub_frequency = "weekly";
  max_workers = 2;
}

abbrev pub mounted : Drive
mounted = record { canary = some "sum"; disk = Stored.drive }

abbrev unmounted : Drive
unmounted = record mounted { canary = none }

process_drive_lem_example :
    Published world (process_drive world "/d" options mounted)
    ⊎ Unpublished (Stored.drive).prod (some "sum") (process_drive world "/d" options mounted)
process_drive_lem_example = process_drive_lem world "/d" options mounted

abbrev clean_result : DriveResult
clean_result = record {
  drive = "d";
  health = none;
  sync_result = none;
  scrub_result = none;
  error = none;
}

new_syncer-num_workers_example :
    let workers = new_syncer (num_workers disk_platform 2) in
    (1 ≤ workers)
    × (workers ≤ 2)
    × (workers ≤ 8)
    × ((is_hdd (detect disk_platform) ≡ false) ⊎ (◌≡◌ {A = ℕ} workers 1))
new_syncer-num_workers_example = new_syncer-num_workers disk_platform 2 (omega arith) (omega arith)

-- A sync without a scrub.
abbrev sync_only : Options ℕ
sync_only = record options { run_scrub = false }

-- The definitions that its sync computes by.
syncing : Unit {0}
unfolding program computes walk_then walk skip_system_dir skip_file pick compute work_item
    known_hash lookup find_moved_file same_stamp nat_eq int_eq insert_run_history
syncing = tt

read : read_canary none (some "sum") ≡ ok "sum"
unfolding program
read = refl

succeeds : (process_drive world "/d" sync_only mounted).0.error ≡ none
unfolding syncing
succeeds = refl

-- The repository that a call of `Open` gives.
abbrev of_open : Result Store → Store
of_open (ok s) = s
of_open (err e) = Stored.store

abbrev Opens : Result Store → Type 0
Opens (ok s) = Unit
Opens (err e) = ⊥

Opens-of_open : (o : Result Store) → Opens o → o ≡ ok (of_open o)
Opens-of_open (ok s) h = refl
Opens-of_open (err e) h = absurd h

abbrev opened_again : Result Store
opened_again =
    (open_repository plain_os plain_engine (process_drive world "/d" sync_only mounted).1.disk).0

reopens : Opens opened_again
unfolding syncing
reopens = tt

process_drive-Agrees_example :
    Agrees hash_of known_files "/d/film"
      (lookup "/d/film" (on_disk (walk root) []))
      (recorded_hash (of_open opened_again) "/d/film")
process_drive-Agrees_example =
    process_drive-Agrees world "/d" sync_only mounted "sum" Stored.store known_files read opens
      listed (λ db. refl) (λ db. refl) refl refl distinct ends.0 ends.1 succeeds plain_os
      plain_engine (of_open opened_again) (Opens-of_open opened_again reopens) "/d/film"
