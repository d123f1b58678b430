-- ===== src/Storage/Store/Tests.antt =====
-- A drive with one record, an operating system and an engine that refuse nothing, and the theorems
-- about the repository at it.

use Prim.Native.Nat.{min, max}
use bit_rot_detector.Base.{
  arith, ℕ, ◌*◌, ◌/◌, true, false, none, some, List, [], ◌∷◌, ◌≡◌, refl, ◌++◌, All, length,
  string_eq,
}
use bit_rot_detector.Base.Int.{◌+ℤ◌, pos, int_eq, ltb_ℤ}
use bit_rot_detector.Base.Moment.{at_unix}
use bit_rot_detector.Base.Dict.{Dict, insert}
use bit_rot_detector.Domain.{ok, FileRecord, RunRecord}
use bit_rot_detector.Domain.Lawful.{IsLawful}
use bit_rot_detector.Storage.Table.{
  Row, Database, blank, Engine, delete_rows, replace_row, mark_scrubbed, to_record, to_row,
  collect_rows,
}
use bit_rot_detector.Storage.Table.Rows.{find_row}
use bit_rot_detector.Storage.Store.{
  Disk, Store, live, Os, Float64, sqlite, open_repository, rolled_back, commit, get_files_for_scrub,
  selected, insert_run_history, insert_into, insert_queried, eligible, records, scrub_rows, clean,
  copy_file, open_copied, open_shadow, open_sqlite_error, commit_closed, rename, renamed,
  close_error, upsert_file, remove_row, change_files, change_table, query, get_all_files,
  read_files,
}
use bit_rot_detector.Storage.Store.Laws.{row, IsOpen, sqlite-IsLawful}
use bit_rot_detector.Storage.Store.Untouched.{Call, upserts, deletes, run, step}
use bit_rot_detector.Storage.Store.Swap.{
  Outcome, Stop, inside, stopped, Restarts, crash_recovery, commit_lem,
}
use bit_rot_detector.Storage.Store.Select.{
  old_enough, aged_rows, Orders, Ordered, no_later, get_files_for_scrub_lem,
}

abbrev pub plain_os : Os
plain_os = record { fails = λ call. none; torn = blank; checksum = λ db. "sum" }

-- Fit for rows that are sorted already.
abbrev pub plain_engine : Engine
plain_engine = record {
  fails = λ st db. none;
  order_by_last_scrubbed = λ rows. rows;
  order_by_started_at_desc = λ rows. rows;
}

abbrev pub whole_numbers : Float64
whole_numbers = record {
  Float = ℕ;
  of_int = λ n. n;
  mul = λ a b. a * b;
  div = λ a b. a / b;
  to_int = λ n. n;
}

abbrev pub photo : Row
photo = record {
  abs_path = "/d/photo";
  hash = "aa";
  added_at = pos 100;
  last_seen = pos 200;
  last_scrubbed = none;
  scrub_count = 0;
  file_size = 10;
  mtime = pos 50;
}

abbrev pub song : Row
song = record photo { abs_path = "/d/song"; last_scrubbed = some (pos 300) }

abbrev pub database : Database
database = record { files = some (photo ∷ song ∷ []); run_history = some []; next_id = 1 }

-- A crashed run has left an empty shadow.
abbrev pub drive : Disk
drive = record {
  prod = some database;
  shadow = some blank;
  wal = false;
  shm = false;
  journal = none;
}

abbrev pub store : Store
store = record { disk = record drive { shadow = some database }; db = live }

unfoldable pub program : Unit {0}
unfolding open_repository rolled_back clean copy_file open_copied open_shadow open_sqlite_error
    upsert_file remove_row step run commit commit_closed rename renamed close_error get_all_files
    read_files collect_rows delete_rows replace_row mark_scrubbed to_row selected eligible query
    change_files change_table
program = tt

pub opens : (open_repository plain_os plain_engine drive).0 ≡ ok store
unfolding program
opens = refl

abbrev pub known_files : Dict FileRecord
known_files = ("/d/photo", to_record photo) ∷ ("/d/song", to_record song) ∷ []

pub listed : get_all_files plain_engine store ≡ ok known_files
unfolding program to_record insert string_eq
listed = refl

pub scrubs :
    get_files_for_scrub plain_engine whole_numbers (at_unix (pos 600)) 100 none store
    ≡ ok (to_record photo ∷ to_record song ∷ [])
unfolding program get_files_for_scrub scrub_rows records
scrubs = refl

pub store-IsOpen : IsOpen store
store-IsOpen = record { alive = refl; tables = (database, photo ∷ song ∷ [], refl, refl) }

sqlite-IsLawful_example : IsLawful (sqlite plain_os plain_engine whole_numbers)
sqlite-IsLawful_example = sqlite-IsLawful plain_engine plain_os whole_numbers

abbrev film : FileRecord
film = record (to_record photo) { abs_path = "/d/film" }

-- A run that stored a file, removed another, and crashed.
abbrev history : List Call
history = upserts (at_unix (pos 400)) film ∷ deletes "/d/song" ∷ []

-- It stopped inside a statement, whose journal changes nothing in the copy.
abbrev stop : Stop
stop = inside blank (λ db. db)

opens_again :
    (open_repository plain_os plain_engine
      (stopped stop (run plain_os plain_engine history store).disk)).0
    ≡ ok store
unfolding program
opens_again = refl

crash_recovery_example :
    ((stopped stop (run plain_os plain_engine history store).disk).prod ≡ drive.prod)
    × Restarts stop drive.prod "/d/song" (row store "/d/song") (row store "/d/song")
crash_recovery_example =
    crash_recovery plain_os plain_os plain_engine plain_engine drive store store history stop
      "/d/song" refl opens opens_again

abbrev worked : Store
worked = run plain_os plain_engine history store

commit_lem_example : let (e, t) = commit plain_os worked in Outcome e worked t
commit_lem_example = commit_lem plain_os worked

-- What the run did, and what the next run finds.
abbrev left : Database
left = record database { files = some (photo ∷ to_row (at_unix (pos 400)) film ∷ []) }

abbrev after_commit : Store
after_commit = record {
  disk = record { prod = some left; shadow = some left; wal = false; shm = false; journal = none };
  db = live;
}

clean_commit : (commit plain_os worked).0 ≡ none
unfolding program
clean_commit = refl

opens_after :
    (open_repository plain_os plain_engine (commit plain_os worked).1.disk).0 ≡ ok after_commit
unfolding program string_eq int_eq
opens_after = refl

row_gone : row after_commit "/d/song" ≡ none
unfolding program string_eq find_row int_eq
row_gone = refl

sorted : Orders plain_engine (aged_rows (at_unix (pos 900_000)) (some 7) (photo ∷ song ∷ []))
unfolding program Ordered no_later ltb_ℤ ◌+ℤ◌ aged_rows old_enough
sorted = record { sorted = ((refl, tt), (tt, tt)); keeps = refl; same = λ P h. h }

get_files_for_scrub_lem_example :
    let old = aged_rows (at_unix (pos 900_000)) (some 7) (photo ∷ song ∷ []) in
    (taken : List Row) × (left : List Row) × (get_files_for_scrub plain_engine whole_numbers
        (at_unix (pos 900_000))
        60
        (some 7)
        store
      ≡ ok (records taken))
    × (old ≡ taken ++ left)
    × (length taken
        ≡ min (length old) (
            max 1 (
              whole_numbers.to_int (
                whole_numbers.div
                  (whole_numbers.mul (whole_numbers.of_int (length old)) 60)
                  (whole_numbers.of_int 100)))))
    × All (λ r. old_enough (at_unix (pos 900_000)) (some 7) r ≡ true) taken
    × All (λ t. All (λ l. no_later t.last_scrubbed l.last_scrubbed ≡ true) left) taken
get_files_for_scrub_lem_example =
    get_files_for_scrub_lem plain_engine whole_numbers (at_unix (pos 900_000)) 60 (some 7) store
      (omega arith) (omega arith) sorted (λ db. refl) store-IsOpen

-- A run that is recorded and published.
abbrev pub finished : RunRecord
finished = record {
  id = 0;
  drive_id = "/d";
  drive_name = "d";
  started_at = at_unix (pos 700);
  duration_ms = 3;
  files_scanned = 2;
  files_added = 1;
  files_modified = 0;
  files_removed = 0;
  files_moved = 0;
  files_validated = 2;
  files_corrupted = 1;
  sync_errors = 0;
  scrub_errors = 0;
}

pub recorded_commit : (commit plain_os (insert_run_history plain_engine finished store).1).0 ≡ none
unfolding program insert_run_history insert_into insert_queried
recorded_commit = refl
