-- ===== src/Scanner/Sync/History.antt =====
-- What `SyncDirectory` makes of the files that the database knows, for every interleaving.
use bit_rot_detector.Base.{
  String, true, false, Option, none, some, ◌≡◌, ◌≢◌, arith, string_eq, List, [],
}
use bit_rot_detector.Base.Moment.{Moment}
use bit_rot_detector.Base.Dict.{Dict, lookup}
use bit_rot_detector.Domain.{Result, ok, FileRecord, Repository, stored}
use bit_rot_detector.Domain.Lawful.{IsLawful, IsReliable}
use bit_rot_detector.Scanner.Walk.{Stamp}
use bit_rot_detector.Scanner.Classify.{same_stamp, known_hash, work_item, compute}
use bit_rot_detector.Scanner.Sync.{Choice, start, run, sync_directory}
use bit_rot_detector.Scanner.Walk.{Node, walk}
use bit_rot_detector.Scanner.Sync.Invariant.{on_disk, Distinct, Uncancelled, Settled}
use bit_rot_detector.Scanner.Sync.Exact.{IsComplete, sync_directory-Settled}

-- The record of a known file after it was written again.
abbrev pub synced : Moment → String → Stamp → String → FileRecord → FileRecord
synced now p stamp hash old =
    stored now
      (record old { abs_path = p; hash = hash; file_size = stamp.size; mtime = stamp.mtime })

module _ {Float : Type 0} {R : Repository Float} (L : IsLawful R) {Good : R.State → Type 0}
    (rel : IsReliable R Good) (hash_of : String → Result String)
    (added_now seen_now : String → Moment) (root : Node) (choices : List Choice) (repo : R.State)
    (db_files : Dict FileRecord) (loaded : R.get_all_files repo ≡ ok db_files) (good : Good repo)
    (distinct : Distinct (walk root) []) (live : Uncancelled choices)
    (complete : IsComplete R
      (run R hash_of added_now seen_now db_files choices (start R (walk root) repo))) where
  row_after : String → Option FileRecord
  row_after p = L.row (sync_directory R hash_of added_now seen_now none root choices repo).2 p

  written :
      (p : String) (stamp : Stamp)
      → lookup p (on_disk (walk root) []) ≡ some stamp
      → Settled L Good hash_of added_now seen_now db_files p stamp (row_after p)
  unfolding row_after
  written p =
      ((sync_directory-Settled L rel hash_of added_now seen_now root choices repo db_files loaded
          good distinct live complete).1
        p).1

  -- For every interleaving that runs to its end without a cancellation, over a repository that can
  -- be read and whose writes succeed, on a tree in which no path is found twice: a file whose size and whole-second modification time agree with its record, and
  -- whose recorded hash is not empty, keeps its hash, its first sighting, its last scrub and its scrub
  -- count, whatever its contents hash to now.
  pub sync_directory_keeps :
      (p : String) (stamp : Stamp) (old : FileRecord)
      → lookup p (on_disk (walk root) []) ≡ some stamp
      → lookup p db_files ≡ some old
      → same_stamp old stamp.size stamp.mtime ≡ true
      → old.hash ≢ ""
      → L.row (sync_directory R hash_of added_now seen_now none root choices repo).2 p
        ≡ some (synced (seen_now p) p stamp old.hash old)
  unfolding compute work_item known_hash row_after
  sync_directory_keeps p stamp old on known same hashed =
      (written p stamp on old.hash (ground arith)).known old known

  -- Under the same conditions, a file whose size or modification time differs from its record gets
  -- the hash that is computed now, and keeps its first sighting, its last scrub and its scrub count.
  pub sync_directory_rehashes :
      (p : String) (stamp : Stamp) (old : FileRecord) (hash : String)
      → lookup p (on_disk (walk root) []) ≡ some stamp
      → lookup p db_files ≡ some old
      → same_stamp old stamp.size stamp.mtime ≡ false
      → hash_of p ≡ ok hash
      → L.row (sync_directory R hash_of added_now seen_now none root choices repo).2 p
        ≡ some (synced (seen_now p) p stamp hash old)
  unfolding compute work_item known_hash row_after
  sync_directory_rehashes p stamp old hash on known differs hashed =
      (written p stamp on hash (ground arith)).known old known
