-- ===== src/Scanner/Sync/Tracked.antt =====
-- The table that `SyncDirectory` leaves, judged without its loops: which hash a path gets, and which
-- record.
use bit_rot_detector.Base.{
  String, ◌&&◌, not, Option, none, some, ◌≡◌, ◌==◌, ◌⊎◌, refl, subst, arith, string_eq, List, [],
  if◌then◌else◌,
}
use bit_rot_detector.Base.Moment.{Moment, zero_time}
use bit_rot_detector.Base.Dict.{Dict, lookup}
use bit_rot_detector.Domain.{Result, ok, err, FileRecord, Repository, stored}
use bit_rot_detector.Domain.Lawful.{IsLawful, IsReliable}
use bit_rot_detector.Scanner.Walk.{Node, Stamp, walk}
use bit_rot_detector.Scanner.Classify.{same_stamp, known_hash, work_item, compute}
use bit_rot_detector.Scanner.Sync.{Choice, start, run, sync_directory}
use bit_rot_detector.Scanner.Sync.Effect.{Moved, Written}
use bit_rot_detector.Scanner.Sync.Invariant.{on_disk, Distinct, Uncancelled, Settled}
use bit_rot_detector.Scanner.Sync.Exact.{IsComplete, sync_directory-Settled}
use bit_rot_detector.Scanner.Sync.History.{synced}

-- The hash for a path: that of its record, if the size and the time agree and the record has a hash; the
-- one of its contents otherwise.
abbrev pub hash_due : (String → Result String) → Option FileRecord → String → Stamp → Result String
hash_due hash_of none p stamp = hash_of p
hash_due hash_of (some old) p stamp =
    if same_stamp old stamp.size stamp.mtime && not (old.hash == "") then ok old.hash else hash_of p

-- The record of a file that is new.
abbrev pub first_seen : (added seen : Moment) → String → Stamp → String → FileRecord
first_seen added seen p stamp hash = stored seen (record {
  abs_path = p;
  hash = hash;
  added_at = added;
  last_seen = zero_time;
  last_scrubbed = none;
  scrub_count = 0;
  file_size = stamp.size;
  mtime = stamp.mtime;
})

-- The row of a path, of its old record and the outcome of hashing it: a known file keeps its history; an
-- unknown one is new, or takes over the hash and the history of a record with its size and time under
-- another path. Nothing is said of a file that cannot be hashed.
abbrev pub Tracked :
    Dict FileRecord
    → (added_now seen_now : String → Moment) → String
    → Stamp
    → Option FileRecord
    → Result String
    → Option FileRecord
    → Type 0
Tracked db_files added_now seen_now p stamp old (err e) row = Unit {0}
Tracked db_files added_now seen_now p stamp (some old) (ok hash) row =
    row ≡ some (synced (seen_now p) p stamp hash old)
Tracked db_files added_now seen_now p stamp none (ok hash) row =
    (row ≡ some (first_seen (added_now p) (seen_now p) p stamp hash))
    ⊎ ((from : String) × (old : FileRecord) × Moved db_files p stamp.size stamp.mtime from old
        × (row ≡ some (synced (seen_now p) p stamp old.hash old)))

-- The row of a path in the table, of what the disk has there.
abbrev pub Row :
    (String → Result String)
    → Dict FileRecord
    → (added_now seen_now : String → Moment) → String
    → Option Stamp
    → Option FileRecord
    → Type 0
Row hash_of db_files added_now seen_now p none row = row ≡ none
Row hash_of db_files added_now seen_now p (some stamp) row =
    Tracked db_files added_now seen_now p stamp (lookup p db_files)
      (hash_due hash_of (lookup p db_files) p stamp) row

compute-hash_due :
    (hash_of : String → Result String) (db_files : Dict FileRecord) (p : String) (stamp : Stamp)
    → (compute hash_of (work_item db_files p stamp)).hash
      ≡ hash_due hash_of (lookup p db_files) p stamp
unfolding compute work_item known_hash
compute-hash_due hash_of db_files p stamp = ground arith

Written-Tracked :
    (hash_of : String → Result String) (db_files : Dict FileRecord)
    (added_now seen_now : String → Moment) (p : String) (stamp : Stamp) (row : Option FileRecord)
    → let res = compute hash_of (work_item db_files p stamp) in
      ((hash : String) → res.hash ≡ ok hash → Written db_files added_now seen_now res hash row)
      → Row hash_of db_files added_now seen_now p (some stamp) row
unfolding compute work_item
Written-Tracked hash_of db_files added_now seen_now p stamp row written =
    subst (λ o. Tracked db_files added_now seen_now p stamp (lookup p db_files) o row)
      (compute-hash_due hash_of db_files p stamp)
      (go (compute hash_of (work_item db_files p stamp)).hash written)
  where
    go :
        (o : Result String)
        → ((hash : String)
            → o ≡ ok hash
            → Written db_files added_now seen_now
                (compute hash_of (work_item db_files p stamp))
                hash
                row)
        → Tracked db_files added_now seen_now p stamp (lookup p db_files) o row
    go (err e) written = tt
    go (ok hash) written = known (lookup p db_files) refl (written hash refl)
      where
        known :
            (o : Option FileRecord)
            → lookup p db_files ≡ o
            → Written db_files added_now seen_now
                (compute hash_of (work_item db_files p stamp))
                hash
                row
            → Tracked db_files added_now seen_now p stamp o (ok hash) row
        known (some old) here done = done.known old here
        known none here done = done.new here

module _ {Float : Type 0} {R : Repository Float} (L : IsLawful R) {Good : R.State → Type 0}
    (rel : IsReliable R Good) (hash_of : String → Result String)
    (added_now seen_now : String → Moment) (root : Node) (choices : List Choice) (repo : R.State)
    (db_files : Dict FileRecord) (loaded : R.get_all_files repo ≡ ok db_files) (good : Good repo)
    (distinct : Distinct (walk root) []) (live : Uncancelled choices)
    (complete : IsComplete R
      (run R hash_of added_now seen_now db_files choices (start R (walk root) repo))) where
  -- For every interleaving of the walker, the workers and the collector that runs to its end without
  -- a cancellation, over a repository that can be read and whose writes succeed, on a tree in which
  -- no path is found twice: `SyncDirectory` returns no error; a path that the walk did not find has no
  -- record; a path that it found and that has a hash, the one of its record where size and time agree
  -- and else the one of its contents, has this hash, its size and its time in its record. The rest of the
  -- record is its old one; or, where the database did not know the path, it is new, or hash and history
  -- are those of a record with the same size and time under another path.
  pub sync_directory_exact :
      let out = sync_directory R hash_of added_now seen_now none root choices repo in
      (out.1 ≡ none)
      × ((p : String)
          → Row hash_of db_files added_now seen_now p
              (lookup p (on_disk (walk root) []))
              (L.row out.2 p))
  sync_directory_exact =
      let (no_error, rows) =
        sync_directory-Settled L rel hash_of added_now seen_now root choices repo db_files loaded
          good distinct live complete in
      (no_error, λ p. go p (lookup p (on_disk (walk root) [])) (rows p).0 (rows p).1)
    where
      after : String → Option FileRecord
      after = L.row (sync_directory R hash_of added_now seen_now none root choices repo).2

      go :
          (p : String) (o : Option Stamp)
          → (o ≡ none → after p ≡ none)
          → ((stamp : Stamp)
              → o ≡ some stamp
              → Settled L Good hash_of added_now seen_now db_files p stamp (after p))
          → Row hash_of db_files added_now seen_now p o (after p)
      go p none gone kept = gone refl
      go p (some stamp) gone kept =
          Written-Tracked hash_of db_files added_now seen_now p stamp (after p) (kept stamp refl)
