-- ===== src/Coordinator/Synced.antt =====
-- What the next run over a drive knows of its files after a sync by `processDrive` of
-- internal/coordinator/coordinator.go that was published.
use mathlib.Core.Option
use bit_rot_detector.Base.{
  String, true, Option, none, some, [], ◌≡◌, inl, inr, refl, sym, ap, subst,
}
use bit_rot_detector.Base.Dict.{Dict, lookup}
use bit_rot_detector.Domain.{Result, ok, err, FileRecord, SyncResult}
use bit_rot_detector.Storage.Table.{Database, Engine, insert_or_replace, delete_file}
use bit_rot_detector.Storage.Store.{Os, Store, sqlite, open_repository, get_all_files}
use bit_rot_detector.Storage.Store.Laws.{row, IsOpen, sqlite_laws, sqlite-IsReliable}
use bit_rot_detector.Storage.Store.Opened.{open_repository_lem}
use bit_rot_detector.Scanner.Walk.{Stamp, walk}
use bit_rot_detector.Scanner.Sync.{run, start, sync_directory}
use bit_rot_detector.Scanner.Sync.Effect.{Hashed}
use bit_rot_detector.Scanner.Sync.Invariant.{on_disk, Distinct, Uncancelled}
use bit_rot_detector.Scanner.Sync.Exact.{IsComplete}
use bit_rot_detector.Scanner.Sync.Tracked.{Row, Tracked, hash_due, sync_directory_exact}
use bit_rot_detector.Coordinator.{Moment, Options, Drive, World, read_canary, process_drive}
use bit_rot_detector.Coordinator.Remembered.{recorded_hash, process_drive-recorded_hash}

-- The recorded hash of a path, of its old record and the outcome of hashing it: a known file has the
-- hash, and an unknown one has it or that of a record with its size and time under another path.
abbrev pub Recorded :
    Dict FileRecord → String → Stamp → Option FileRecord → Result String → Option String → Type 0
Recorded db_files p stamp old (err e) recorded = Unit {0}
Recorded db_files p stamp (some old) (ok hash) recorded = recorded ≡ some hash
Recorded db_files p stamp none (ok hash) recorded =
    (h : String) × (recorded ≡ some h) × Hashed db_files p stamp.size stamp.mtime hash h

-- Of a path that is not on the disk, none is. `hash_due` is the hash of its contents, unless its record
-- has its size and its time: then it is the hash in the record.
abbrev pub Agrees :
    (hash_of : String → Result String)
    → Dict FileRecord
    → String
    → Option Stamp
    → Option String
    → Type 0
Agrees hash_of db_files p none recorded = recorded ≡ none
Agrees hash_of db_files p (some stamp) recorded =
    Recorded db_files p stamp (lookup p db_files) (hash_due hash_of (lookup p db_files) p stamp)
      recorded

Tracked-Recorded :
    (db_files : Dict FileRecord) (added_now seen_now : String → Moment) (p : String) (stamp : Stamp)
    (old : Option FileRecord) (hash : Result String) (row : Option FileRecord)
    → Tracked db_files added_now seen_now p stamp old hash row
    → Recorded db_files p stamp old hash (Option.map (λ r. r.hash) row)
Tracked-Recorded db_files added_now seen_now p stamp old (err e) row h = tt
Tracked-Recorded db_files added_now seen_now p stamp (some old) (ok hash) row h =
    ap (Option.map (λ r. r.hash)) h
Tracked-Recorded db_files added_now seen_now p stamp none (ok hash) row (inl h) =
    (hash, ap (Option.map (λ r. r.hash)) h, inl refl)
Tracked-Recorded db_files added_now seen_now p stamp none (ok hash) row (inr (from, old, m, h)) =
    (old.hash, ap (Option.map (λ r. r.hash)) h, inr (from, old, m, refl))

Row-Agrees :
    (hash_of : String → Result String) (db_files : Dict FileRecord)
    (added_now seen_now : String → Moment) (p : String) (o : Option Stamp) (row : Option FileRecord)
    → Row hash_of db_files added_now seen_now p o row
    → Agrees hash_of db_files p o (Option.map (λ r. r.hash) row)
Row-Agrees hash_of db_files added_now seen_now p none row h = ap (Option.map (λ r. r.hash)) h
Row-Agrees hash_of db_files added_now seen_now p (some stamp) row h =
    Tracked-Recorded db_files added_now seen_now p stamp (lookup p db_files)
      (hash_due hash_of (lookup p db_files) p stamp) row h

module _ (w : World) (path : String) (opts : Options (w.fl).Float) (d : Drive) (content : String)
    (opened : Store) (db_files : Dict FileRecord)
    (read : read_canary w.read_canary_fails d.canary ≡ ok content)
    (opens : (open_repository w.os w.engine d.disk).0 ≡ ok opened)
    (loaded : get_all_files w.engine opened ≡ ok db_files)
    (inserts : (db : Database) → (w.engine).fails insert_or_replace db ≡ none)
    (deletes : (db : Database) → (w.engine).fails delete_file db ≡ none)
    (asked : opts.run_sync ≡ true) (alive : w.sync_ctx ≡ none)
    (distinct : Distinct (walk w.root) []) (live : Uncancelled w.choices)
    (complete : let R = sqlite w.os w.engine w.fl in
      IsComplete R (
        run R w.sync_hash w.added_now w.seen_now db_files w.choices
          (start R (walk w.root) opened))) where
  abbrev synced : Option SyncResult × Option String × Store
  synced =
      sync_directory (sqlite w.os w.engine w.fl) w.sync_hash w.added_now w.seen_now none w.root
        w.choices opened

  exact :
      (synced.1 ≡ none)
      × ((p : String)
          → Agrees w.sync_hash db_files p
              (lookup p (on_disk (walk w.root) []))
              (recorded_hash synced.2 p))
  exact =
      let L = sqlite_laws w.engine w.os w.fl in
      let good : IsOpen opened = (open_repository_lem w.os w.engine d.disk opened opens).0 in
      let (no_error, rows) =
        sync_directory_exact L (sqlite-IsReliable w.engine w.os w.fl inserts deletes) w.sync_hash
          w.added_now w.seen_now w.root w.choices opened db_files loaded good distinct live
          complete in
      (
        no_error,
        λ p.
            Row-Agrees w.sync_hash db_files w.added_now w.seen_now p
              (lookup p (on_disk (walk w.root) [])) (row synced.2 p) (rows p),
      )

  -- Under these conditions, if the run ends without an error, then the next repository that opens on the
  -- drive, on any system and engine, has no hash for a path that the disk did not have. For a file it has
  -- the hash in its old record, if that one has its size and time and a hash, and the one of its contents
  -- otherwise, provided this could be computed; or, for a file that the database did not know, possibly
  -- that of a record with its size and time under another path.
  pub process_drive-Agrees :
      (process_drive w path opts d).0.error ≡ none
      → (os : Os) (engine : Engine) (next : Store)
      → (open_repository os engine (process_drive w path opts d).1.disk).0 ≡ ok next
      → (p : String)
      → Agrees w.sync_hash db_files p (lookup p (on_disk (walk w.root) [])) (recorded_hash next p)
  process_drive-Agrees clean os engine next reopens p =
      let (no_error, rows) = exact in
      let ran =
        subst
          (λ ctx.
            sync_directory (sqlite w.os w.engine w.fl) w.sync_hash w.added_now w.seen_now ctx w.root
              w.choices opened
            ≡ (synced.0, none, synced.2))
          (sym alive) (ap (λ e. (synced.0, e, synced.2)) no_error) in
      subst (Agrees w.sync_hash db_files p (lookup p (on_disk (walk w.root) [])))
        (sym (
          process_drive-recorded_hash w path opts d content opened synced.2 read opens
            (inr (asked, (synced.0, ran))) clean os engine next reopens p))
        (rows p)
