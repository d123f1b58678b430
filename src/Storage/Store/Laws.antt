-- ===== src/Storage/Store/Laws.antt =====
-- The SQLite repository behaves as a table of records by path, and its writes succeed if the engine
-- runs the statements.
use mathlib.Core.Option
use bit_rot_detector.Base.{
  ◌+◌, ◌∷◌, ◌++◌, String, Bool, true, false, ◌&&◌, Option, none, some, List, [], ◌≡◌, refl, sym, ap,
  subst, ◌∙◌, arith, ◌==◌, string_eq, if◌then◌else◌,
}
use bit_rot_detector.Base.Moment.{Moment, unix}
use bit_rot_detector.Base.Dict.{NodupKeys, Dict, lookup}
use bit_rot_detector.Domain.{ok_inj, Result, ok, err, FileRecord, RunRecord, stored, scrubbed}
use bit_rot_detector.Domain.Lawful.{IsLawful, IsReliable, succeeded}
use bit_rot_detector.Storage.Table.{
  collect_rows, select_files, Row, Database, to_record, to_row, mark, delete_rows, replace_row,
  mark_scrubbed, Statement, Engine, insert_or_replace, delete_file, update_scrub,
}
use bit_rot_detector.Storage.Table.Rows.{
  find_row, find_row-delete_rows, find_row-replace_row, find_row-mark_scrubbed, lookup-collect_rows,
  collect_rows-NodupKeys, to_record-to_row, to_record-mark,
}
use bit_rot_detector.Storage.Store.{
  read_files, insert_run, Store, live, Os, Float64, query, change_files, change_table,
  get_all_files, upsert_file, remove_row, update_scrub_status, insert_run_history, insert_into,
  insert_queried, recorded, sqlite,
}

abbrev pub rows_of : Option Database → List Row
rows_of none = []
rows_of (some db) = elim db.files [ none ↦ [] | some rows ↦ rows ]

-- The record under a path in the shadow database.
abbrev pub row : Store → String → Option FileRecord
row s p = Option.map to_record (find_row p (rows_of (s.disk).shadow))

-- A live connection to a database that has its tables.
pub record IsOpen (s : Store) : Type 0 where
  pub alive : s.db ≡ live
  pub tables :
      (db : Database) × (rows : List Row) × ((s.disk).shadow ≡ some db) × (db.files ≡ some rows)

change_table-rows :
    (db : Database) (o : Option (List Row)) (f : List Row → List Row) (s : Store)
    → db.files ≡ o
    → (s.disk).shadow ≡ some db
    → let (e, t) = change_table db o f s in
      rows_of (t.disk).shadow
      ≡ (if succeeded e then f (rows_of (s.disk).shadow) else rows_of (s.disk).shadow)
unfolding change_table
change_table-rows db none f s e here = refl
change_table-rows db (some rows) f s e here = ap f (sym (ap rows_of here ∙ rw e))

change_files-rows :
    (o : Result Database) (f : List Row → List Row) (s : Store)
    → ((db : Database) → o ≡ ok db → (s.disk).shadow ≡ some db)
    → let (e, t) = change_files o f s in
      rows_of (t.disk).shadow
      ≡ (if succeeded e then f (rows_of (s.disk).shadow) else rows_of (s.disk).shadow)
unfolding change_files
change_files-rows (err e) f s agree = refl
change_files-rows (ok db) f s agree = change_table-rows db db.files f s refl (agree db refl)

-- The record under `p` after rows were or were not changed, if the change matters for `k` alone.
row-if :
    (b : Bool) (p k : String) (new : Option FileRecord) (after before : List Row)
    → Option.map to_record (find_row p after)
      ≡ (if p == k then new else Option.map to_record (find_row p before))
    → Option.map to_record (find_row p (if b then after else before))
      ≡ (if b && p == k then new else Option.map to_record (find_row p before))
row-if true p k new after before h = h
row-if false p k new after before h = refl

map-mark :
    (now : Moment) (o : Option Row)
    → Option.map to_record (elim o [ none ↦ none | some r ↦ some (mark (unix now) r) ])
      ≡ Option.map (scrubbed now) (Option.map to_record o)
map-mark now none = refl
map-mark now (some r) = ap some (to_record-mark now r)

module _ (engine : Engine) where
  query-eq-ok :
      (st : Statement) (s : Store) (db : Database)
      → query engine st s ≡ ok db
      → (s.disk).shadow ≡ some db
  unfolding query
  query-eq-ok st s db h = ground arith

  changed-rows :
      (st : Statement) (f : List Row → List Row) (s : Store)
      → let (e, t) = change_files (query engine st s) f s in
        rows_of (t.disk).shadow
        ≡ (if succeeded e then f (rows_of (s.disk).shadow) else rows_of (s.disk).shadow)
  changed-rows st f s = change_files-rows (query engine st s) f s (query-eq-ok st s)

  pub get_all_files-row :
      (s : Store) (d : Dict FileRecord) (p : String)
      → get_all_files engine s ≡ ok d
      → lookup p d ≡ row s p
  unfolding get_all_files lookup
  get_all_files-row s d p h = ground (arith, lookup-collect_rows p (rows_of (s.disk).shadow) [])

  pub get_all_files-NodupKeys :
      (s : Store) (d : Dict FileRecord) → get_all_files engine s ≡ ok d → NodupKeys d
  unfolding get_all_files
  get_all_files-NodupKeys s d h = go (read_files (query engine select_files s)) h
    where
      go :
          (o : Result (List Row))
          → elim o as (λ _. Result (Dict FileRecord)) [
            | err e ↦ err e
            | ok rows ↦ ok (collect_rows rows [])
          ]
            ≡ ok d
          → NodupKeys d
      go (err e) k = absurd (cc)
      go (ok rows) k = subst NodupKeys (ok_inj k) (collect_rows-NodupKeys rows [] tt)

  pub row-upsert_file :
      (now : Moment) (r : FileRecord) (s : Store) (p : String)
      → row (upsert_file engine now r s).1 p ≡ (
          if succeeded (upsert_file engine now r s).0 && p == r.abs_path
          then some (stored now r)
          else row s p)
  unfolding upsert_file to_row
  row-upsert_file now r s p =
      ap (λ rows. Option.map to_record (find_row p rows))
        (changed-rows insert_or_replace (replace_row (to_row now r)) s)
      ∙ row-if _ p r.abs_path (some (stored now r)) (replace_row (to_row now r) rows) rows
          (ground (arith, find_row-replace_row p (to_row now r) rows, to_record-to_row now r))
    where
      rows : List Row
      rows = rows_of (s.disk).shadow

  pub row-remove_row :
      (k : String) (s : Store) (p : String)
      → row (remove_row engine k s).1 p
        ≡ (if succeeded (remove_row engine k s).0 && p == k then none else row s p)
  unfolding remove_row
  row-remove_row k s p =
      ap (λ rows. Option.map to_record (find_row p rows))
        (changed-rows delete_file (delete_rows k) s)
      ∙ row-if _ p k none (delete_rows k rows) rows (ground (arith, find_row-delete_rows p k rows))
    where
      rows : List Row
      rows = rows_of (s.disk).shadow

  pub row-update_scrub_status :
      (now : Moment) (k : String) (s : Store) (p : String)
      → row (update_scrub_status engine now k s).1 p ≡ (
          if succeeded (update_scrub_status engine now k s).0 && p == k
          then Option.map (scrubbed now) (row s p)
          else row s p)
  unfolding update_scrub_status
  row-update_scrub_status now k s p =
      ap (λ rows. Option.map to_record (find_row p rows))
        (changed-rows update_scrub (mark_scrubbed (unix now) k) s)
      ∙ row-if _ p k (Option.map (scrubbed now) (row s p)) (mark_scrubbed (unix now) k rows) rows (
          ground
            (arith, find_row-mark_scrubbed p (unix now) k rows, map-mark now (find_row p rows)))
    where
      rows : List Row
      rows = rows_of (s.disk).shadow

  abbrev pub sqlite_laws : (os : Os) (fl : Float64) → IsLawful (sqlite os engine fl)
  sqlite_laws os fl = record {
    row = row;
    get_all-row = get_all_files-row;
    get_all-NodupKeys = get_all_files-NodupKeys;
    row-upsert = row-upsert_file;
    row-delete = row-remove_row;
    row-update = row-update_scrub_status;
  }

  -- Whatever the engine and the operating system answer: `GetAllFiles` lists the records of the
  -- shadow database by path, each path once; `UpsertFile`, `DeleteFile` and `UpdateScrubStatus` that return no error
  -- write the record in whole seconds, remove it, and count the scrub, and touch no other path; one that
  -- returns an error changes no record.
  pub sqlite-IsLawful : (os : Os) (fl : Float64) → IsLawful (sqlite os engine fl)
  sqlite-IsLawful = sqlite_laws

  pub query-IsOpen :
      (st : Statement) (s : Store) (db : Database)
      → engine.fails st db ≡ none
      → s.db ≡ live
      → (s.disk).shadow ≡ some db
      → query engine st s ≡ ok db
  unfolding query
  query-IsOpen st s db runs alive here = rw (alive, here, runs)

  changed-IsOpen :
      (st : Statement) (f : List Row → List Row) (s : Store)
      → ((db : Database) → engine.fails st db ≡ none)
      → IsOpen s
      → let (e, t) = change_files (query engine st s) f s in (e ≡ none) × IsOpen t
  unfolding change_files change_table
  changed-IsOpen st f s runs good =
      let (db, rows, here, files) = good.tables in
      subst (λ o. let (e, t) = change_files o f s in (e ≡ none) × IsOpen t)
        (sym (query-IsOpen st s db (runs db) good.alive here))
        (subst (λ o. let (e, t) = change_table db o f s in (e ≡ none) × IsOpen t) (sym files)
          (
            refl,
            record {
              alive = good.alive;
              tables = (record db { files = some (f rows) }, f rows, refl, refl);
            },
          ))

  -- With an engine that runs the two statements, a repository that is open stays open and its writes
  -- succeed.
  pub sqlite-IsReliable :
      (os : Os) (fl : Float64)
      → ((db : Database) → engine.fails insert_or_replace db ≡ none)
      → ((db : Database) → engine.fails delete_file db ≡ none)
      → IsReliable (sqlite os engine fl) IsOpen
  unfolding upsert_file remove_row
  sqlite-IsReliable os fl inserts deletes = record {
    upsert_succeeds = λ now r s good.
        changed-IsOpen insert_or_replace (replace_row (to_row now r)) s inserts good;
    delete_succeeds = λ k s good. changed-IsOpen delete_file (delete_rows k) s deletes good;
  }

  -- The row is appended to the table that is there.
  insert_run_history-IsOpen :
      (r : RunRecord) (s : Store) (db : Database) (runs : List RunRecord)
      → engine.fails insert_run db ≡ none
      → s.db ≡ live
      → (s.disk).shadow ≡ some db
      → db.run_history ≡ some runs
      → insert_run_history engine r s ≡ insert_into r db (some runs) s
  unfolding insert_run_history insert_queried
  insert_run_history-IsOpen r s db runs works alive here table =
      ap (λ o. insert_queried r o s) (query-IsOpen insert_run s db works alive here)
      ∙ ap (λ o. insert_into r db o s) table

  pub insert_run_history-shadow :
      (r : RunRecord) (s : Store) (db : Database) (runs : List RunRecord)
      → engine.fails insert_run db ≡ none
      → s.db ≡ live
      → (s.disk).shadow ≡ some db
      → db.run_history ≡ some runs
      → let (e, t) = insert_run_history engine r s in
        (e ≡ none)
        × ((t.disk).shadow
            ≡ some (record db {
              run_history = some (runs ++ (recorded db r ∷ []));
              next_id = db.next_id + 1;
            }))
  unfolding insert_into
  insert_run_history-shadow r s db runs works alive here table =
      let e = insert_run_history-IsOpen r s db runs works alive here table in
      (ap (λ out. out.0) e, ap (λ out. ((out.1).disk).shadow) e)
