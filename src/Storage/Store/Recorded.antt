-- ===== src/Storage/Store/Recorded.antt =====
-- `InsertRunHistory` of internal/storage/repository.go leaves the records of the files.
use mathlib.Core.Option
use bit_rot_detector.Base.{String, Option, none, some, List, ◌≡◌, refl, sym, ap, arith}
use bit_rot_detector.Domain.{Result, ok, err, ok_inj, RunRecord}
use bit_rot_detector.Storage.Table.{Database, Engine, Statement, insert_run, to_record}
use bit_rot_detector.Storage.Table.Rows.{find_row}
use bit_rot_detector.Storage.Store.{
  Store, Connection, live, closed, nil, query, insert_run_history, insert_queried, insert_into,
}
use bit_rot_detector.Storage.Store.Laws.{row, rows_of}

-- A statement that does not fail meets the shadow.
query-shadow :
    (engine : Engine) (st : Statement) (s : Store) (db : Database)
    → query engine st s ≡ ok db
    → (s.disk).shadow ≡ some db
unfolding query
query-shadow engine st s db h = on s.db (s.disk).shadow h
  where
    on :
        (c : Connection) (o : Option Database)
        → elim c as (λ _. Result Database) [
          | nil ↦ err "invalid memory address or nil pointer dereference"
          | closed ↦ err "sql: database is closed"
          | live ↦ elim o [
            | none ↦ err "unable to open database file"
            | some db ↦ elim (engine.fails st db) [ some e ↦ err e | none ↦ ok db ]
          ]
        ]
          ≡ ok db
        → o ≡ some db
    on nil o h = absurd (ground (arith, h))
    on closed o h = absurd (ground (arith, h))
    on live none h = absurd (ground (arith, h))
    on live (some d) h = failed (engine.fails st d) h
      where
        failed :
            (e : Option String)
            → elim e as (λ _. Result Database) [ some e ↦ err e | none ↦ ok d ] ≡ ok db
            → some d ≡ some db
        failed (some e) h = absurd (ground (arith, h))
        failed none h = ap some (ok_inj h)

pub row-insert_run_history :
    (engine : Engine) (r : RunRecord) (s : Store) (p : String)
    → row (insert_run_history engine r s).1 p ≡ row s p
unfolding insert_run_history insert_queried insert_into
row-insert_run_history engine r s p =
    queried (query engine insert_run s) (λ db h. query-shadow engine insert_run s db h)
  where
    inserted :
        (db : Database) (runs : Option (List RunRecord))
        → (s.disk).shadow ≡ some db
        → row (insert_into r db runs s).1 p ≡ row s p
    inserted db none here = refl
    inserted db (some runs) here =
        sym (ap (λ o. Option.map to_record (find_row p (rows_of o))) here)

    queried :
        (o : Result Database)
        → ((db : Database) → o ≡ ok db → (s.disk).shadow ≡ some db)
        → row (insert_queried r o s).1 p ≡ row s p
    queried (err e) h = refl
    queried (ok db) h = inserted db db.run_history (h db refl)
