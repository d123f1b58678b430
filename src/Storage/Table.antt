-- ===== src/Storage/Table.antt =====
-- The two tables that internal/storage/repository.go creates, and the meaning of its SQL statements.
-- The engine is a parameter: which statement fails in which state, and the order in which
-- `ORDER BY` lists the rows. A statement that fails has changed nothing.
pub mod Rows
use bit_rot_detector.Base.{
  ℕ, suc, ◌+◌, String, Bool, true, false, not, ◌||◌, Option, none, some, List, [], ◌∷◌, ◌++◌, ◌==◌,
  string_eq, if◌then◌else◌,
}
use bit_rot_detector.Base.Int.{ℤ, pos, ltb_ℤ, int_eq}
use bit_rot_detector.Base.Moment.{Moment, unix, at_unix}
use bit_rot_detector.Base.Dict.{Dict, lookup, insert}
use bit_rot_detector.Domain.{FileRecord, RunRecord}

-- A row of `files`. The database has whole seconds.
pub record Row : Type 0 where
  pub abs_path : String
  pub hash : String
  pub added_at : ℤ
  pub last_seen : ℤ
  pub last_scrubbed : Option ℤ
  pub scrub_count : ℕ
  pub file_size : ℕ
  pub mtime : ℤ

-- The content of a database file. A table is `none` before `createSchema`.
pub record Database : Type 0 where
  pub files : Option (List Row)
  pub run_history : Option (List RunRecord)
  pub next_id : ℕ

-- An empty file.
abbrev pub blank : Database
blank = record { files = none; run_history = none; next_id = 1 }

-- What the loops over `rows.Next()` make of a row.
unfoldable pub to_record : Row → FileRecord
to_record r = record {
  abs_path = r.abs_path;
  hash = r.hash;
  added_at = at_unix r.added_at;
  last_seen = at_unix r.last_seen;
  last_scrubbed = elim r.last_scrubbed [ none ↦ none | some t ↦ some (at_unix t) ];
  scrub_count = r.scrub_count;
  file_size = r.file_size;
  mtime = at_unix r.mtime;
}

-- The arguments that `UpsertFile` binds.
unfoldable pub to_row : Moment → FileRecord → Row
to_row now r = record {
  abs_path = r.abs_path;
  hash = r.hash;
  added_at = if unix r.added_at == pos 0 then unix now else unix r.added_at;
  last_seen = unix now;
  last_scrubbed = elim r.last_scrubbed [ none ↦ none | some t ↦ some (unix t) ];
  scrub_count = r.scrub_count;
  file_size = r.file_size;
  mtime = unix r.mtime;
}

-- `DELETE FROM files WHERE abs_path = ?`
unfoldable pub delete_rows : String → List Row → List Row
delete_rows path [] = []
delete_rows path (r ∷ rows) =
    let rest = delete_rows path rows in if r.abs_path == path then rest else r ∷ rest

-- `INSERT OR REPLACE INTO files`, where `abs_path` is the primary key.
unfoldable pub replace_row : Row → List Row → List Row
unfolding delete_rows
replace_row r rows = delete_rows r.abs_path rows ++ (r ∷ [])

abbrev pub mark : ℤ → Row → Row
mark now r = record r { last_scrubbed = some now; scrub_count = r.scrub_count + 1 }

-- `UPDATE files SET last_scrubbed = ?, scrub_count = scrub_count + 1 WHERE abs_path = ?`
unfoldable pub mark_scrubbed : ℤ → String → List Row → List Row
mark_scrubbed now path [] = []
mark_scrubbed now path (r ∷ rows) =
    (if r.abs_path == path then mark now r else r) ∷ mark_scrubbed now path rows

-- The condition `last_scrubbed IS NULL OR last_scrubbed < ?`.
unfoldable pub scrubbed_before : ℤ → Row → Bool
scrubbed_before cutoff r = elim r.last_scrubbed [ none ↦ true | some t ↦ ltb_ℤ t cutoff ]

unfoldable pub rows_before : ℤ → List Row → List Row
unfolding scrubbed_before
rows_before cutoff [] = []
rows_before cutoff (r ∷ rows) =
    let rest = rows_before cutoff rows in if scrubbed_before cutoff r then r ∷ rest else rest

-- The loop of `GetAllFiles`.
unfoldable pub collect_rows : List Row → Dict FileRecord → Dict FileRecord
unfolding to_record insert
collect_rows [] out = out
collect_rows (r ∷ rows) out = collect_rows rows (insert r.abs_path (to_record r) out)

pub data Statement : Type 0 where
  journal_mode integrity_check create_schema select_files insert_or_replace delete_file : Statement
  select_for_scrub update_scrub insert_run select_runs_in select_corrupted select_history :
      Statement

pub record Engine : Type 0 where
  pub fails : Statement → Database → Option String
  pub order_by_last_scrubbed : List Row → List Row
  pub order_by_started_at_desc : List RunRecord → List RunRecord
