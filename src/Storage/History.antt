-- ===== src/Storage/History.antt =====
-- The read-only queries of internal/storage/repository.go over the runs of a production database.
-- The loop over `rows.Next()` makes of each row the record that it holds, with whole seconds.
pub mod Runs
pub mod Tests
use Prim.Native.String.{find, len}
use bit_rot_detector.Base.{
  ℕ, String, ◌<>◌, Bool, true, false, Option, none, some, List, [], ◌∷◌, ltb, leb, take, contains,
  nat_eq, if◌then◌else◌,
}
use bit_rot_detector.Domain.{Result, ok, err, RunRecord}
use bit_rot_detector.Storage.Table.{
  Database, Statement, select_runs_in, select_corrupted, select_history, Engine,
}

-- `strings.Contains`
abbrev contains_text : String → String → Bool
contains_text s t = leb (find s t) (len s)

-- `WHERE id IN (…)`
unfoldable pub runs_in : List ℕ → List RunRecord → List RunRecord
runs_in ids [] = []
runs_in ids (r ∷ runs) = let rest = runs_in ids runs in if contains ids r.id then r ∷ rest else rest

-- `WHERE files_corrupted > 0`
pub corrupted_runs : List RunRecord → List RunRecord
corrupted_runs [] = []
corrupted_runs (r ∷ runs) =
    let rest = corrupted_runs runs in if ltb 0 r.files_corrupted then r ∷ rest else rest

-- A table that is not there yet is no error.
abbrev pub query_failed : String → Result (List RunRecord)
query_failed e = if contains_text e "no such table" then ok [] else err e

module _ (engine : Engine) (opening : Option String) where
  unfoldable pub query_table :
      Option (List RunRecord) → (List RunRecord → List RunRecord) → Result (List RunRecord)
  query_table none f = query_failed "no such table: run_history"
  query_table (some runs) f = ok (f runs)

  unfoldable pub query_runs :
      Option String → Database → (List RunRecord → List RunRecord) → Result (List RunRecord)
  query_runs (some e) db f = query_failed e
  query_runs none db f = query_table db.run_history f

  -- `opening` is an error of `sql.Open`.
  unfoldable pub read_runs :
      String
      → Statement
      → Option Database
      → (List RunRecord → List RunRecord)
      → Result (List RunRecord)
  read_runs purpose st none f = ok []
  read_runs purpose st (some db) f = elim opening [
    | some e ↦ err ("open prod DB for " <> purpose <> ": " <> e)
    | none ↦ query_runs (engine.fails st db) db f
  ]

  -- `GetRunsByIDs`
  unfoldable pub get_runs_by_ids : Option Database → List ℕ → Result (List RunRecord)
  get_runs_by_ids prod [] = ok []
  get_runs_by_ids prod (id ∷ ids) =
      read_runs "GetRunsByIDs" select_runs_in prod (runs_in (id ∷ ids))

  -- `GetCorruptionHistory`
  pub get_corruption_history : Option Database → ℕ → Result (List RunRecord)
  unfolding read_runs corrupted_runs
  get_corruption_history prod limit =
      read_runs "corruption history" select_corrupted prod
        (λ runs. take limit (engine.order_by_started_at_desc (corrupted_runs runs)))

  -- `GetRunHistoryForPath`
  unfoldable pub get_run_history : Option Database → ℕ → Result (List RunRecord)
  unfolding read_runs
  get_run_history prod limit =
      read_runs "history" select_history prod
        (λ runs. take limit (engine.order_by_started_at_desc runs))
