-- ===== src/Storage/Store/Untouched.antt =====
-- The calls of internal/storage/repository.go between `Open` and `Commit` leave the production database
-- alone.

use bit_rot_detector.Base.{String, Option, none, some, List, [], ◌∷◌, ◌≡◌, refl, ◌∙◌, arith}
use bit_rot_detector.Base.Moment.{Moment}
use bit_rot_detector.Domain.{Result, ok, err, FileRecord, RunRecord}
use bit_rot_detector.Domain.Lawful.{Preserves}
use bit_rot_detector.Storage.Table.{Row, Database, Engine}
use bit_rot_detector.Storage.Store.{
  Store, Os, query, change_files, change_table, upsert_file, remove_row, update_scrub_status,
  insert_run_history, Float64, sqlite, rollback, close,
}

-- The calls that a run makes before its `Commit`, except those that only read.
pub data Call : Type 0 where
  upserts : Moment → FileRecord → Call
  deletes : String → Call
  updates : Moment → String → Call
  inserts : RunRecord → Call
  rolls_back closes : Call

change_files-prod :
    (o : Result Database) (f : List Row → List Row) (s : Store)
    → ((change_files o f s).1.disk).prod ≡ (s.disk).prod
unfolding change_files change_table
change_files-prod (err e) f s = refl
change_files-prod (ok db) f s = go db.files
  where
    go : (o : Option (List Row)) → ((change_table db o f s).1.disk).prod ≡ (s.disk).prod
    go none = refl
    go (some rows) = refl

change_files-journal :
    (o : Result Database) (f : List Row → List Row) (s : Store)
    → ((change_files o f s).1.disk).journal ≡ (s.disk).journal
unfolding change_files change_table
change_files-journal (err e) f s = refl
change_files-journal (ok db) f s = go db.files
  where
    go : (o : Option (List Row)) → ((change_table db o f s).1.disk).journal ≡ (s.disk).journal
    go none = refl
    go (some rows) = refl

module _ (os : Os) (engine : Engine) where
  unfoldable pub step : Call → Store → Store
  step (upserts now r) s = (upsert_file engine now r s).1
  step (deletes path) s = (remove_row engine path s).1
  step (updates now path) s = (update_scrub_status engine now path s).1
  step (inserts r) s = (insert_run_history engine r s).1
  step rolls_back s = (rollback os s).1
  step closes s = (close os s).1

  unfoldable pub run : List Call → Store → Store
  unfolding step
  run [] s = s
  run (c ∷ calls) s = run calls (step c s)

  step-prod : (c : Call) (s : Store) → ((step c s).disk).prod ≡ (s.disk).prod
  unfolding step upsert_file remove_row update_scrub_status insert_run_history rollback close query
  step-prod (upserts now r) s = change_files-prod _ _ s
  step-prod (deletes path) s = change_files-prod _ _ s
  step-prod (updates now path) s = change_files-prod _ _ s
  step-prod (inserts r) s = ground arith
  step-prod rolls_back s = ground arith
  step-prod closes s = ground arith

  step-journal : (c : Call) (s : Store) → ((step c s).disk).journal ≡ (s.disk).journal
  unfolding step upsert_file remove_row update_scrub_status insert_run_history rollback close query
  step-journal (upserts now r) s = change_files-journal _ _ s
  step-journal (deletes path) s = change_files-journal _ _ s
  step-journal (updates now path) s = change_files-journal _ _ s
  step-journal (inserts r) s = ground arith
  step-journal rolls_back s = ground arith
  step-journal closes s = ground arith

  pub insert_run_history-journal :
      (r : RunRecord) (s : Store)
      → ((insert_run_history engine r s).1.disk).journal ≡ (s.disk).journal
  unfolding step
  insert_run_history-journal r s = step-journal (inserts r) s

  -- No call leaves a journal.
  pub sqlite-Preserves_journal :
      (fl : Float64) → Preserves (sqlite os engine fl) (λ s. (s.disk).journal ≡ none)
  unfolding step
  sqlite-Preserves_journal fl = record {
    by_upsert = λ now r s h. step-journal (upserts now r) s ∙ h;
    by_delete = λ path s h. step-journal (deletes path) s ∙ h;
    by_update = λ now path s h. step-journal (updates now path) s ∙ h;
  }

  pub rollback-prod : (s : Store) → ((rollback os s).1.disk).prod ≡ (s.disk).prod
  unfolding step
  rollback-prod s = step-prod rolls_back s

  pub insert_run_history-prod :
      (r : RunRecord) (s : Store) → ((insert_run_history engine r s).1.disk).prod ≡ (s.disk).prod
  unfolding step
  insert_run_history-prod r s = step-prod (inserts r) s

  pub sqlite-Preserves :
      (fl : Float64) (o : Option Database)
      → Preserves (sqlite os engine fl) (λ s. (s.disk).prod ≡ o)
  unfolding step
  sqlite-Preserves fl o = record {
    by_upsert = λ now r s h. step-prod (upserts now r) s ∙ h;
    by_delete = λ path s h. step-prod (deletes path) s ∙ h;
    by_update = λ now path s h. step-prod (updates now path) s ∙ h;
  }

  pub run-prod : (calls : List Call) (s : Store) → ((run calls s).disk).prod ≡ (s.disk).prod
  unfolding run
  run-prod [] s = refl
  run-prod (c ∷ calls) s = run-prod calls (step c s) ∙ step-prod c s

  pub run-journal :
      (calls : List Call) (s : Store) → ((run calls s).disk).journal ≡ (s.disk).journal
  unfolding run
  run-journal [] s = refl
  run-journal (c ∷ calls) s = run-journal calls (step c s) ∙ step-journal c s
