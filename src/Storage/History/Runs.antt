-- ===== src/Storage/History/Runs.antt =====
-- A run that a commit has published is found again.
use bit_rot_detector.Base.{
  ℕ, ◌+◌, false, none, some, List, [], ◌∷◌, ◌++◌, ◌≡◌, refl, ap, subst, ◌∙◌, arith, ==_refl, ◌==◌,
  nat_eq, All,
}
use bit_rot_detector.Base.Moment.{unix, at_unix}
use bit_rot_detector.Domain.{ok, RunRecord}
use bit_rot_detector.Storage.Table.{Database, Statement, insert_run, select_runs_in, Engine}
use bit_rot_detector.Storage.Store.{Store, live, Os, insert_run_history, recorded, commit}
use bit_rot_detector.Storage.Store.Laws.{insert_run_history-shadow}
use bit_rot_detector.Storage.Store.Swap.{Outcome, commit_lem}
use bit_rot_detector.Storage.History.{get_runs_by_ids, read_runs, query_runs, query_table, runs_in}

-- No run has the number that the next one will get.
abbrev pub Fresh : ℕ → List RunRecord → Type 0
Fresh n = All (λ (r : RunRecord). (r.id == n) ≡ false)

runs_in-Fresh :
    (n : ℕ) (runs : List RunRecord) (r : RunRecord)
    → Fresh n runs
    → r.id ≡ n
    → runs_in (n ∷ []) (runs ++ (r ∷ [])) ≡ r ∷ []
unfolding runs_in
runs_in-Fresh n [] r h e = ground (arith, ==_refl n)
runs_in-Fresh n (x ∷ runs) r (h, hs) e = ground (arith, runs_in-Fresh n runs r hs e)

-- The record is that of the run, with its number and with its start in whole seconds.
pub record Kept (r : RunRecord) (id : ℕ) (kept : RunRecord) : Type 0 where
  pub number : kept.id ≡ id
  pub drive : (kept.drive_id ≡ r.drive_id) × (kept.drive_name ≡ r.drive_name)
  pub started : kept.started_at ≡ at_unix (unix r.started_at)
  pub took : kept.duration_ms ≡ r.duration_ms
  pub scanned : kept.files_scanned ≡ r.files_scanned
  pub added : kept.files_added ≡ r.files_added
  pub modified : kept.files_modified ≡ r.files_modified
  pub removed : kept.files_removed ≡ r.files_removed
  pub moved : kept.files_moved ≡ r.files_moved
  pub validated : kept.files_validated ≡ r.files_validated
  pub corrupted : kept.files_corrupted ≡ r.files_corrupted
  pub errors : (kept.sync_errors ≡ r.sync_errors) × (kept.scrub_errors ≡ r.scrub_errors)

-- Over an engine whose statements never fail, on an open repository with a run_history table in which no
-- run has the number that the engine gives next: after `InsertRunHistory` and a `Commit` that returns no
-- error, `GetRunsByIDs` of this number on the production database returns one run, which has each field
-- of the run that was recorded, this number, and its start in whole seconds.
pub get_runs_by_ids-commit :
    (os : Os) (engine : Engine) (r : RunRecord) (s : Store) (db : Database) (runs : List RunRecord)
    → s.db ≡ live
    → (s.disk).shadow ≡ some db
    → db.run_history ≡ some runs
    → Fresh db.next_id runs
    → ((st : Statement) (d : Database) → engine.fails st d ≡ none)
    → (commit os (insert_run_history engine r s).1).0 ≡ none
    → (kept : RunRecord) × (get_runs_by_ids engine none
          ((commit os (insert_run_history engine r s).1).1.disk).prod
          (db.next_id ∷ [])
        ≡ ok (kept ∷ []))
      × Kept r db.next_id kept
unfolding get_runs_by_ids read_runs query_runs query_table
get_runs_by_ids-commit os engine r s db runs alive here table fresh works done =
    let (_, inserted) =
      insert_run_history-shadow engine r s db runs (works insert_run db) alive here table in
    let (published, _, _, _) =
      subst
        (λ e.
          Outcome e (insert_run_history engine r s).1
            (commit os (insert_run_history engine r s).1).1)
        done (commit_lem os (insert_run_history engine r s).1) in
    (
      recorded db r,
      ap (λ o. get_runs_by_ids engine none o (db.next_id ∷ [])) (published ∙ inserted)
          ∙ ap (λ o. query_runs engine none o after (runs_in (db.next_id ∷ [])))
              (works select_runs_in after)
          ∙ ap ok (runs_in-Fresh db.next_id runs (recorded db r) fresh refl),
      record {
        number = refl;
        drive = (refl, refl);
        started = refl;
        took = refl;
        scanned = refl;
        added = refl;
        modified = refl;
        removed = refl;
        moved = refl;
        validated = refl;
        corrupted = refl;
        errors = (refl, refl);
      },
    )
  where
    after : Database
    after = record db {
      run_history = some (runs ++ (recorded db r ∷ []));
      next_id = db.next_id + 1;
    }
