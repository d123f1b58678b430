-- ===== src/Storage/History/Tests.antt =====
-- A run that is recorded and published on a drive with two files.
use bit_rot_detector.Base.{none, [], ◌∷◌, ◌≡◌, refl}
use bit_rot_detector.Domain.{ok, RunRecord}
use bit_rot_detector.Storage.Store.{insert_run_history, commit}
use bit_rot_detector.Storage.Store.Tests.{
  plain_os, plain_engine, store, database, finished, recorded_commit,
}
use bit_rot_detector.Storage.History.{get_runs_by_ids}
use bit_rot_detector.Storage.History.Runs.{Kept, get_runs_by_ids-commit}

get_runs_by_ids-commit_example :
    (kept : RunRecord) × (get_runs_by_ids plain_engine none
        ((commit plain_os (insert_run_history plain_engine finished store).1).1.disk).prod
        (1 ∷ [])
      ≡ ok (kept ∷ []))
    × Kept finished 1 kept
get_runs_by_ids-commit_example =
    get_runs_by_ids-commit plain_os plain_engine finished store database [] refl refl refl tt
      (λ st d. refl) recorded_commit
