-- ===== src/Coordinator/Drives/Tests.antt =====
-- Two drives and one worker.
use bit_rot_detector.Base.{◌≤◌, String, none, some, List, [], ◌∷◌, ◌++◌, ◌≡◌, refl, arith, map}
use bit_rot_detector.Coordinator.{DriveResult}
use bit_rot_detector.Coordinator.Drives.{
  Choice, acquire, release, spawn, held, change_at, go_on, goes_on, results_of, run_drives,
}
use bit_rot_detector.Coordinator.Drives.Schedule.{run_drives-completes}

abbrev process : String → DriveResult
process path = record {
  drive = path;
  health = none;
  sync_result = none;
  scrub_result = none;
  error = none;
}

-- The second drive first; the first one has to wait.
abbrev turns : List Choice
turns = acquire 1 ∷ acquire 0 ∷ release 1 ∷ acquire 0 ∷ release 0 ∷ []

abbrev two_paths : List String
two_paths = "/a" ∷ "/b" ∷ []

all_done :
    results_of (run_drives process 1 two_paths turns) ≡ some (process "/a" ∷ process "/b" ∷ [])
unfolding results_of run_drives goes_on go_on change_at held spawn
all_done = refl

run_drives-completes_example :
    (held (run_drives process 1 two_paths (acquire 1 ∷ [])) ≤ 1)
    × ((more : List Choice) × (results_of
            (run_drives process 1 two_paths ((acquire 1 ∷ []) ++ more))
          ≡ some (map process two_paths)))
run_drives-completes_example =
    run_drives-completes process 1 two_paths (acquire 1 ∷ []) (omega arith)
