-- ===== src/Api.antt =====
-- internal/api/server.go: the operations that the server starts in the background. A `Server` holds the
-- status and the operations whose goroutine has not stored its results yet; a response is its code with
-- its message. `show` is `Duration.String`, and `atoi` is `strconv.Atoi`, with whether it fails. The
-- mutex makes each handler's test and change of the status one step, and the storing of the results
-- another.
pub mod Exclusive
pub mod Queries
pub mod Hub
pub mod Stream
pub mod Stores
pub mod Tests
use bit_rot_detector.Base.{
  ℕ, zero, suc, String, Bool, true, false, Option, none, some, List, [], ◌∷◌, ◌++◌, if◌then◌else◌,
}
use bit_rot_detector.Base.Int.{ℤ, pos, negsuc}
use bit_rot_detector.Base.Moment.{Moment}
use bit_rot_detector.Domain.{SyncResult, ScrubResult, DriveHealth}
use bit_rot_detector.Coordinator.{DriveResult, Options}

pub record DriveStatus : Type 0 where
  pub drive : String
  pub path : String
  pub health : Option DriveHealth
  pub sync_result : Option SyncResult
  pub scrub_result : Option ScrubResult
  -- "" for no error.
  pub err : String

pub record Status : Type 0 where
  pub last_run : Option Moment
  pub duration : String
  pub running : Bool
  pub drives : List DriveStatus

-- An operation in the background: what `coordinator.Run` is called with.
pub record Operation (Float : Type 0) : Type 0 where
  pub targets : List String
  pub opts : Options Float

pub record Server (Float : Type 0) : Type 0 where
  pub opts : Options Float
  pub paths : List String
  pub status : Status
  pub working : List (Operation Float)

abbrev pub Response : Type 0
Response = ℕ × String

-- The status of a drive, from its result and its path.
pub drive_status : String → DriveResult → DriveStatus
drive_status p r = record {
  drive = r.drive;
  path = p;
  health = r.health;
  sync_result = r.sync_result;
  scrub_result = r.scrub_result;
  err = elim r.error [ none ↦ "" | some e ↦ e ];
}

-- The loop over the results. `coordinator.Run` returns as many results as there are paths.
unfoldable pub drive_statuses : List String → List DriveResult → List DriveStatus
drive_statuses paths [] = []
drive_statuses [] (r ∷ results) = []
drive_statuses (p ∷ paths) (r ∷ results) = drive_status p r ∷ drive_statuses paths results

-- The operation at an index, and the others.
unfoldable pub take_operation {ℓ} : {A : Type ℓ} → ℕ → List A → Option (A × List A)
take_operation n [] = none
take_operation zero (x ∷ xs) = some (x, xs)
take_operation (suc n) (x ∷ xs) = elim (take_operation n xs) [
  | none ↦ none
  | some (y, ys) ↦ some (y, x ∷ ys)
]

unfoldable pub path_at : ℕ → List String → Option String
path_at n [] = none
path_at zero (p ∷ paths) = some p
path_at (suc n) (p ∷ paths) = path_at n paths

-- `parseDriveIdx`: the path at the index.
unfoldable pub parse_drive_idx : ℤ × Bool → List String → Option String
parse_drive_idx (n, true) paths = none
parse_drive_idx (negsuc n, false) paths = none
parse_drive_idx (pos n, false) paths = path_at n paths

module _ {Float : Type 0} where
  -- `New`
  unfoldable pub new : List String → Options Float → Server Float
  new paths opts = record {
    opts = opts;
    paths = paths;
    status = record { last_run = none; duration = ""; running = false; drives = [] };
    working = [];
  }

  -- `startOperationForPaths`
  unfoldable pub start_operation_for_paths :
      List String → Options Float → Server Float → Response × Server Float
  start_operation_for_paths targets opts s =
      if (s.status).running then ((409, "an operation is already in progress"), s) else (
        (202, "accepted"),
        record s {
          status = record (s.status) { running = true };
          working = record { targets = targets; opts = opts } ∷ s.working;
        },
      )

  abbrev sync_only : Options Float → Options Float
  sync_only opts = record opts { run_sync = true; run_scrub = false }

  abbrev scrub_only : Options Float → Options Float
  scrub_only opts = record opts { run_sync = false; run_scrub = true }

  -- `handleSync`
  unfoldable pub handle_sync : Server Float → Response × Server Float
  handle_sync s = start_operation_for_paths s.paths (sync_only s.opts) s

  -- `handleScrub`
  unfoldable pub handle_scrub : Server Float → Response × Server Float
  handle_scrub s = start_operation_for_paths s.paths (scrub_only s.opts) s

  -- `handleDriveSync` and `handleDriveScrub`, of what `Atoi` makes of the index.
  unfoldable pub handle_drive_sync : ℤ × Bool → Server Float → Response × Server Float
  handle_drive_sync idx s = elim (parse_drive_idx idx s.paths) [
    | none ↦ ((400, "invalid drive index"), s)
    | some p ↦ start_operation_for_paths (p ∷ []) (sync_only s.opts) s
  ]

  unfoldable pub handle_drive_scrub : ℤ × Bool → Server Float → Response × Server Float
  handle_drive_scrub idx s = elim (parse_drive_idx idx s.paths) [
    | none ↦ ((400, "invalid drive index"), s)
    | some p ↦ start_operation_for_paths (p ∷ []) (scrub_only s.opts) s
  ]

  -- The end of the background goroutine, for the operation at an index of `working`.
  unfoldable pub store_results :
      (show : ℕ → String)
      → ℕ
      → List DriveResult
      → (duration : ℕ) → Moment
      → Server Float
      → Server Float
  store_results show n results duration now s = elim (take_operation n s.working) [
    | none ↦ s
    | some (op, others) ↦ record s {
      status = record {
        last_run = some now;
        duration = show duration;
        running = false;
        drives = drive_statuses op.targets results;
      };
      working = others;
    }
  ]

-- What happens to the server, in the order in which the mutex lets it: a request, or the end of an
-- operation.
pub data Event : Type 0 where
  sync scrub : Event
  drive_sync drive_scrub : ℤ × Bool → Event
  ends : ℕ → List DriveResult → (duration : ℕ) → Moment → Event

module _ {Float : Type 0} (show : ℕ → String) where
  unfoldable pub handle : Event → Server Float → Server Float
  handle sync s = (handle_sync s).1
  handle scrub s = (handle_scrub s).1
  handle (drive_sync idx) s = (handle_drive_sync idx s).1
  handle (drive_scrub idx) s = (handle_drive_scrub idx s).1
  handle (ends n results duration now) s = store_results show n results duration now s

  unfoldable pub serve : List Event → Server Float → Server Float
  serve [] s = s
  serve (e ∷ events) s = serve events (handle e s)
