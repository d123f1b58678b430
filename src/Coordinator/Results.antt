-- ===== src/Coordinator/Results.antt =====
-- The result of a drive, and the collection of the results of all drives, in
-- internal/coordinator/coordinator.go.
use bit_rot_detector.Base.{String, ◌<>◌, Option, none, some, List, [], ◌∷◌}
use bit_rot_detector.Domain.{SyncResult, ScrubResult, DriveHealth}

pub record DriveResult : Type 0 where
  pub drive : String
  pub health : Option DriveHealth
  pub sync_result : Option SyncResult
  pub scrub_result : Option ScrubResult
  pub error : Option String

-- `CollectErrors`
unfoldable pub collect_errors : List DriveResult → List String
collect_errors [] = []
collect_errors (r ∷ results) =
    let rest = collect_errors results in
    elim r.error [ none ↦ rest | some e ↦ ("[" <> r.drive <> "] " <> e) ∷ rest ]

-- `ToMailerSyncEntries` and `ToMailerScrubEntries`: the drive and the result.
pub to_mailer_sync_entries : List DriveResult → List (String × SyncResult)
to_mailer_sync_entries [] = []
to_mailer_sync_entries (r ∷ results) =
    let rest = to_mailer_sync_entries results in
    elim r.sync_result [ none ↦ rest | some s ↦ (r.drive, s) ∷ rest ]

unfoldable pub to_mailer_scrub_entries : List DriveResult → List (String × ScrubResult)
to_mailer_scrub_entries [] = []
to_mailer_scrub_entries (r ∷ results) =
    let rest = to_mailer_scrub_entries results in
    elim r.scrub_result [ none ↦ rest | some s ↦ (r.drive, s) ∷ rest ]

-- `ToHealthSlice`
pub to_health_slice : List DriveResult → List DriveHealth
to_health_slice [] = []
to_health_slice (r ∷ results) =
    let rest = to_health_slice results in elim r.health [ none ↦ rest | some h ↦ h ∷ rest ]
