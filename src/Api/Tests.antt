-- ===== src/Api/Tests.antt =====
-- A server with one path: a sync is started, a scrub is refused, and the sync ends.
use bit_rot_detector.Base.{ℕ, String, true, false, none, List, [], ◌∷◌, ◌≡◌, ◌⊎◌}
use bit_rot_detector.Base.Int.{pos}
use bit_rot_detector.Base.Moment.{at_unix}
use bit_rot_detector.Coordinator.{DriveResult, Options}
use bit_rot_detector.Api.{
  Operation, Event, sync, scrub, drive_scrub, ends, new, start_operation_for_paths, serve,
}
use bit_rot_detector.Api.Exclusive.{IsExclusive, serve-IsExclusive, start_operation_for_paths_lem}

abbrev both : Options ℕ
both = record {
  run_sync = true;
  run_scrub = true;
  scrub_percentage = 10;
  scrub_frequency = "daily";
  max_workers = 2;
}

abbrev show : ℕ → String
show n = "1s"

abbrev healthy : DriveResult
healthy = record {
  drive = "a";
  health = none;
  sync_result = none;
  scrub_result = none;
  error = none;
}

abbrev events : List Event
events = sync ∷ scrub ∷ ends 0 (healthy ∷ []) 5 (at_unix (pos 9)) ∷ drive_scrub (pos 0, false) ∷ []

serve-IsExclusive_example : IsExclusive (serve show events (new ("/a" ∷ []) both))
serve-IsExclusive_example = serve-IsExclusive show events ("/a" ∷ []) both

start_operation_for_paths_lem_example :
    let s = serve show events (new ("/a" ∷ []) both) in
    let (answer, t) = start_operation_for_paths ("/a" ∷ []) both s in
    ((s.working ≡ [])
      × (answer ≡ (202, "accepted"))
      × (t.working ≡ record { targets = "/a" ∷ []; opts = both } ∷ []))
    ⊎ ((op : Operation ℕ) × (s.working ≡ op ∷ [])
        × (answer ≡ (409, "an operation is already in progress"))
        × (t ≡ s))
start_operation_for_paths_lem_example =
    start_operation_for_paths_lem show events ("/a" ∷ []) both both ("/a" ∷ [])
