-- ===== src/System/Tests.antt =====
-- Runs over two drives: a run whose hashes are the recorded ones, and a run that finds a changed photo.
use bit_rot_detector.Base.{map, inl, string_eq, ℕ, true, false, none, [], ◌∷◌, ◌≡◌, refl, ap, ◌∙◌}
use bit_rot_detector.Domain.{ok}
use bit_rot_detector.Storage.Table.{to_record}
use bit_rot_detector.Storage.Store.{get_files_for_scrub, insert_run_history, update_scrub_status}
use bit_rot_detector.Storage.Store.Tests.{whole_numbers, photo, store, opens}
use bit_rot_detector.Mailer.Tests.{words}
use bit_rot_detector.Scanner.Tests.{hash_of}
use bit_rot_detector.Scanner.Scrub.Rotten.{IsRotten}
use bit_rot_detector.Config.Tests.{lookup, defaults, loads}
use bit_rot_detector.Coordinator.{World}
use bit_rot_detector.Coordinator.Tests.{world, mounted, program as computed}
use bit_rot_detector.Coordinator.Drives.{
  held, spawn, change_at, go_on, goes_on, results_of, run_drives, acquire, release,
}
use bit_rot_detector.Command.{found_bit_rot, exit_code, operations, Flags}
use bit_rot_detector.System.{Machine, Ends, main, process_path}
use bit_rot_detector.System.Healthy.{main-results, IsHealthy, main-IsHealthy}
use bit_rot_detector.System.Detection.{Selects, Alarm, main-detects}

abbrev flags : Flags
flags = record {
  sync_only = false;
  scrub_only = true;
  test_email = false;
  watch_mode = false;
  web_mode = false;
}

abbrev machine : World → Machine ℕ
machine w = record {
  of_int = (whole_numbers).of_int;
  mul = (whole_numbers).mul;
  div = (whole_numbers).div;
  to_int = (whole_numbers).to_int;
  worlds = λ p. w;
  drives = λ p. mounted;
  turns = acquire 1 ∷ acquire 0 ∷ release 0 ∷ release 1 ∷ [];
  duration = 5;
  test_email_fails = none;
  server_fails = none;
  watcher_fails = none;
}

abbrev rotten : Machine ℕ
rotten = machine world

abbrev intact : Machine ℕ
intact = machine (record world { scrub_hash = λ p. ok "aa" })

rotten-Ends : Ends lookup flags rotten defaults
unfolding run_drives results_of goes_on go_on change_at spawn held operations
rotten-Ends = record { loaded = loads; plain = refl; results = _; finished = refl }

unlike : IsRotten (λ p. false) hash_of (to_record photo)
unfolding to_record string_eq
unlike = (refl, ("bb", refl, refl))

chosen : Selects lookup words flags rotten defaults "/a" (to_record photo ∷ [])
unfolding computed operations get_files_for_scrub
chosen = record {
  content = "sum";
  opened = store;
  scrubbed = store;
  mounted = refl;
  opens = opens;
  starts = inl (refl, refl);
  asked = refl;
  alive = refl;
  in_time = λ k. refl;
  selected = refl;
}

main-detects_example : Alarm words "/d/photo" (main lookup words flags rotten)
unfolding to_record
main-detects_example =
    main-detects lookup words flags rotten defaults rotten-Ends [] ("/b" ∷ []) "/a" refl [] []
      (to_record photo) chosen unlike

intact-Ends : Ends lookup flags intact defaults
unfolding run_drives results_of goes_on go_on change_at spawn held operations
intact-Ends = record { loaded = loads; plain = refl; results = _; finished = refl }

returns_zero :
    exit_code
      (map (λ p. (process_path intact (operations flags defaults) p).0) defaults.target_paths)
    ≡ 0
unfolding computed operations exit_code found_bit_rot get_files_for_scrub insert_run_history
    update_scrub_status
returns_zero = refl

main-IsHealthy_example :
    IsHealthy lookup words flags intact defaults "/a"
    × (IsHealthy lookup words flags intact defaults "/b" × Unit {0})
main-IsHealthy_example =
    main-IsHealthy lookup words flags intact defaults intact-Ends (
      ap (λ out. out.0) (main-results lookup words flags intact defaults intact-Ends)
      ∙ returns_zero)
