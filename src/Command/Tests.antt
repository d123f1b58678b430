-- ===== src/Command/Tests.antt =====
-- Runs over one drive: one that fails, and one that is clean.
use bit_rot_detector.Base.{ℕ, true, false, ◌||◌, none, some, [], ◌∷◌, ◌≡◌, ◌↔◌, refl}
use bit_rot_detector.Mailer
use bit_rot_detector.Mailer.Tests.{words}
use bit_rot_detector.Config.Tests.{lookup, defaults, loads}
use bit_rot_detector.Coordinator.{collect_errors, to_mailer_scrub_entries}
use bit_rot_detector.Command.{Flags, Program, operations, report, run}
use bit_rot_detector.Command.Exit.{run_lem}

abbrev scrub_flag : Flags
scrub_flag = record {
  sync_only = false;
  scrub_only = true;
  test_email = false;
  watch_mode = false;
  web_mode = false;
}

abbrev unplugged : Program ℕ
unplugged = record {
  drives = λ paths opts.
      record {
        drive = "a";
        health = none;
        sync_result = none;
        scrub_result = none;
        error = some "canary pre-check failed";
      }
      ∷ [];
  duration = 5;
  test_email_fails = none;
  server_fails = none;
  watcher_fails = none;
}

run_lem_example :
    let opts = operations scrub_flag defaults in
    let results = unplugged.drives defaults.target_paths opts in
    ((opts.run_sync || opts.run_scrub) ≡ true)
    × ((run lookup words scrub_flag unplugged).1 ≡ report words defaults.email 5 results)
    × (((run lookup words scrub_flag unplugged).0 ≡ 0)
        ↔ (Mailer.status (to_mailer_scrub_entries results) (collect_errors results) ≡ "SUCCESS"))
run_lem_example = run_lem lookup words scrub_flag unplugged defaults loads refl
