-- ===== src/Command.antt =====
-- cmd/bit-rot-detector/main.go: `run`, from the flags and the environment to the exit code and the mail.
-- `Program` is what the parts that it calls do: the drives that `coordinator.Run` returns, with its
-- duration, and the errors of the web server, of the watcher and of the test mail.
pub mod Exit
pub mod Tests
use bit_rot_detector.Base.{
  ℕ, String, Bool, true, false, not, ◌||◌, Option, none, some, List, [], ◌∷◌, ltb, length,
  if◌then◌else◌,
}
use bit_rot_detector.Domain.{Result, ok, err, ScrubResult}
use bit_rot_detector.Mailer
use bit_rot_detector.Mailer.Report.{send_unified_report}
use bit_rot_detector.Config.{Config, Lookup, load}
use bit_rot_detector.Coordinator.{
  DriveResult, Options, collect_errors, to_mailer_sync_entries, to_mailer_scrub_entries,
  to_health_slice,
}

pub record Flags : Type 0 where
  pub sync_only : Bool
  pub scrub_only : Bool
  pub test_email : Bool
  pub watch_mode : Bool
  pub web_mode : Bool

pub record Program (Float : Type 0) : Type 0 where
  pub drives : (paths : List String) → Options Float → List DriveResult
  pub duration : ℕ
  pub test_email_fails : Option String
  pub server_fails : Option String
  pub watcher_fails : Option String

-- The mail of a run: its subject and its body.
abbrev pub Mail : Type 0
Mail = Option (String × List String)

-- The mail about the drives. `onChange` of the watch mode sends it for the changed paths.
unfoldable pub report : Mailer.Formats → Mailer.Config → ℕ → List DriveResult → Mail
report f email duration results =
    send_unified_report f email (to_mailer_sync_entries results) (to_mailer_scrub_entries results)
      (to_health_slice results) (collect_errors results) duration

module _ {Float : Type 0} where
  -- The operations that the flags ask for.
  unfoldable pub operations : Flags → Config Float → Options Float
  operations flags cfg = record {
    run_sync = flags.sync_only || not flags.scrub_only;
    run_scrub = flags.scrub_only || not flags.sync_only;
    scrub_percentage = cfg.scrub_percentage;
    scrub_frequency = cfg.scrub_frequency;
    max_workers = cfg.max_workers;
  }

  pub on_change : Mailer.Formats → Flags → Config Float → Program Float → List String → Mail
  on_change f flags cfg prog changed =
      report f cfg.email prog.duration (prog.drives changed (operations flags cfg))

-- The loop over the scrub entries.
unfoldable pub found_bit_rot : List (String × ScrubResult) → Bool
found_bit_rot [] = false
found_bit_rot ((drive, r) ∷ entries) =
    let rest = found_bit_rot entries in if ltb 0 (length r.files_corrupted) then true else rest

-- From the errors on.
unfoldable pub exit_code : List DriveResult → ℕ
exit_code results =
    if ltb 0 (length (collect_errors results))
    then 1
    else if found_bit_rot (to_mailer_scrub_entries results)
    then 1
    else 0

-- 1 for an error, else 0.
abbrev pub code : Option String → ℕ
code none = 0
code (some e) = 1

module _ {Float : Type 0} where
  -- With a configuration.
  unfoldable pub run_with : Mailer.Formats → Flags → Config Float → Program Float → ℕ × Mail
  run_with f flags cfg prog =
      let results = prog.drives cfg.target_paths (operations flags cfg) in
      if flags.test_email
      then (code prog.test_email_fails, none)
      else if flags.web_mode
      then (code prog.server_fails, none)
      else if flags.watch_mode
      then (code prog.watcher_fails, none)
      else (exit_code results, report f cfg.email prog.duration results)

-- `run`: the exit code, and the mail of a run that is neither a test, nor a server, nor a watch.
unfoldable pub run : (go : Lookup) → Mailer.Formats → Flags → Program go.Float → ℕ × Mail
run go f flags prog = elim (load go) [ err e ↦ (1, none) | ok cfg ↦ run_with f flags cfg prog ]
