-- ===== src/System.antt =====
-- The whole program: cmd/bit-rot-detector/main.go over internal/coordinator, which goes over the drives
-- with internal/scanner and internal/storage. A `Machine` is what a run meets: at each path a drive and
-- the answers of its operating system, and the order in which the goroutines of the drives go on.
pub mod Healthy
pub mod Detection
pub mod Tests
use bit_rot_detector.Base.{ℕ, String, Bool, Option, none, some, List, [], ◌≡◌, ◌||◌, false}
use bit_rot_detector.Domain.{Result, ok}
use bit_rot_detector.Storage.Store.{Float64}
use bit_rot_detector.Coordinator.{DriveResult, Options, Drive, World, process_drive}
use bit_rot_detector.Coordinator.Drives.{Choice, run_drives, results_of}
use bit_rot_detector.Mailer
use bit_rot_detector.Config.{Config, Lookup, load}
use bit_rot_detector.Command.{Flags, Program, Mail, operations, run}

pub record Machine (Float : Type 0) : Type 1 where
  -- The operations on `float64`.
  pub of_int : ℕ → Float
  pub mul : Float → Float → Float
  pub div : Float → Float → Float
  pub to_int : Float → ℕ
  pub worlds : String → World
  pub drives : String → Drive
  pub turns : List Choice
  pub duration : ℕ
  pub test_email_fails : Option String
  pub server_fails : Option String
  pub watcher_fails : Option String

module _ {Float : Type 0} (m : Machine Float) where
  abbrev pub float64 : Float64
  float64 = record { Float = Float; of_int = m.of_int; mul = m.mul; div = m.div; to_int = m.to_int }

  abbrev pub world_of : String → World
  world_of path = record (m.worlds path) { fl = float64 }

  -- `processDrive` at a path: the result, and the drive after it.
  abbrev pub process_path : Options Float → String → DriveResult × Drive
  process_path opts path = process_drive (world_of path) path opts (m.drives path)

  -- The results of `coordinator.Run`, if all goroutines are done.
  abbrev pub drive_results : List String → Options Float → Option (List DriveResult)
  drive_results paths opts =
      results_of (run_drives (λ p. (process_path opts p).0) opts.max_workers paths m.turns)

  -- An order that does not come to the end of all drives has no results here.
  abbrev pub program : Program Float
  program = record {
    drives = λ paths opts. elim (drive_results paths opts) [ none ↦ [] | some results ↦ results ];
    duration = m.duration;
    test_email_fails = m.test_email_fails;
    server_fails = m.server_fails;
    watcher_fails = m.watcher_fails;
  }

-- `main`: the exit code and the mail.
unfoldable pub main : (go : Lookup) → Mailer.Formats → Flags → Machine go.Float → ℕ × Mail
main go f flags m = run go f flags (program m)

-- What a run that is neither a test, nor a server, nor a watch meets if it comes to its end: the
-- configuration loads, and all drives are done.
pub record Ends (go : Lookup) (flags : Flags) (m : Machine go.Float) (cfg : Config go.Float)
    : Type 0 where
  pub loaded : load go ≡ ok cfg
  pub plain : (flags.test_email || flags.web_mode || flags.watch_mode) ≡ false
  pub results : List DriveResult
  pub finished : drive_results m cfg.target_paths (operations flags cfg) ≡ some results
