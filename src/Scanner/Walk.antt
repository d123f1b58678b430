-- ===== src/Scanner/Walk.antt =====
-- The producer of `SyncDirectory` in internal/scanner/scanner.go: what `filepath.WalkDir` meets,
-- and what the callback makes of it. The order of the events is that of the walk.
use bit_rot_detector.Base.{ℕ, String, Bool, List, [], ◌∷◌, ◌++◌, contains, string_eq, if◌then◌else◌}
use bit_rot_detector.Base.Moment.{Moment}
use bit_rot_detector.Domain.{Result, ok, err}

-- What `d.Info()` says of a file: the value type of `seenFiles`.
pub record Stamp : Type 0 where
  pub size : ℕ
  pub mtime : Moment

-- `unreadable` is a call of the callback with an error. A directory that cannot be read is a
-- `directory` that holds an `unreadable` entry.
mutual
  pub data Node : Type 0 where
    unreadable : (message : String) → Node
    directory : (name : String) → Forest → Node
    symlink : Node
    file : (base abs_path : String) → (info : Result Stamp) → Node

  pub data Forest : Type 0 where
    end : Forest
    entry : Node → Forest → Forest

pub data WalkEvent : Type 0 where
  failed : (message : String) → WalkEvent
  found : (path : String) → Stamp → WalkEvent

-- `skipSystemDir`, as a test.
unfoldable pub skip_system_dir : String → Bool
skip_system_dir name =
    contains
      ("$RECYCLE.BIN" ∷ "System Volume Information" ∷ "Recovery" ∷ "$Recycle.Bin" ∷ "Windows"
        ∷ "Program Files" ∷ "Program Files (x86)" ∷ "ProgramData" ∷ [])
      name

-- The files of the tool itself.
unfoldable pub skip_file : String → Bool
skip_file base =
    contains
      ("bitrot.db" ∷ "bitrot.db.shadow" ∷ "bitrot.db-wal" ∷ "bitrot.db-shm" ∷ "bitrot.db.shadow-wal"
        ∷ "bitrot.db.shadow-shm" ∷ ".bitrot-canary" ∷ [])
      base

unfoldable pub visit_info : String → Result Stamp → List WalkEvent
visit_info path (ok stamp) = found path stamp ∷ []
visit_info path (err message) = failed message ∷ []

unfoldable pub visit_file : (base abs_path : String) → Result Stamp → List WalkEvent
unfolding visit_info
visit_file base abs_path info = if skip_file base then [] else visit_info abs_path info

unfoldable mutual
  unfolding visit_file

  pub walk : Node → List WalkEvent
  walk (unreadable message) = failed message ∷ []
  walk (directory name children) =
      let inside = walk_forest children in if skip_system_dir name then [] else inside
  walk symlink = []
  walk (file base abs_path info) = visit_file base abs_path info

  pub walk_forest : Forest → List WalkEvent
  walk_forest end = []
  walk_forest (entry node rest) = walk node ++ walk_forest rest
