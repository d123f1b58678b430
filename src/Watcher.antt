-- ===== src/Watcher.antt =====
-- internal/watcher/watcher.go: the event loop of `Run`, which owns the pending roots and the timer.
-- The loop takes one case of its `select` at a time, so that a run is a list of happenings, each
-- with the time in nanoseconds where it matters. A case that is not ready is not taken. `rel` stands
-- for `filepath.Rel` and `base` for `filepath.Base`. The log lines are left out; a map is listed in the
-- order in which its keys came in.
pub mod AddTree
pub mod Debounce
pub mod Kept
pub mod Added
pub mod Tests
use bit_rot_detector.Domain.{Result, ok, err}
use bit_rot_detector.Watcher.AddTree.{Tree, add_tree, add_trees}
use text.Mathlib.Text.{starts_with}
use bit_rot_detector.Base.{
  ℕ, ◌+◌, ◌*◌, String, Bool, true, false, not, ◌&&◌, ◌||◌, Option, none, some, List, [], ◌∷◌, ◌++◌,
  ◌==◌, string_eq, contains, leb, ltb, if◌then◌else◌,
}

pub data Happening : Type 0 where
  -- An event of fsnotify for a path. For the creation of a directory, what the walk over it finds.
  changes : (now : ℕ) → (name : String) → (created : Option (Result Tree)) → Happening
  -- The debounce timer.
  fires : (now : ℕ) → Happening
  -- An error of fsnotify, which is only logged.
  watch_error : Happening
  -- The context is done, or a channel is closed.
  stops : Happening

pub record Watch : Type 0 where
  pub pending : List String
  -- When the timer that is armed goes off.
  pub timer : Option ℕ
  -- The calls of the callback: when, and with which roots.
  pub calls : List (ℕ × List String)
  -- The directories that were given to fsnotify and that it did not refuse. It drops one that is removed
  -- or renamed, which is not followed here.
  pub added : List String
  pub stopped : Bool

abbrev pub idle : Watch
idle = record { pending = []; timer = none; calls = []; added = []; stopped = false }

-- `New`: at least 100 ms.
abbrev pub debounce_of : ℕ → ℕ
debounce_of debounce = if ltb debounce (100 * 1_000_000) then 100 * 1_000_000 else debounce

-- The files of the tool itself.
pub ignored : String → Bool
ignored base = base == "bitrot.db" || base == "bitrot.db.shadow" || base == ".bitrot-canary"

-- `rootFor`
pub root_for : (String → String → Option String) → List String → String → String
root_for rel [] path = path
root_for rel (root ∷ roots) path =
    let rest = root_for rel roots path in
    let inside : Bool = elim (rel root path) [
      | none ↦ false
      | some r ↦ not (r == "") && not (starts_with r ".")
    ] in
    if inside then root else if path == root then root else rest

abbrev pub add_root : String → List String → List String
add_root root pending = if contains pending root then pending else pending ++ (root ∷ [])

-- The call of the callback, if any root is pending.
abbrev pub called : ℕ → List String → List (ℕ × List String) → List (ℕ × List String)
called now [] calls = calls
called now (root ∷ roots) calls = calls ++ ((now, root ∷ roots) ∷ [])

module _ (refuses : String → Bool) where
  -- `New`, with the error of `fsnotify.NewWatcher`. After an error of `addTree` it closes the watcher.
  pub new_watcher : Option String → (String → Result Tree) → List String → Result Watch
  new_watcher (some e) lstat roots = err e
  new_watcher none lstat roots = elim (add_trees refuses lstat roots []) [
    | err e ↦ err e
    | ok added ↦ ok (record idle { added = added })
  ]

  -- A new directory is given to fsnotify, with all below it. An error is only logged.
  abbrev pub add_created : Option (Result Tree) → List String → List String
  add_created none added = added
  add_created (some found) added = (add_tree refuses found added).1

module _ (refuses : String → Bool) (base : String → String) (root_of : String → String)
    (debounce : ℕ) where
  -- The case of the timer, if it was armed for `at`.
  fire : ℕ → Option ℕ → Watch → Watch
  fire now none w = w
  fire now (some at) w =
      if leb at now
      then record w { pending = []; timer = none; calls = called now w.pending w.calls }
      else w

  -- The change is noted, and the timer is set anew.
  abbrev note : ℕ → String → Option (Result Tree) → Watch → Watch
  note now name created w = record w {
    added = add_created refuses created w.added;
    pending = add_root (root_of name) w.pending;
    timer = some (now + debounce);
  }

  change : ℕ → String → Option (Result Tree) → Watch → Watch
  unfolding ignored
  change now name created w = if ignored (base name) then w else note now name created w

  happen : Happening → Watch → Watch
  unfolding fire change
  happen (changes now name created) w = change now name created w
  happen (fires now) w = fire now w.timer w
  happen watch_error w = w
  happen stops w = record w { stopped = true }

  -- One turn of the loop, which nothing enters once it has returned.
  pub turn : Happening → Watch → Watch
  unfolding happen
  turn h w = if w.stopped then w else happen h w

  pub run : List Happening → Watch → Watch
  unfolding turn
  run [] w = w
  run (h ∷ happenings) w = run happenings (turn h w)
