-- ===== src/Scanner/Sync.antt =====
-- `SyncDirectory` of internal/scanner/scanner.go. The walker, the workers and the collector run at
-- once: a run is a list of choices, each of which lets one of them take its next step, so that a
-- theorem about all lists covers every interleaving, number of workers and channel size. A worker's
-- step and the collector's step for the same file are one choice. `hash_of` is the hasher, and
-- `added_now p` and `seen_now p` are what the clock shows while the file `p` is recorded. A map is
-- iterated in the order in which the repository lists it, which no theorem fixes. Progress events
-- and log lines are left out.
mod Cases
pub mod Effect
mod Pending
pub mod Invariant
mod Steps
pub mod Exact
pub mod History
pub mod Tracked
pub mod Schedules
pub mod Stable
use bit_rot_detector.Base.{
  ℕ, zero, suc, ◌+◌, String, ◌<>◌, Bool, true, false, not, ◌&&◌, ◌||◌, Option, none, some, List, [],
  ◌∷◌, ◌++◌, ◌==◌, string_eq, nat_eq, if◌then◌else◌,
}
use bit_rot_detector.Base.Int.{int_eq}
use bit_rot_detector.Base.Moment.{Moment, unix, zero_time}
use bit_rot_detector.Base.Dict.{Dict, lookup, insert}
use bit_rot_detector.Domain.{
  Result, ok, err, FileRecord, SyncResult, WorkItem, WorkResult, Repository, no_changes,
}
use bit_rot_detector.Scanner.Classify.{
  same_stamp, work_item, compute, find_moved_file, fresh_record, inherit, pick,
}
use bit_rot_detector.Scanner.Walk.{Stamp, Node, WalkEvent, failed, found, walk}

-- The message of `context.Canceled`.
abbrev pub canceled : String
canceled = "context canceled"

pub data Choice : Type 0 where
  -- The walker goes on to its next entry.
  walks : Choice
  -- The walker sees that the context is done.
  stops : Choice
  -- A worker hands in the result of one of the items sent, and the collector takes it.
  collects : ℕ → Choice
  -- A worker sees that the context is done, and gives up an item.
  drops : ℕ → Choice
  -- The context is cancelled.
  cancels : Choice

module _ {Float : Type 0} (R : Repository Float) where
  pub record State : Type 0 where
    pub todo : List WalkEvent
    pub pending : List WorkItem
    pub seen : Dict Stamp
    pub result : SyncResult
    pub repo : R.State
    pub cancelled : Bool
    pub walk_err : Option String
    -- The collector has returned early.
    pub aborted : Bool

  abbrev pub start : List WalkEvent → R.State → State
  start events repo = record {
    todo = events;
    pending = [];
    seen = [];
    result = no_changes;
    repo = repo;
    cancelled = false;
    walk_err = none;
    aborted = false;
  }

  abbrev pub add_error : String → SyncResult → SyncResult
  add_error message r = record r { errors = r.errors ++ (message ∷ []) }

  -- The call of `UpsertFile` that ends the collector's loop body.
  pub save : Moment → FileRecord → State → State
  save now r s =
      let (e, repo) = R.upsert_file now r s.repo in
      record s {
        repo = repo;
        result = elim e [
          | none ↦ s.result
          | some message ↦ add_error ("upsert " <> r.abs_path <> ": " <> message) s.result
        ];
      }

module _ {Float : Type 0} (R : Repository Float) (hash_of : String → Result String)
    (added_now seen_now : String → Moment) (db_files : Dict FileRecord) where
  -- The record of the file is in the database already.
  pub collect_known : WorkResult → String → FileRecord → State R → State R
  collect_known res hash existing s =
      let changed = not (same_stamp existing res.size res.mtime) in
      let result = s.result in
      let counted =
        if changed then record result { files_modified = result.files_modified + 1 } else result in
      save R (seen_now res.path) (inherit existing (fresh_record res hash))
        (record s { result = counted })

  pub collect_added : WorkResult → String → State R → State R
  collect_added res hash s =
      let result = s.result in
      save R (seen_now res.path) (record (fresh_record res hash) { added_at = added_now res.path })
        (record s { result = record result { files_added = result.files_added + 1 } })

  -- An error of `DeleteFile` is only logged.
  pub collect_moved : WorkResult → (moved_from : String) → FileRecord → State R → State R
  collect_moved res moved_from old s =
      let result = s.result in
      save R (seen_now res.path) (inherit old (fresh_record res old.hash)) (record s {
        repo = (R.delete_file moved_from s.repo).1;
        result = record result { files_moved = result.files_moved + 1 };
      })

  -- `dbFiles[movedFrom]` is there; a map read that finds nothing would be a nil pointer.
  collect_moved_from : WorkResult → String → Option FileRecord → State R → State R
  collect_moved_from res moved_from none s = s
  collect_moved_from res moved_from (some old) s = collect_moved res moved_from old s

  -- The path is not in the database.
  pub collect_new : WorkResult → String → State R → State R
  unfolding collect_moved_from
  collect_new res hash s =
      let moved_from = find_moved_file res.path res.size res.mtime db_files s.seen in
      if moved_from == ""
      then collect_added res hash s
      else collect_moved_from res moved_from (lookup moved_from db_files) s

  collect_hashed : WorkResult → String → Option FileRecord → State R → State R
  collect_hashed res hash none s = collect_new res hash s
  collect_hashed res hash (some existing) s = collect_known res hash existing s

  collect_result : WorkResult → Result String → State R → State R
  unfolding collect_hashed
  collect_result res (err message) s = record s {
    result = add_error R ("hash " <> res.path <> ": " <> message) s.result;
  }
  collect_result res (ok hash) s = collect_hashed res hash (lookup res.path db_files) s

  -- The body of the collector's loop, for a context that is not done.
  pub collect : WorkResult → State R → State R
  unfolding collect_result
  collect res s = collect_result res res.hash s

  -- The callback's effect, and the sending of the item. The channels are taken to have room, where the
  -- source waits at 512 items: a run of the source is a run here, and not conversely.
  pub visit : WalkEvent → State R → State R
  visit (failed message) s = record s { result = add_error R message s.result }
  visit (found path stamp) s =
      let result = s.result in
      record s {
        seen = insert path stamp s.seen;
        result = record result { files_scanned = result.files_scanned + 1 };
        pending = s.pending ++ (work_item db_files path stamp ∷ []);
      }

  take_result : Option (WorkItem × List WorkItem) → State R → State R
  take_result none s = s
  take_result (some (w, rest)) s =
      if s.cancelled
      then record s { pending = rest; aborted = true }
      else collect (compute hash_of w) (record s { pending = rest })

  drop_item : Option (WorkItem × List WorkItem) → State R → State R
  drop_item none s = s
  drop_item (some (w, rest)) s = if s.cancelled then record s { pending = rest } else s

  walk_on : List WalkEvent → State R → State R
  walk_on [] s = s
  walk_on (e ∷ rest) s = visit e (record s { todo = rest })

  pub step : Choice → State R → State R
  unfolding walk_on take_result drop_item
  step walks s = walk_on s.todo s
  step stops s = if s.cancelled then record s { todo = []; walk_err = some canceled } else s
  step (collects n) s = if s.aborted then s else take_result (pick n s.pending) s
  step (drops n) s = drop_item (pick n s.pending) s
  step cancels s = record s { cancelled = true }

  pub run : List Choice → State R → State R
  run [] s = s
  run (c ∷ choices) s = run choices (step c s)

  remove_one : String → Option Stamp → State R → State R
  remove_one path (some stamp) s = s
  remove_one path none s =
      let result = s.result in
      record s {
        repo = (R.delete_file path s.repo).1;
        result = record result { files_removed = result.files_removed + 1 };
      }

  -- The last phase: records of files that were not seen are deleted. An error is only logged.
  pub remove_missing : Dict FileRecord → State R → State R
  unfolding remove_one
  remove_missing [] s = s
  remove_missing ((path, _) ∷ rest) s = remove_missing rest (remove_one path (lookup path s.seen) s)

  -- What is returned when all goroutines have ended: the result and the error, each of which may
  -- be nil.
  pub finish : State R → Option SyncResult × Option String × R.State
  finish s = if s.aborted then (none, some canceled, s.repo) else elim s.walk_err [
    | some e ↦ (some s.result, some (if s.cancelled then canceled else "walk: " <> e), s.repo)
    | none ↦ let t = remove_missing db_files s in (some t.result, none, t.repo)
  ]

module _ {Float : Type 0} (R : Repository Float) (hash_of : String → Result String)
    (added_now seen_now : String → Moment) where
  -- The whole operation, with the error of the context at its start.
  pub sync_directory :
      Option String → Node → List Choice → R.State → Option SyncResult × Option String × R.State
  sync_directory (some e) root choices repo = (none, some e, repo)
  sync_directory none root choices repo = elim (R.get_all_files repo) [
    | err e ↦ (none, some ("load db files: " <> e), repo)
    | ok db_files ↦
        finish R hash_of added_now seen_now db_files
          (run R hash_of added_now seen_now db_files choices (start R (walk root) repo))
  ]

-- The definitions that a sync computes by.
unfoldable pub computes : Unit {0}
unfolding sync_directory finish remove_missing run step visit collect collect_new collect_known
    collect_added collect_moved save
computes = tt
