-- ===== src/Scheduler/Stored.antt =====
-- internal/scheduler/schedule.go: the store of the entries with its file, and the loop of the runner.
-- `Json` is what encoding/json makes of a list of entries; a file is its content, if it can be read.
use bit_rot_detector.Base.{
  String, ◌&&◌, Option, none, some, List, [], ◌∷◌, ◌++◌, ◌==◌, string_eq, if◌then◌else◌,
}
use bit_rot_detector.Base.Int.{ℤ}
use bit_rot_detector.Base.Moment.{Moment}
use bit_rot_detector.Domain.{Result, ok, err}
use bit_rot_detector.Scheduler.{ScheduleEntry, Clock, upsert, is_due}

pub record Json : Type 0 where
  pub marshal : List ScheduleEntry → Result String
  pub unmarshal : String → Option (List ScheduleEntry)

pub record Store : Type 0 where
  pub entries : List ScheduleEntry
  pub file_path : String

-- What a write answers: its error, with what is left in the file.
abbrev pub Write : Type 0
Write = Option (String × Option String)

-- A tick of the ticker: the time, what the clock says of it, and the writes for the entries.
pub record Tick : Type 0 where
  pub now : Moment
  pub clock : Clock
  pub write : (id : String) → Write

-- `GetAll`: a copy.
unfoldable pub get_all : Store → List ScheduleEntry
get_all s = s.entries

module _ (json : Json) where
  -- `New`
  unfoldable pub new : (path : String) → (file : Option String) → Store
  new path file =
      let s : Store = record { entries = []; file_path = path } in
      if path == "" then s else elim file [
        | none ↦ s
        | some raw ↦ elim (json.unmarshal raw) [
          | none ↦ s
          | some loaded ↦ record s { entries = loaded }
        ]
      ]

  -- `persist`: the error, and the file.
  unfoldable pub persist : Write → Store → Option String → Option String × Option String
  persist write s file = if s.file_path == "" then (none, file) else elim (json.marshal s.entries) [
    | err e ↦ (some e, file)
    | ok raw ↦ elim write [ none ↦ (none, some raw) | some (e, left) ↦ (some e, left) ]
  ]

  -- `Upsert`: the error, the store and the file.
  unfoldable pub upsert_stored :
      Write → ScheduleEntry → Store → Option String → Option String × Store × Option String
  upsert_stored write e s file =
      let t = record s { entries = upsert e s.entries } in
      let (error, left) = persist write t file in (error, t, left)

  module _ (atoi : String → Option ℤ) where
    -- The body of the loop of `check`. An error of `Upsert` is only logged.
    unfoldable pub trigger_due :
        Tick
        → ScheduleEntry
        → Store × Option String × List String
        → Store × Option String × List String
    trigger_due t e (s, file, triggered) =
        if e.enabled && is_due atoi e t.clock
        then (let (error, s', file') =
              upsert_stored (t.write e.id) (record e { last_run = t.now }) s file in
            (s', file', triggered ++ (e.id ∷ [])))
        else (s, file, triggered)

    unfoldable pub trigger_each :
        Tick
        → List ScheduleEntry
        → Store × Option String × List String
        → Store × Option String × List String
    trigger_each t [] out = out
    trigger_each t (e ∷ snapshot) out = trigger_each t snapshot (trigger_due t e out)

    -- `Run`, for the ticks that come before the context is done: the store, the file, and the ids that
    -- were triggered.
    unfoldable pub run_ticks :
        List Tick → Store × Option String × List String → Store × Option String × List String
    run_ticks [] out = out
    run_ticks (t ∷ ticks) (s, file, triggered) =
        run_ticks ticks (trigger_each t s.entries (s, file, triggered))
