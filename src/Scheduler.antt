-- ===== src/Scheduler.antt =====
-- internal/scheduler/schedule.go: the entries in memory, and the tick of the runner. `atoi` stands for
-- `strconv.Atoi`, and a `Clock` is what `Minute`, `Hour` and `Weekday` say of a time in the zone of
-- the program. The file that the entries are saved in is left out: an error of saving is only logged.
pub mod Tick
pub mod Stored
pub mod Runs
pub mod Entries
pub mod Tests
use Prim.Native.String.{len, slice}
use bit_rot_detector.Base.{
  ℕ, String, Bool, true, false, ◌&&◌, Option, none, some, List, [], ◌∷◌, ◌++◌, ◌==◌, string_eq,
  nat_eq, if◌then◌else◌,
}
use bit_rot_detector.Base.Int.{ℤ, pos, int_eq}
use bit_rot_detector.Base.Moment.{Moment}

pub record ScheduleEntry : Type 0 where
  pub id : String
  pub label : String
  pub enabled : Bool
  pub cron_expr : String
  pub last_run : Moment
  pub next_run : Moment

pub record Clock : Type 0 where
  pub minute : ℕ
  pub hour : ℕ
  pub sunday : Bool

-- `Upsert`
pub upsert : ScheduleEntry → List ScheduleEntry → List ScheduleEntry
upsert e [] = e ∷ []
upsert e (ex ∷ entries) =
    let rest = upsert e entries in if ex.id == e.id then e ∷ entries else ex ∷ rest

module _ (atoi : String → Option ℤ) where
  -- The format `HH:MM`.
  at_time : String → Clock → Bool
  at_time expr t =
      if len expr == 5 && slice expr 2 3 == ":"
      then elim (atoi (slice expr 0 2)) [
        | none ↦ false
        | some h ↦ elim (atoi (slice expr 3 5)) [
          | none ↦ false
          | some m ↦ pos t.hour == h && pos t.minute == m
        ]
      ]
      else false

  -- `isDue`
  pub is_due : ScheduleEntry → Clock → Bool
  unfolding at_time
  is_due e t =
      if e.cron_expr == "@hourly"
      then t.minute == 0
      else if e.cron_expr == "@daily"
      then t.hour == 0 && t.minute == 0
      else if e.cron_expr == "@weekly"
      then t.sunday && t.hour == 0 && t.minute == 0
      else at_time e.cron_expr t

  module _ (now : Moment) (clock : Clock) where
    -- The loop of `check` over the snapshot: the entries, and the ids that are triggered.
    check_each :
        List ScheduleEntry → List ScheduleEntry × List String → List ScheduleEntry × List String
    unfolding upsert is_due
    check_each [] s = s
    check_each (e ∷ snapshot) (entries, triggered) = check_each snapshot (
        if e.enabled && is_due e clock
        then (upsert (record e { last_run = now }) entries, triggered ++ (e.id ∷ []))
        else (entries, triggered))

    -- `check`
    pub check : List ScheduleEntry → List ScheduleEntry × List String
    unfolding check_each
    check entries = check_each entries (entries, [])
