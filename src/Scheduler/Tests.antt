-- ===== src/Scheduler/Tests.antt =====
-- Two entries, one of which is due, and the theorems about the tick at them.
use bit_rot_detector.Domain.{ok, ok_inj}
use bit_rot_detector.Scheduler.Stored.{Json, Store, Tick, new, persist, upsert_stored, run_ticks}
use bit_rot_detector.Scheduler.Runs.{due_at, upsert_stored-new, run_ticks_lem}
use bit_rot_detector.Base.{
  sym, List, String, true, false, Option, none, some, [], ◌∷◌, ◌≡◌, refl, ◌==◌, string_eq, nat_eq,
  if◌then◌else◌,
}
use bit_rot_detector.Base.Int.{ℤ, pos, int_eq}
use bit_rot_detector.Base.Moment.{at_unix}
use bit_rot_detector.Scheduler.{ScheduleEntry, Clock, upsert, at_time, is_due, check_each, check}
use bit_rot_detector.Scheduler.Tick.{DistinctIds}

-- Serves for the numbers that stand in the entries.
abbrev atoi : String → Option ℤ
atoi s = if s == "02" then some (pos 2) else if s == "30" then some (pos 30) else none

abbrev nightly : ScheduleEntry
nightly = record {
  id = "n";
  label = "nightly";
  enabled = true;
  cron_expr = "02:30";
  last_run = at_unix (pos 0);
  next_run = at_unix (pos 0);
}

abbrev hourly : ScheduleEntry
hourly = record nightly { id = "h"; cron_expr = "@hourly" }

abbrev half_past_two : Clock
half_past_two = record { minute = 30; hour = 2; sunday = false }

program : Unit {0}
unfolding upsert at_time is_due check_each check string_eq nat_eq int_eq
program = tt

distinct : DistinctIds (hourly ∷ nightly ∷ [])
unfolding program
distinct = ((refl, tt), (tt, tt))

triggered : (check atoi (at_unix (pos 900)) half_past_two (hourly ∷ nightly ∷ [])).1 ≡ "n" ∷ []
unfolding program
triggered = refl

-- Serves for the entries of this module.
abbrev json : Json
json = record {
  marshal = λ entries. ok "entries";
  unmarshal = λ raw. if raw == "entries" then some (hourly ∷ nightly ∷ []) else none;
}

abbrev saved : Store
saved = record { entries = hourly ∷ []; file_path = "/schedules.json" }

stays : upsert nightly saved.entries ≡ hourly ∷ nightly ∷ []
unfolding program
stays = refl

upsert_stored-new_example :
    new json "/schedules.json" (upsert_stored json none nightly saved (some "torn")).2
    ≡ record saved { entries = upsert nightly (hourly ∷ []) }
unfolding program upsert_stored persist
upsert_stored-new_example =
    upsert_stored-new json none nightly saved (some "torn") refl
      (λ raw coded. rw (sym (ok_inj coded)) refl) refl

-- Two ticks at half past two. The first write fails.
abbrev ticks : List Tick
ticks =
    record {
      now = at_unix (pos 900);
      clock = half_past_two;
      write = λ id. some ("disk full", none);
    }
    ∷ record { now = at_unix (pos 960); clock = half_past_two; write = λ id. none }
    ∷ []

run_ticks_lem_example :
    (run_ticks json atoi ticks
      (record { entries = hourly ∷ nightly ∷ []; file_path = "/s" }, none, [])).2
    ≡ due_at atoi (hourly ∷ nightly ∷ []) ticks
run_ticks_lem_example =
    run_ticks_lem json atoi ticks (record { entries = hourly ∷ nightly ∷ []; file_path = "/s" })
      none [] distinct
