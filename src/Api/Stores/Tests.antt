-- ===== src/Api/Stores/Tests.antt =====
-- A POST of an entry to an empty schedule, whose file cannot be written.
use bit_rot_detector.Base.{String, true, none, some, [], ◌≡◌, ◌⊎◌, ◌==◌, string_eq, if◌then◌else◌}
use bit_rot_detector.Base.Int.{pos}
use bit_rot_detector.Base.Moment.{at_unix}
use bit_rot_detector.Domain.{ok}
use bit_rot_detector.Scheduler.{ScheduleEntry}
use bit_rot_detector.Scheduler.Entries.{entry_with}
use bit_rot_detector.Scheduler.Stored.{Json, Write, Store}
use bit_rot_detector.Api.Queries.{found, failed}
use bit_rot_detector.Api.Stores.{handle_get_schedule, handle_post_schedule}
use bit_rot_detector.Api.Stores.Schedules.{handle_get_schedule-handle_post_schedule}

abbrev json : Json
json = record { marshal = λ entries. ok "entries"; unmarshal = λ raw. none }

abbrev full : Write
full = some ("no space left on device", none)

abbrev nightly : ScheduleEntry
nightly = record {
  id = "n";
  label = "nightly";
  enabled = true;
  cron_expr = "02:30";
  last_run = at_unix (pos 0);
  next_run = at_unix (pos 0);
}

abbrev empty : Store
empty = record { entries = []; file_path = "/schedules.json" }

handle_get_schedule-handle_post_schedule_example :
    let (answer, after, _) = handle_post_schedule json full (ok nightly) (some empty) none in
    (entry_with "n" (handle_get_schedule after) ≡ (
      if nightly.id == "n"
      then some nightly
      else entry_with "n" (handle_get_schedule (some empty))))
    × ((answer ≡ found (handle_get_schedule after))
        ⊎ ((message : String) × (answer ≡ failed 500 message)))
handle_get_schedule-handle_post_schedule_example =
    handle_get_schedule-handle_post_schedule json full nightly empty none "n"
