-- ===== src/Api/Stores.antt =====
-- The handlers of internal/api/server.go that read and change the settings, the schedule and the retry
-- queue, each of which may be missing, and the one that sends a test mail. A body is what the decoder
-- makes of it. The error of writing a file is a parameter, and what it leaves in the file.
pub mod Schedules
pub mod Tests
use bit_rot_detector.Base.{String, Option, none, some, List, []}
use bit_rot_detector.Domain.{Result, ok, err}
use bit_rot_detector.Settings.{Settings, File, default_settings, get, set}
use bit_rot_detector.Settings
use bit_rot_detector.Scheduler.{ScheduleEntry}
use bit_rot_detector.Scheduler.Stored.{Json, Write, get_all, upsert_stored}
use bit_rot_detector.Scheduler.Stored as Schedule
use bit_rot_detector.Retry.{Item, Queue, all}
use bit_rot_detector.Api.{Server, Status, DriveStatus}
use bit_rot_detector.Api.Queries.{Answer, found, failed}

-- `handleStatus`
pub handle_status : {Float : Type 0} → Server Float → Status
handle_status s = s.status

-- `handleDrives`
pub handle_drives : {Float : Type 0} → Server Float → List String × List DriveStatus
handle_drives s = (s.paths, (s.status).drives)

-- `handleGetSettings`
pub handle_get_settings : Option Settings.Store → Settings
handle_get_settings none = default_settings
handle_get_settings (some s) = get s

-- The response of `handlePostSettings`, after `Set`.
abbrev saved :
    Option String × Settings.Store × File → Answer Settings × Option Settings.Store × File
saved (some e, s, file) = (failed 500 e, some s, file)
saved (none, s, file) = (found (get s), some s, file)

-- `handlePostSettings`
pub handle_post_settings :
    (fails : Option String)
    → (torn : File) → Result Settings
    → Option Settings.Store
    → File
    → Answer Settings × Option Settings.Store × File
handle_post_settings fails torn body none file = (failed 503 "settings not configured", none, file)
handle_post_settings fails torn (err e) (some s) file = (failed 400 e, some s, file)
handle_post_settings fails torn (ok v) (some s) file = saved (set fails torn v s file)

-- `handleGetSchedule`
unfoldable pub handle_get_schedule : Option Schedule.Store → List ScheduleEntry
handle_get_schedule none = []
handle_get_schedule (some s) = get_all s

-- The response of `handlePostSchedule`, after `Upsert`.
abbrev posted :
    Option String × Schedule.Store × Option String
    → Answer (List ScheduleEntry) × Option Schedule.Store × Option String
posted (some e, s, file) = (failed 500 e, some s, file)
posted (none, s, file) = (found (get_all s), some s, file)

-- `handlePostSchedule`, for which no other request comes between `Upsert` and `GetAll`.
unfoldable pub handle_post_schedule :
    Json
    → Write
    → Result ScheduleEntry
    → Option Schedule.Store
    → Option String
    → Answer (List ScheduleEntry) × Option Schedule.Store × Option String
handle_post_schedule json write body none file = (failed 503 "scheduler not configured", none, file)
handle_post_schedule json write (err e) (some s) file = (failed 400 e, some s, file)
handle_post_schedule json write (ok e) (some s) file = posted (upsert_stored json write e s file)

-- `handleGetRetries`
pub handle_get_retries : Option Queue → List Item
handle_get_retries none = []
handle_get_retries (some q) = all q

-- `handleTestEmail`, with the error of `SendTestEmail` of the mailer, if there is one.
pub handle_test_email : Option (Option String) → Answer String
handle_test_email none = failed 503 "no mailer configured"
handle_test_email (some (some e)) = failed 500 e
handle_test_email (some none) = found "sent"
