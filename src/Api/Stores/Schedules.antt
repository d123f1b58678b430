-- ===== src/Api/Stores/Schedules.antt =====
-- The schedule over the API of internal/api/server.go: what a POST saves, later requests and a restart find.
use bit_rot_detector.Base.{
  String, Option, none, some, ◌==◌, ◌≡◌, ◌⊎◌, inl, inr, refl, string_eq, if◌then◌else◌,
}
use bit_rot_detector.Domain.{ok}
use bit_rot_detector.Scheduler.{ScheduleEntry, upsert}
use bit_rot_detector.Scheduler.Stored.{Json, Write, Store, persist, get_all, upsert_stored}
use bit_rot_detector.Scheduler.Entries.{entry_with, entry_with-upsert}
use bit_rot_detector.Api.Queries.{found, failed}
use bit_rot_detector.Api.Stores.{handle_get_schedule, handle_post_schedule, posted}

-- After a POST of an entry, whatever writing the file answers, a GET finds the entry under its id, and
-- under every other id what it found before; the answer is the entries that the GET returns, or an
-- error 500.
pub handle_get_schedule-handle_post_schedule :
    (json : Json) (write : Write) (e : ScheduleEntry) (s : Store) (file : Option String)
    (id : String)
    → let (answer, after, _) = handle_post_schedule json write (ok e) (some s) file in
      (entry_with id (handle_get_schedule after)
        ≡ (if e.id == id then some e else entry_with id (handle_get_schedule (some s))))
      × ((answer ≡ found (handle_get_schedule after))
          ⊎ ((message : String) × (answer ≡ failed 500 message)))
unfolding handle_get_schedule handle_post_schedule get_all upsert_stored
handle_get_schedule-handle_post_schedule json write e s file id =
    go (persist json write (record s { entries = upsert e s.entries }) file)
  where
    t : Store
    t = record s { entries = upsert e s.entries }

    go :
        (saved : Option String × Option String)
        → let (answer, after, _) = posted (saved.0, t, saved.1) in
          (entry_with id (handle_get_schedule after)
            ≡ (if e.id == id then some e else entry_with id s.entries))
          × ((answer ≡ found (handle_get_schedule after))
              ⊎ ((message : String) × (answer ≡ failed 500 message)))
    go (none, left) = (entry_with-upsert e id s.entries, inl refl)
    go (some message, left) = (entry_with-upsert e id s.entries, inr (message, refl))
