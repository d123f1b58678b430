-- ===== src/Lib.antt =====
-- Bit Rot Detector: a model of the program's core and the theorems that make it correct.
--
-- The program keeps a database of hashes on each monitored drive. A run over a drive checks that the
-- drive is mounted, by its canary file; opens a copy of the database (the shadow); brings the copy into
-- step with the files (the sync); hashes some files again and compares (the scrub); and puts the copy in
-- the place of the database. Files that could not be read are tried again later from a queue.
--
-- Domain.antt            internal/domain: the data, and the repository interface as a record of operations.
--   Domain/Lawful.antt   what the scanner relies on: a table of records by path, writes that succeed.
-- Scanner.antt           internal/scanner/scanner.go.
--   Scanner/Walk         the WalkDir callback: which events a directory tree gives.
--   Scanner/Classify     KnownHash, the worker's loop body, findMovedFile.
--   Scanner/Sync         SyncDirectory. The walker, the workers and the collector run at once: a run is a
--     list of choices, each of which lets one of them take a step. Theorems about all lists cover every
--     interleaving, number of workers and channel size. The children hold the invariant and its proofs.
--   Scanner/Scrub        ScrubFiles, and a judgement of each file on its own that it is compared with.
-- Storage.antt           internal/storage/repository.go.
--   Storage/History      the read-only queries of the run history.
--   Storage/Table        the two tables and the meaning of the SQL statements.
--   Storage/Store        the methods of a repository. Files: the files of a drive. Open: Open.
--     Laws: it is a lawful repository.
--     Untouched, Opened and Swap: the shadow swap, and what a crash leaves. Select: GetFilesForScrub.
-- Coordinator.antt       internal/coordinator/coordinator.go: processDrive over the two parts above.
--   Coordinator/Drives   Run: a goroutine per drive and the semaphore, as interleaved steps.
--   Coordinator/Workers  the number of goroutines that hash. Scrubbed: the scrub in the result of a drive.
--     Remembered and Synced: what the next run finds.
-- System.antt            the whole program: main of Command.antt over the drives of Coordinator.antt, each
--     with its operating system and database. Detection and Healthy: what its exit code and its mail say.
-- Watcher.antt           internal/watcher/watcher.go: New, and the event loop with its debounce.
--   Watcher/AddTree      addTree: the directories that are given to fsnotify.
-- Scheduler.antt         internal/scheduler/schedule.go: the entries in memory and the tick.
--   Scheduler/Stored     the store with its file, and the loop of the runner. JSON is a parameter.
-- Hasher.antt            internal/hasher/hasher.go: the loop that feeds a file to the hash.
-- Mailer.antt            internal/mailer/mailer.go: the subject, and the numbers that are printed.
--   Mailer/Body, Report  the body of a report, and whether it is sent. Session: the SMTP session.
-- Config.antt            internal/config/config.go: the configuration from the environment.
-- Settings.antt          internal/settings/settings.go: the settings and their file.
-- Command.antt           cmd/bit-rot-detector/main.go: from the flags to the mail and the exit code.
-- Api.antt               internal/api/server.go: the operations in the background, as events in the order
--     in which the mutex lets them. Api/Queries: the queries over the run histories of all drives.
--     Api/Hub, Stream: the subscribers of the progress, and the way of an event from the scanner to their
--     connections. Api/Stores: the handlers of the settings, the schedule, the retries and the test mail.
-- Monitor.antt           internal/monitor/drive.go: the kind of a drive and its number of workers.
-- Retry.antt             internal/retry/retry.go: the queue of failed operations and its delays.
-- Base.antt              shared names: tests, lists, integers, moments in time, dictionaries.
--
-- State is passed explicitly: an operation takes the state and returns its result beside the new state.
-- An error is its message, in a sum or an Option as in the source. Times are whole seconds and
-- nanoseconds; the database keeps whole seconds. Recursion is structural throughout: on the directory
-- tree, on a list of rows or files, or on the list of choices of a run, so that no fuel is needed. Only
-- the loop of formatBytes, which divides a number below 2^64 by 1024, has fuel, for seven rounds; at most
-- six are ever taken.
--
-- Parameters stand for what is not in the repository: the answers of the operating system (any call may
-- fail, and a failed copy may leave anything), the SQLite engine (which statement fails, and the order
-- of ORDER BY), what a rollback journal makes of a file, the hash function, float64, and the decimal digits of a number. Map iteration follows
-- the order in which the repository lists the records.
--
-- Not modelled: the resolution of a path and the reading of the files below /proc and /sys; the routes and
-- the listening of the HTTP server, and the encodings JSON and CSV; the flag parser, signals and logging.
-- A send of SyncDirectory does not wait for room in its channel, so that nothing is said of a deadlock. A
-- crash inside Open, and the watches that fsnotify drops with a removed directory, are left out. Which
-- calls emit which progress events is left open: the theorem about the stream is on all of them.
pub mod Base
pub mod Domain
pub mod Retry
pub mod Storage
pub mod Scanner
pub mod Coordinator
pub mod Watcher
pub mod Scheduler
pub mod Hasher
pub mod Mailer
pub mod Config
pub mod Settings
pub mod Command
pub mod Api
pub mod System
pub mod Monitor
