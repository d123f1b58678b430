-- ===== src/Storage.antt =====
-- internal/storage/repository.go. `Table` is the database with the statements that the source runs,
-- `Store` the open repository and the files of the drive; the theorems are below `Store`.
-- `History` is what is read of past runs.
pub mod Table
pub mod Store
pub mod History
