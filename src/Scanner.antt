-- ===== src/Scanner.antt =====
-- internal/scanner/scanner.go. `Walk` is the directory walk, `Classify` the decisions about a file,
-- `Sync` and `Scrub` are the operations.
pub mod Walk
pub mod Classify
pub mod Sync
pub mod Scrub
pub mod Tests
