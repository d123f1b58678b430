-- ===== src/Storage/Store/Files.antt =====
-- The files of a drive and the calls on them in internal/storage/repository.go. Each call of the operating
-- system may fail for its own reason.
use bit_rot_detector.Base.{ℕ, String, Bool, Option, none, some, []}
use bit_rot_detector.Storage.Table.{Database}

-- The database files of one drive: `bitrot.db`, `bitrot.db.shadow`, whether the shadow's sidecar files
-- `-wal` and `-shm` exist, and `bitrot.db.shadow-journal`, which a statement removes at its end (the
-- journal mode is DELETE) and a crash inside one leaves: it is what the engine makes of the shadow that it
-- finds beside it.
pub record Disk : Type 0 where
  pub prod : Option Database
  pub shadow : Option Database
  pub wal : Bool
  pub shm : Bool
  pub journal : Option (Database → Database)

pub data Connection : Type 0 where
  live closed nil : Connection

pub record Store : Type 0 where
  pub disk : Disk
  pub db : Connection

pub data OsCall : Type 0 where
  remove_shadow remove_wal remove_shm open_prod create_shadow close_empty copy_prod : OsCall
  sync_shadow open_sqlite close_db rename_shadow read_shadow : OsCall

-- What the operating system answers. `torn` is what a failed copy leaves in the shadow file, and
-- `checksum` the hash of a file.
pub record Os : Type 0 where
  pub fails : OsCall → Option String
  pub torn : Database
  pub checksum : Database → String

-- The operations on `float64` that `GetFilesForScrub` uses. A share below 0 counts as 0.
pub record Float64 : Type 1 where
  pub Float : Type 0
  pub of_int : ℕ → Float
  pub mul : Float → Float → Float
  pub div : Float → Float → Float
  pub to_int : Float → ℕ

abbrev pub nil_pointer : String
nil_pointer = "invalid memory address or nil pointer dereference"

-- `createSchema`
abbrev pub with_tables : Database → Database
with_tables db = record db {
  files = some (elim db.files [ none ↦ [] | some rows ↦ rows ]);
  run_history = some (elim db.run_history [ none ↦ [] | some rows ↦ rows ]);
}
