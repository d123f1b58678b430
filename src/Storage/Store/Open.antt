-- ===== src/Storage/Store/Open.antt =====
-- `Open` of internal/storage/repository.go: the shadow copy, its connection and its tables.
use bit_rot_detector.Base.{String, ◌<>◌, Bool, true, false, Option, none, some}
use bit_rot_detector.Domain.{Result, ok, err}
use bit_rot_detector.Storage.Table.{
  Database, blank, journal_mode, integrity_check, create_schema, Engine,
}
use bit_rot_detector.Storage.Store.Files.{
  Disk, Store, OsCall, Os, with_tables, live, remove_shadow, remove_wal, remove_shm, open_prod,
  create_shadow, close_empty, copy_prod, sync_shadow, open_sqlite,
}

-- What the first statement on a connection finds: a journal that was left is rolled into the shadow.
unfoldable pub rolled_back : Option (Database → Database) → Database → Database
rolled_back none db = db
rolled_back (some undo) db = undo db

module _ (os : Os) where
  -- `os.Remove` of a file, whose absence is no error.
  abbrev pub remove_file {ℓ} : {A : Type ℓ} → OsCall → Option A → Option A
  remove_file call none = none
  remove_file call (some file) = elim (os.fails call) [ none ↦ none | some e ↦ some file ]

  abbrev pub remove_sidecar : OsCall → Bool → Bool
  remove_sidecar call false = false
  remove_sidecar call true = elim (os.fails call) [ none ↦ false | some e ↦ true ]

  -- The removal of what a crashed run has left. An error is only logged.
  unfoldable pub clean : Disk → Disk
  clean d = record d {
    shadow = remove_file remove_shadow d.shadow;
    wal = remove_sidecar remove_wal d.wal;
    shm = remove_sidecar remove_shm d.shm;
  }

  -- `copyFile(prodPath, shadowPath)`
  unfoldable pub copy_file : Option Database → Disk → Option String × Disk
  copy_file none d = elim (os.fails create_shadow) [
    | some e ↦ (some ("create empty shadow: " <> e), d)
    | none ↦ (os.fails close_empty, record d { shadow = some blank })
  ]
  copy_file (some db) d = elim (os.fails open_prod) [
    | some e ↦ (some ("open src: " <> e), d)
    | none ↦ elim (os.fails create_shadow) [
      | some e ↦ (some ("create dst: " <> e), d)
      | none ↦ elim (os.fails copy_prod) [
        | some e ↦ (some ("copy: " <> e), record d { shadow = some os.torn })
        | none ↦ (os.fails sync_shadow, record d { shadow = some db })
      ]
    ]
  ]

  module _ (engine : Engine) where
    -- `openSQLite`: the connection, the journal mode and the integrity check.
    unfoldable pub open_sqlite_error : Database → Option String
    open_sqlite_error db = elim (os.fails open_sqlite) [
      | some e ↦ some ("open sqlite: " <> e)
      | none ↦ elim (engine.fails journal_mode db) [
        | some e ↦ some ("sqlite pragma: " <> e)
        | none ↦ elim (engine.fails integrity_check db) [
          | some e ↦ some ("sqlite integrity_check: " <> e)
          | none ↦ none
        ]
      ]
    ]

    -- `openSQLite` and `createSchema` on the copy; on an error the shadow is removed, but no journal.
    unfoldable pub open_shadow : Option Database → Disk → Result Store × Disk
    open_shadow none d = (err "no such file", d)
    open_shadow (some copy) d =
        let dropped = record d { shadow = remove_file remove_shadow d.shadow } in
        let db = rolled_back d.journal copy in
        elim (open_sqlite_error db) [
          | some e ↦ (err e, dropped)
          | none ↦ elim (engine.fails create_schema db) [
            | some e ↦ (err e, dropped)
            | none ↦
                let d' = record d { shadow = some (with_tables db); journal = none } in
                (ok (record { disk = d'; db = live }), d')
          ]
        ]

    unfoldable pub open_copied : Option String → Disk → Result Store × Disk
    unfolding open_shadow open_sqlite_error
    open_copied (some message) d = (err ("create shadow DB: " <> message), d)
    open_copied none d = open_shadow d.shadow d

    -- `Open`: the repository or an error, and the files.
    unfoldable pub open_repository : Disk → Result Store × Disk
    unfolding clean copy_file open_copied
    open_repository d = let (e, d') = copy_file d.prod (clean d) in open_copied e d'
