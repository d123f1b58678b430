-- ===== src/Storage/Store/Opened.antt =====
-- What `Open` of internal/storage/repository.go leaves and starts from.
use mathlib.Core.Option
use bit_rot_detector.Base.{String, Option, none, some, List, ◌≡◌, refl, sym, ap, subst, ◌∙◌, arith}
use bit_rot_detector.Domain.{ok, FileRecord}
use bit_rot_detector.Storage.Table.{Row, Database, blank, to_record, Engine}
use bit_rot_detector.Storage.Table.Rows.{find_row}
use bit_rot_detector.Storage.Store.{
  Disk, Store, live, Os, open_repository, copy_file, clean, open_shadow, open_copied, with_tables,
  rolled_back,
}
use bit_rot_detector.Storage.Store.Laws.{rows_of, row, IsOpen}

-- What a copy of the production database holds.
abbrev pub content : Option Database → Database
content none = blank
content (some db) = db

rows_of-with_tables : (o : Option Database) → rows_of (some (with_tables (content o))) ≡ rows_of o
rows_of-with_tables none = refl
rows_of-with_tables (some db) = go db.files refl
  where
    go :
        (o : Option (List Row)) → db.files ≡ o → rows_of (some (with_tables db)) ≡ rows_of (some db)
    go none e = rw e
    go (some rows) e = rw e

-- The record of a path at which a run starts.
abbrev pub starting_row : Disk → String → Option FileRecord
starting_row d p =
    Option.map to_record
      (find_row p (rows_of (some (with_tables (rolled_back d.journal (content d.prod))))))

-- The files of a repository that was opened on a copy with this content.
abbrev with_shadow : Database → Disk → Disk
with_shadow db d = record d { shadow = some (with_tables db); journal = none }

module _ (os : Os) (engine : Engine) where
  open_shadow-prod : (o : Option Database) (d : Disk) → (open_shadow os engine o d).1.prod ≡ d.prod
  unfolding open_shadow
  open_shadow-prod none d = refl
  open_shadow-prod (some db) d = ground arith

  copy_file-prod : (o : Option Database) (d : Disk) → (copy_file os o d).1.prod ≡ d.prod
  unfolding copy_file
  copy_file-prod none d = ground arith
  copy_file-prod (some db) d = ground arith

  open_copied-prod : (e : Option String) (d : Disk) → (open_copied os engine e d).1.prod ≡ d.prod
  unfolding open_copied
  open_copied-prod (some e) d = refl
  open_copied-prod none d = open_shadow-prod d.shadow d

  copy_file-journal : (o : Option Database) (d : Disk) → (copy_file os o d).1.journal ≡ d.journal
  unfolding copy_file
  copy_file-journal none d = ground arith
  copy_file-journal (some db) d = ground arith

  cleaned-journal : (d : Disk) → (copy_file os d.prod (clean os d)).1.journal ≡ d.journal
  unfolding clean
  cleaned-journal d = copy_file-journal d.prod (clean os d)

  pub prod-open_repository : (d : Disk) → (open_repository os engine d).1.prod ≡ d.prod
  unfolding open_repository clean
  prod-open_repository d = open_copied-prod _ _ ∙ copy_file-prod d.prod (clean os d)

  -- What a copy that succeeds leaves in the shadow file.
  copy_file-shadow :
      (o : Option Database) (d : Disk)
      → (copy_file os o d).0 ≡ none
      → (copy_file os o d).1.shadow ≡ some (content o)
  unfolding copy_file
  copy_file-shadow none d h = ground arith
  copy_file-shadow (some db) d h = ground arith

  open_shadow-ok :
      (db : Database) (d : Disk) (s : Store)
      → (open_shadow os engine (some db) d).0 ≡ ok s
      → (s ≡ record { disk = with_shadow (rolled_back d.journal db) d; db = live })
        × ((open_shadow os engine (some db) d).1 ≡ s.disk)
  unfolding open_shadow
  open_shadow-ok db d s h = ground arith

  open_copied-ok :
      (e : Option String) (db : Database) (d : Disk) (s : Store)
      → (e ≡ none → d.shadow ≡ some db)
      → (open_copied os engine e d).0 ≡ ok s
      → (s ≡ record { disk = with_shadow (rolled_back d.journal db) d; db = live })
        × ((open_copied os engine e d).1 ≡ s.disk)
  unfolding open_copied
  open_copied-ok (some e) db d s here h = ground arith
  open_copied-ok none db d s here h =
      subst
        (λ o.
          (open_shadow os engine o d).0 ≡ ok s
          → (s ≡ record { disk = with_shadow (rolled_back d.journal db) d; db = live })
            × ((open_shadow os engine o d).1 ≡ s.disk))
        (sym (here refl)) (open_shadow-ok db d s) h

  opened :
      (d : Disk) (s : Store)
      → (open_repository os engine d).0 ≡ ok s
      → (s ≡ record {
        disk =
            with_shadow
              (rolled_back (copy_file os d.prod (clean os d)).1.journal (content d.prod))
              (copy_file os d.prod (clean os d)).1;
        db = live;
      })
        × ((open_repository os engine d).1 ≡ s.disk)
  unfolding open_repository clean
  opened d s h = open_copied-ok _ (content d.prod) _ s (copy_file-shadow d.prod (clean os d)) h

  -- If `Open` succeeds, the repository is open on the files that `Open` left, without a journal; the
  -- production database among them is the one that was there, and under each path the repository has the
  -- record of the production database, whatever a crashed run left in the shadow file, with the
  -- journal rolled into it that such a run has left.
  pub open_repository_lem :
      (d : Disk) (s : Store)
      → (open_repository os engine d).0 ≡ ok s
      → IsOpen s
        × (s.disk ≡ (open_repository os engine d).1)
        × ((s.disk).prod ≡ d.prod)
        × ((s.disk).journal ≡ none)
        × ((p : String) → row s p ≡ starting_row d p)
  open_repository_lem d s h =
      let (e, left) = opened d s h in
      let db = rolled_back (copy_file os d.prod (clean os d)).1.journal (content d.prod) in
      (
        record {
          alive = ap (λ s. s.db) e;
          tables =
              (with_tables db, rows_of (some (with_tables db)), ap (λ s. (s.disk).shadow) e, refl);
        },
        sym left,
        sym (ap (λ d. d.prod) left) ∙ prod-open_repository d,
        ap (λ s. (s.disk).journal) e,
        λ p.
            ap (λ s. row s p) e
            ∙ ap
                (λ j.
                  Option.map to_record
                    (find_row p (rows_of (some (with_tables (rolled_back j (content d.prod)))))))
                (cleaned-journal d),
      )

-- Without a journal, it is the record of the production database.
pub starting_row-prod :
    (d : Disk) (p : String)
    → d.journal ≡ none
    → starting_row d p ≡ Option.map to_record (find_row p (rows_of d.prod))
unfolding rolled_back
starting_row-prod d p h =
    ap
      (λ j.
        Option.map to_record
          (find_row p (rows_of (some (with_tables (rolled_back j (content d.prod)))))))
      h
    ∙ ap (λ rows. Option.map to_record (find_row p rows)) (rows_of-with_tables d.prod)
