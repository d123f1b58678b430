-- ===== src/Storage/Store/Swap.antt =====
-- The shadow swap of internal/storage/repository.go: the methods work on a copy, and only `Commit`
-- puts the copy in the place of the production database.
use bit_rot_detector.Storage.Store.Opened.{content, starting_row-prod, open_repository_lem}
use mathlib.Core.Option
use bit_rot_detector.Base.{
  String, Option, none, some, List, ◌≡◌, ◌≢◌, refl, sym, ap, subst, ◌∙◌, arith,
}
use bit_rot_detector.Domain.{ok, FileRecord}
use bit_rot_detector.Storage.Table.{Database, to_record, Engine}
use bit_rot_detector.Storage.Table.Rows.{find_row}
use bit_rot_detector.Storage.Store.{
  Disk, Store, nil, Os, open_repository, commit, commit_closed, rename, renamed, close_error,
  rename_shadow, with_tables, rolled_back,
}
use bit_rot_detector.Storage.Store.Laws.{rows_of, row}
use bit_rot_detector.Storage.Store.Untouched.{Call, run, run-prod, run-journal}

-- How a run stops: between two calls, or inside a statement, where it leaves anything in the shadow, and
-- a journal beside it.
pub data Stop : Type 0 where
  between : Stop
  inside : (torn : Database) → (undo : Database → Database) → Stop

abbrev pub stopped : Stop → Disk → Disk
stopped between d = d
stopped (inside torn undo) d = record d { shadow = some torn; journal = some undo }

-- The record of a path at which the next run starts, if this one started at `old`: the same, unless a
-- journal was left, which is rolled into the copy of the production database.
abbrev pub Restarts : Stop → Option Database → (p : String) → (old new : Option FileRecord) → Type 0
Restarts between prod p old new = new ≡ old
Restarts (inside torn undo) prod p old new =
    new ≡ Option.map to_record (find_row p (rows_of (some (with_tables (undo (content prod))))))

module _ (os os' : Os) (engine engine' : Engine) where
  -- A run that opens the repository on files without a journal, then makes any calls but `Commit`, and
  -- stops there or inside a statement leaves the production database as it was. If `Open` succeeds again on
  -- the files it left, then after a stop between two calls the new repository has under each path
  -- the record that the first one had at its start; after a stop inside a statement it has the one of
  -- the production database with the journal rolled into it.
  pub crash_recovery :
      (d : Disk) (s t : Store) (calls : List Call) (stop : Stop) (p : String)
      → d.journal ≡ none
      → (open_repository os engine d).0 ≡ ok s
      → (open_repository os' engine' (stopped stop (run os engine calls s).disk)).0 ≡ ok t
      → ((stopped stop (run os engine calls s).disk).prod ≡ d.prod)
        × Restarts stop d.prod p (row s p) (row t p)
  unfolding rolled_back
  crash_recovery d s t calls stop p fresh h k =
      let (_, _, kept, no_journal, rows) = open_repository_lem os engine d s h in
      let same = run-prod os engine calls s ∙ kept in
      let journal = run-journal os engine calls s ∙ no_journal in
      go stop same journal (rows p ∙ starting_row-prod d p fresh) k
    where
      left : Store
      left = run os engine calls s

      go :
          (stop : Stop)
          → (left.disk).prod ≡ d.prod
          → (left.disk).journal ≡ none
          → row s p ≡ Option.map to_record (find_row p (rows_of d.prod))
          → (open_repository os' engine' (stopped stop left.disk)).0 ≡ ok t
          → ((stopped stop left.disk).prod ≡ d.prod) × Restarts stop d.prod p (row s p) (row t p)
      go between same journal start k =
          let (_, _, _, _, rows) = open_repository_lem os' engine' left.disk t k in
          (
            same,
            rows p
                ∙ starting_row-prod left.disk p journal
                ∙ ap (λ o. Option.map to_record (find_row p (rows_of o))) same
                ∙ sym start,
          )
      go (inside torn undo) same journal start k =
          let (_, _, _, _, rows) =
            open_repository_lem os' engine' (stopped (inside torn undo) left.disk) t k in
          (
            same,
            rows p
                ∙ ap
                    (λ o.
                      Option.map to_record
                        (find_row p (rows_of (some (with_tables (undo (content o)))))))
                    same,
          )

-- The outcome of a `Commit` with the error `e`, on the states before and after it.
abbrev pub Outcome : Option String → Store → Store → Type 0
Outcome none s t =
    ((t.disk).prod ≡ (s.disk).shadow)
    × ((t.disk).prod ≢ none)
    × ((t.disk).shadow ≡ none)
    × (t.db ≡ nil)
Outcome (some e) s t = t.disk ≡ s.disk

renamed-Outcome :
    (os : Os) (o : Option String) (db : Database) (s : Store)
    → (s.disk).shadow ≡ some db
    → let (e, t) = renamed os o db (record s { db = nil }) in Outcome e s t
unfolding renamed
renamed-Outcome os none db s here = (sym here, λ h. ground arith, refl, refl)
renamed-Outcome os (some e) db s here = refl

rename-Outcome :
    (os : Os) (o : Option Database) (s : Store)
    → (s.disk).shadow ≡ o
    → let (e, t) = rename os o (record s { db = nil }) in Outcome e s t
unfolding rename
rename-Outcome os none s here = refl
rename-Outcome os (some db) s here = renamed-Outcome os (os.fails rename_shadow) db s here

commit_closed-Outcome :
    (os : Os) (o : Option String) (s : Store) → let (e, t) = commit_closed os o s in Outcome e s t
unfolding commit_closed
commit_closed-Outcome os (some e) s = refl
commit_closed-Outcome os none s = rename-Outcome os (s.disk).shadow s refl

-- `Commit` is all or nothing. With no error, the production database is what the shadow was, the
-- shadow file is gone, and the connection is given up; with an error, the files are as they were.
pub commit_lem : (os : Os) (s : Store) → let (e, t) = commit os s in Outcome e s t
unfolding commit
commit_lem os s = commit_closed-Outcome os (close_error os s.db) s

commit-journal : (os : Os) (s : Store) → ((commit os s).1.disk).journal ≡ (s.disk).journal
unfolding commit commit_closed rename renamed close_error
commit-journal os s = ground arith

-- What a successful `Commit` published is what the next successful `Open` finds.
pub commit_durable :
    (os os' : Os) (engine' : Engine) (s t : Store) (p : String)
    → (s.disk).journal ≡ none
    → (commit os s).0 ≡ none
    → (open_repository os' engine' (commit os s).1.disk).0 ≡ ok t
    → row t p ≡ row s p
commit_durable os os' engine' s t p fresh h k =
    let (_, _, _, _, rows) = open_repository_lem os' engine' (commit os s).1.disk t k in
    let (published, _, _, _) = subst (λ e. Outcome e s (commit os s).1) h (commit_lem os s) in
    rows p
    ∙ starting_row-prod (commit os s).1.disk p (commit-journal os s ∙ fresh)
    ∙ ap (λ o. Option.map to_record (find_row p (rows_of o))) published
