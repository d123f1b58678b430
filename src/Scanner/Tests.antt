-- ===== src/Scanner/Tests.antt =====
-- A drive of three files, one as its record says, one changed and one new, and the theorems about the
-- scanner at it.
use mathlib.Core.Option
use bit_rot_detector.Base.{
  ℕ, String, true, false, none, some, List, [], ◌∷◌, ◌≡◌, ◌≢◌, ◌⊎◌, refl, ap, ◌==◌, arith, contains,
  string_eq, nat_eq,
}
use bit_rot_detector.Base.Int.{pos, int_eq}
use bit_rot_detector.Base.Moment.{Moment, at_unix}
use bit_rot_detector.Base.Dict.{lookup, insert}
use bit_rot_detector.Domain.{Result, ok, FileRecord, Repository}
use bit_rot_detector.Domain.Lawful.{IsLawful, IsReliable}
use bit_rot_detector.Storage.Table.{to_record}
use bit_rot_detector.Storage.Store.{Store, sqlite}
use bit_rot_detector.Storage.Store.Laws.{IsOpen, sqlite-IsLawful, sqlite-IsReliable}
use bit_rot_detector.Storage.Store.Tests.{
  plain_os, plain_engine, whole_numbers, photo, song, store, known_files, listed, store-IsOpen,
  scrubs,
}
use bit_rot_detector.Scanner.Walk.{
  Stamp, Node, directory, file, end, entry, found, walk, walk_forest, skip_system_dir, skip_file,
  visit_file, visit_info,
}
use bit_rot_detector.Scanner.Classify.{same_stamp}
use bit_rot_detector.Scanner.Sync.{State, Choice, collects, run, start, sync_directory}
use bit_rot_detector.Scanner.Sync.Invariant.{on_disk, Distinct, Uncancelled}
use bit_rot_detector.Scanner.Sync.Exact.{IsComplete}
use bit_rot_detector.Scanner.Sync.Tracked.{Row, sync_directory_exact}
use bit_rot_detector.Scanner.Sync.History.{synced, sync_directory_keeps, sync_directory_rehashes}
use bit_rot_detector.Scanner.Sync.Schedules.{walk_then, run-IsComplete}
use bit_rot_detector.Scanner.Scrub.{scrub_files}
use bit_rot_detector.Scanner.Scrub.Verdict.{intact_in}
use bit_rot_detector.Scanner.Scrub.Report.{Outcome, scrub_files_lem}
use bit_rot_detector.Scanner.Scrub.Rows.{scrub_files_keeps}

abbrev stamp : ℕ → Stamp
stamp n = record { size = n; mtime = at_unix (pos 50) }

abbrev pub root : Node
root = directory "d" (
    entry (file ".bitrot-canary" "/d/.bitrot-canary" (ok (stamp 0))) (
      entry (file "film" "/d/film" (ok (stamp 30))) (
        entry (file "photo" "/d/photo" (ok (stamp 10)))
          (entry (file "song" "/d/song" (ok (stamp 12))) end))))

abbrev pub hash_of : String → Result String
hash_of p = ok "bb"

abbrev pub clock : String → Moment
clock p = at_unix (pos 500)

abbrev pub repository : Repository ℕ
repository = sqlite plain_os plain_engine whole_numbers

laws : IsLawful repository
laws = sqlite-IsLawful plain_engine plain_os whole_numbers

reliable : IsReliable repository IsOpen
reliable = sqlite-IsReliable plain_engine plain_os whole_numbers (λ db. refl) (λ db. refl)

abbrev pub choices : List Choice
choices = walk_then (collects 0) (walk root)

program : Unit {0}
unfolding walk walk_forest skip_system_dir skip_file visit_file visit_info string_eq nat_eq int_eq
    insert lookup same_stamp
program = tt

walked :
    walk root
    ≡ found "/d/film" (stamp 30) ∷ found "/d/photo" (stamp 10) ∷ found "/d/song" (stamp 12) ∷ []
unfolding program
walked = refl

pub distinct : Distinct (walk root) []
unfolding program
distinct = (refl, (refl, (refl, tt)))

abbrev pub state_after : State repository
state_after =
    run repository hash_of clock clock known_files choices (start repository (walk root) store)

pub ends : Uncancelled choices × IsComplete repository state_after
ends = run-IsComplete laws reliable hash_of clock clock known_files (walk root) store store-IsOpen

abbrev repo_after : Store
repo_after = (sync_directory repository hash_of clock clock none root choices store).2

sync_directory_exact_example :
    let out = sync_directory repository hash_of clock clock none root choices store in
    (out.1 ≡ none)
    × ((p : String)
        → Row hash_of known_files clock clock p
            (lookup p (on_disk (walk root) []))
            (laws.row out.2 p))
sync_directory_exact_example =
    sync_directory_exact laws reliable hash_of clock clock root choices store known_files listed
      store-IsOpen distinct ends.0 ends.1

hashed : (to_record photo).hash ≢ ""
unfolding to_record string_eq
hashed h = let k : false ≡ true = ap (λ s. s == "") h in ground arith

sync_directory_keeps_example :
    laws.row repo_after "/d/photo"
    ≡ some (synced (clock "/d/photo") "/d/photo" (stamp 10) "aa" (to_record photo))
unfolding program to_record
sync_directory_keeps_example =
    sync_directory_keeps laws reliable hash_of clock clock root choices store known_files listed
      store-IsOpen distinct ends.0 ends.1 "/d/photo" (stamp 10) (to_record photo) refl refl refl
      hashed

sync_directory_rehashes_example :
    laws.row repo_after "/d/song"
    ≡ some (synced (clock "/d/song") "/d/song" (stamp 12) "bb" (to_record song))
unfolding program to_record
sync_directory_rehashes_example =
    sync_directory_rehashes laws reliable hash_of clock clock root choices store known_files listed
      store-IsOpen distinct ends.0 ends.1 "/d/song" (stamp 12) (to_record song) "bb" refl refl refl
      refl

abbrev selection : List FileRecord
selection = to_record photo ∷ to_record song ∷ []

scrub_files_lem_example :
    Outcome
      (λ p. false)
      hash_of
      repository
      clock
      selection
      store
      (scrub_files repository
        (λ p. false)
        hash_of
        clock
        none
        (λ i. false)
        (at_unix (pos 600))
        100
        none
        store)
scrub_files_lem_example =
    scrub_files_lem (λ p. false) hash_of repository clock (λ i. false) (at_unix (pos 600)) 100 none
      store selection scrubs

scrub_files_keeps_example :
    let (_, _, repo') =
      scrub_files repository
        (λ p. false)
        hash_of
        clock
        none
        (λ i. false)
        (at_unix (pos 600))
        100
        none
        store in
    (Option.map (λ r. r.hash) (laws.row repo' "/d/photo")
      ≡ Option.map (λ r. r.hash) (laws.row store "/d/photo"))
    × ((contains (intact_in (λ p. false) hash_of selection) "/d/photo" ≡ true)
        ⊎ (laws.row repo' "/d/photo" ≡ laws.row store "/d/photo"))
scrub_files_keeps_example =
    scrub_files_keeps repository clock laws (λ p. false) hash_of (λ i. false) (at_unix (pos 600))
      100 none store selection "/d/photo" scrubs
