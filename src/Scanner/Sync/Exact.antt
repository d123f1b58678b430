-- ===== src/Scanner/Sync/Exact.antt =====
-- What `SyncDirectory` leaves in the database, for every interleaving of its goroutines.
use bit_rot_detector.Base.{
  ◌∙◌, sym, ap, subst, String, Option, none, some, ◌≡◌, refl, inl, inr, arith, is_none, not, ◌&&◌,
  string_eq, if◌then◌else◌, List, [], ◌∷◌,
}
use bit_rot_detector.Base.Moment.{Moment}
use bit_rot_detector.Base.Dict.{Dict, lookup, NodupKeys}
use bit_rot_detector.Domain.{Result, ok, FileRecord, Repository}
use bit_rot_detector.Domain.Lawful.{IsLawful, IsReliable}
use bit_rot_detector.Scanner.Walk.{Stamp, WalkEvent}
use bit_rot_detector.Scanner.Sync.{
  State, Choice, start, run, remove_one, remove_missing, finish, sync_directory,
}
use bit_rot_detector.Scanner.Sync.Pending.{Waiting}
use bit_rot_detector.Scanner.Sync.Effect.{row-delete_lem}
use bit_rot_detector.Scanner.Walk.{Node, walk}
use bit_rot_detector.Scanner.Sync.Invariant.{on_disk, Distinct, Uncancelled, Settled, Inv}
use bit_rot_detector.Scanner.Sync.Steps.{step-Inv}

-- All goroutines have ended: the walker has no entry left, and no item is on its way.
abbrev pub IsComplete : {Float : Type 0} (R : Repository Float) → State R → Type 0
IsComplete R s = (s.todo ≡ []) × (s.pending ≡ [])

module _ {Float : Type 0} {R : Repository Float} (L : IsLawful R) {Good : R.State → Type 0}
    (rel : IsReliable R Good) (hash_of : String → Result String)
    (added_now seen_now : String → Moment) (db_files : Dict FileRecord)
    (uniq : NodupKeys db_files) where
  run-Inv :
      (events : List WalkEvent) (choices : List Choice) (s : State R)
      → Uncancelled choices
      → Inv L Good hash_of added_now seen_now db_files events s
      → Inv L Good hash_of added_now seen_now db_files events
          (run R hash_of added_now seen_now db_files choices s)
  unfolding run
  run-Inv events [] s live inv = inv
  run-Inv events (c ∷ choices) s (l, live) inv =
      run-Inv events choices _ live
        (step-Inv L rel hash_of added_now seen_now db_files uniq events c s l inv)

  start-Inv :
      (events : List WalkEvent) (repo : R.State)
      → Good repo
      → ((p : String) → lookup p db_files ≡ L.row repo p)
      → Distinct events []
      → Inv L Good hash_of added_now seen_now db_files events (start R events repo)
  unfolding lookup
  start-Inv events repo good loaded distinct = record {
    good = good;
    uncancelled = refl;
    alive = refl;
    walking = refl;
    ahead = refl;
    distinct = distinct;
    sent = tt;
    settled = λ p stamp h. absurd (cc);
    unseen = λ p h. inl (sym (loaded p));
  }

  -- The effect of the last phase on one row.
  row-remove_missing :
      (d : Dict FileRecord) (s : State R) (p : String)
      → Good s.repo
      → L.row (remove_missing R hash_of added_now seen_now db_files d s).repo p
        ≡ (if is_none (lookup p s.seen) && not (is_none (lookup p d)) then none else L.row s.repo p)
  unfolding remove_missing remove_one lookup
  row-remove_missing [] s p good = ground arith
  row-remove_missing ((path, r) ∷ rest) s p good =
      go (lookup path s.seen) refl (row-remove_missing rest)
    where
      go :
          (o : Option Stamp)
          → lookup path s.seen ≡ o
          → ((t : State R) (q : String)
              → Good t.repo
              → L.row (remove_missing R hash_of added_now seen_now db_files rest t).repo q ≡ (
                  if is_none (lookup q t.seen) && not (is_none (lookup q rest))
                  then none
                  else L.row t.repo q))
          → L.row
              (remove_missing R hash_of added_now seen_now db_files rest
                (remove_one R hash_of added_now seen_now db_files path o s)).repo
              p
            ≡ (if is_none (lookup p s.seen) && not (is_none (lookup p ((path, r) ∷ rest)))
                then none
                else L.row s.repo p)
      go (some stamp) e ih = ground (arith, ih s p good)
      go none e ih = ground (
        arith,
        ih (remove_one R hash_of added_now seen_now db_files path none s) p
            (rel.delete_succeeds path s.repo good).1,
        row-delete_lem L rel path s.repo p good,
      )

  finish-Inv :
      (events : List WalkEvent) (s : State R)
      → Inv L Good hash_of added_now seen_now db_files events s
      → let out = finish R hash_of added_now seen_now db_files s in
        (out.1 ≡ none)
        × (out.2 ≡ (remove_missing R hash_of added_now seen_now db_files db_files s).repo)
  unfolding finish
  finish-Inv events s inv =
      (ground (arith, inv.alive, inv.walking), ground (arith, inv.alive, inv.walking))

  -- The rows when all has ended without a cancellation.
  finish-row :
      (events : List WalkEvent) (s : State R) (p : String)
      → Inv L Good hash_of added_now seen_now db_files events s
      → IsComplete R s
      → let row = L.row (finish R hash_of added_now seen_now db_files s).2 p in
        (lookup p (on_disk events []) ≡ none → row ≡ none)
        × ((stamp : Stamp)
            → lookup p (on_disk events []) ≡ some stamp
            → Settled L Good hash_of added_now seen_now db_files p stamp row)
  finish-row events s p inv (ended, empty) = (gone, kept)
    where
      seen : s.seen ≡ on_disk events []
      seen = subst (λ todo. on_disk todo s.seen ≡ on_disk events []) ended inv.ahead

      after : L.row (finish R hash_of added_now seen_now db_files s).2 p ≡ (
          if is_none (lookup p s.seen) && not (is_none (lookup p db_files))
          then none
          else L.row s.repo p)
      after =
          ap (λ repo. L.row repo p) (finish-Inv events s inv).1
          ∙ row-remove_missing db_files s p inv.good

      gone :
          lookup p (on_disk events []) ≡ none
          → L.row (finish R hash_of added_now seen_now db_files s).2 p ≡ none
      gone h = let h' : lookup p s.seen ≡ none = rw seen h in ground (arith, after, inv.unseen p h')

      kept :
          (stamp : Stamp)
          → lookup p (on_disk events []) ≡ some stamp
          → Settled L Good hash_of added_now seen_now db_files p stamp
              (L.row (finish R hash_of added_now seen_now db_files s).2 p)
      kept stamp h =
          let h' : lookup p s.seen ≡ some stamp = rw seen h in
          let same : L.row s.repo p ≡ L.row (finish R hash_of added_now seen_now db_files s).2 p =
            ground (arith, after) in
          elim (inv.settled p stamp h') [
            | inl waits ↦ elim (subst (Waiting p) empty waits) [ ]
            | inr done ↦
                subst (Settled L Good hash_of added_now seen_now db_files p stamp) same done
          ]

module _ {Float : Type 0} {R : Repository Float} (L : IsLawful R) {Good : R.State → Type 0}
    (rel : IsReliable R Good) (hash_of : String → Result String)
    (added_now seen_now : String → Moment) (root : Node) (choices : List Choice) (repo : R.State)
    (db_files : Dict FileRecord) (loaded : R.get_all_files repo ≡ ok db_files) (good : Good repo)
    (distinct : Distinct (walk root) []) (live : Uncancelled choices)
    (complete : IsComplete R
      (run R hash_of added_now seen_now db_files choices (start R (walk root) repo))) where
  -- For every interleaving of the walker, the workers and the collector that runs to its end without
  -- a cancellation, over a repository that can be read and whose writes succeed, on a tree in which
  -- no path is found twice: `SyncDirectory` returns no error; the
  -- database has no record of a path that the walk did not find; and a path that it found, and whose
  -- hash is known or can be computed, has the record that its size and time on disk and its old
  -- record determine.
  pub sync_directory-Settled :
      let out = sync_directory R hash_of added_now seen_now none root choices repo in
      (out.1 ≡ none)
      × ((p : String)
          → (lookup p (on_disk (walk root) []) ≡ none → L.row out.2 p ≡ none)
            × ((stamp : Stamp)
                → lookup p (on_disk (walk root) []) ≡ some stamp
                → Settled L Good hash_of added_now seen_now db_files p stamp (L.row out.2 p)))
  unfolding sync_directory
  sync_directory-Settled =
      rw (loaded, sync_directory)
        (
          (finish-Inv L rel hash_of added_now seen_now db_files uniq (walk root) final holds).0,
          λ p.
              finish-row L rel hash_of added_now seen_now db_files uniq (walk root) final p holds
                complete,
        )
    where
      uniq : NodupKeys db_files
      uniq = L.get_all-NodupKeys repo db_files loaded

      final : State R
      final = run R hash_of added_now seen_now db_files choices (start R (walk root) repo)

      holds : Inv L Good hash_of added_now seen_now db_files (walk root) final
      holds = run-Inv L rel hash_of added_now seen_now db_files uniq (walk root) choices _ live (
          start-Inv L rel hash_of added_now seen_now db_files uniq (walk root) repo good
            (λ p. L.get_all-row repo db_files p loaded) distinct)
