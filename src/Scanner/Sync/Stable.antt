-- ===== src/Scanner/Sync/Stable.antt =====
-- What the methods of the repository keep, all of `SyncDirectory` of internal/scanner/scanner.go
-- keeps, in every interleaving and on every error.
use bit_rot_detector.Base.{String, Option, none, some, List, [], ◌∷◌, if◌then◌else◌, if_ind, ◌<>◌}
use bit_rot_detector.Base.Moment.{Moment}
use bit_rot_detector.Base.Dict.{Dict, lookup}
use bit_rot_detector.Domain.{
  Result, ok, err, FileRecord, SyncResult, WorkItem, WorkResult, Repository,
}
use bit_rot_detector.Domain.Lawful.{Preserves}
use bit_rot_detector.Scanner.Walk.{Stamp, WalkEvent, failed, found, Node, walk}
use bit_rot_detector.Scanner.Classify.{compute, pick}
use bit_rot_detector.Scanner.Sync.{
  State, canceled, Choice, walks, stops, collects, drops, cancels, start, visit, take_result,
  drop_item, collect, step, run, walk_on, remove_one, remove_missing, finish, sync_directory,
  collect_known, collect_added, collect_moved, save,
}
use bit_rot_detector.Scanner.Sync.Cases.{collect_ind, collect_new_ind}

module _ {Float : Type 0} (R : Repository Float) (P : R.State → Type 0) (keeps : Preserves R P)
    (hash_of : String → Result String) (added_now seen_now : String → Moment) where
  open keeps use {by_upsert, by_delete}

  module _ (db_files : Dict FileRecord) where
    collect-kept :
        (res : WorkResult) (s : State R)
        → P s.repo
        → P (collect R hash_of added_now seen_now db_files res s).repo
    unfolding collect_known collect_added collect_moved save
    collect-kept res s h =
        collect_ind R hash_of added_now seen_now db_files (λ t. P t.repo) res s (λ message e. h)
          (λ hash existing e f. by_upsert _ _ _ h)
          (λ hash e f.
            collect_new_ind R hash_of added_now seen_now db_files (λ t. P t.repo) res hash s
              (by_upsert _ _ _ h)
              (λ moved_from old other unseen listed same.
                by_upsert _ _ _ (by_delete moved_from _ h)))

    visit-kept :
        (e : WalkEvent) (s : State R)
        → P s.repo
        → P (visit R hash_of added_now seen_now db_files e s).repo
    unfolding visit
    visit-kept (failed message) s h = h
    visit-kept (found path stamp) s h = h

    walk_on-kept :
        (events : List WalkEvent) (s : State R)
        → P s.repo
        → P (walk_on R hash_of added_now seen_now db_files events s).repo
    unfolding walk_on
    walk_on-kept [] s h = h
    walk_on-kept (e ∷ rest) s h = visit-kept e _ h

    take_result-kept :
        (o : Option (WorkItem × List WorkItem)) (s : State R)
        → P s.repo
        → P (take_result R hash_of added_now seen_now db_files o s).repo
    unfolding take_result
    take_result-kept none s h = h
    take_result-kept (some (w, rest)) s h =
        if_ind (λ (t : State R). P t.repo) s.cancelled h
          (collect-kept (compute hash_of w) (record s { pending = rest }) h)

    drop_item-kept :
        (o : Option (WorkItem × List WorkItem)) (s : State R)
        → P s.repo
        → P (drop_item R hash_of added_now seen_now db_files o s).repo
    unfolding drop_item
    drop_item-kept none s h = h
    drop_item-kept (some (w, rest)) s h = if_ind (λ (t : State R). P t.repo) s.cancelled h h

    step-kept :
        (c : Choice) (s : State R)
        → P s.repo
        → P (step R hash_of added_now seen_now db_files c s).repo
    unfolding step
    step-kept walks s h = walk_on-kept s.todo s h
    step-kept stops s h = if_ind (λ (t : State R). P t.repo) s.cancelled h h
    step-kept (collects n) s h =
        if_ind (λ (t : State R). P t.repo) s.aborted h (take_result-kept (pick n s.pending) s h)
    step-kept (drops n) s h = drop_item-kept (pick n s.pending) s h
    step-kept cancels s h = h

    run-kept :
        (choices : List Choice) (s : State R)
        → P s.repo
        → P (run R hash_of added_now seen_now db_files choices s).repo
    unfolding run
    run-kept [] s h = h
    run-kept (c ∷ choices) s h = run-kept choices _ (step-kept c s h)

    remove_missing-kept :
        (files : Dict FileRecord) (s : State R)
        → P s.repo
        → P (remove_missing R hash_of added_now seen_now db_files files s).repo
    unfolding remove_missing
    remove_missing-kept [] s h = h
    remove_missing-kept ((path, _) ∷ rest) s h =
        remove_missing-kept rest _ (removed (lookup path s.seen))
      where
        removed :
            (o : Option Stamp) → P (remove_one R hash_of added_now seen_now db_files path o s).repo
        removed (some stamp) = h
        removed none = by_delete path s.repo h

    finish-kept : (s : State R) → P s.repo → P (finish R hash_of added_now seen_now db_files s).2
    unfolding finish
    finish-kept s h =
        if_ind (λ (t : Option SyncResult × Option String × R.State). P t.2) s.aborted h
          (ended s.walk_err)
      where
        ended :
            (o : Option String)
            → P
                (elim o as (λ _. Option SyncResult × Option String × R.State) [
                  | some e ↦ (
                    some s.result,
                    some (if s.cancelled then canceled else "walk: " <> e),
                    s.repo,
                  )
                  | none ↦
                      let t = remove_missing R hash_of added_now seen_now db_files db_files s in
                      (some t.result, none, t.repo)
                ]).2
        ended none = remove_missing-kept db_files s h
        ended (some e) = h

  pub sync_directory-kept :
      (ctx : Option String) (root : Node) (choices : List Choice) (repo : R.State)
      → P repo
      → P (sync_directory R hash_of added_now seen_now ctx root choices repo).2
  unfolding sync_directory
  sync_directory-kept (some e) root choices repo h = h
  sync_directory-kept none root choices repo h = loaded (R.get_all_files repo)
    where
      loaded :
          (o : Result (Dict FileRecord))
          → P
              (elim o as (λ _. Option SyncResult × Option String × R.State) [
                | err e ↦ (none, some ("load db files: " <> e), repo)
                | ok db_files ↦
                    finish R hash_of added_now seen_now db_files
                      (run R hash_of added_now seen_now db_files choices (start R (walk root) repo))
              ]).2
      loaded (err e) = h
      loaded (ok db_files) =
          finish-kept db_files _ (run-kept db_files choices (start R (walk root) repo) h)
