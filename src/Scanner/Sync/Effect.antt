-- ===== src/Scanner/Sync/Effect.antt =====
-- What one step of the collector does to the rows of the database.
use bit_rot_detector.Base.{
  ℕ, true, inr, sym, ◌∙◌, String, Option, none, some, ◌≡◌, refl, ◌≢◌, ◌⊎◌, inl, arith, ◌==◌,
  string_eq, if◌then◌else◌,
}
use bit_rot_detector.Base.Moment.{Moment}
use bit_rot_detector.Base.Dict.{Dict, lookup, NodupKeys}
use bit_rot_detector.Domain.{
  ok_inj, Result, ok, FileRecord, SyncResult, WorkResult, Repository, stored,
}
use bit_rot_detector.Domain.Lawful.{IsLawful, IsReliable}
use bit_rot_detector.Scanner.Classify.{same_stamp, fresh_record, inherit}
use bit_rot_detector.Scanner.Sync.Cases.{collect_ind, collect_new_ind}
use bit_rot_detector.Scanner.Sync.{
  State, save, collect, collect_known, collect_added, collect_moved,
}

-- A record of the database under another path, with the size and the modification time of a file.
abbrev pub Moved : Dict FileRecord → String → ℕ → Moment → (from : String) → FileRecord → Type 0
Moved db_files path size mtime from old =
    (from ≢ path) × (lookup from db_files ≡ some old) × (same_stamp old size mtime ≡ true)

-- The hash that is computed now, or that of a record of the database under another path, with the
-- size and the modification time of the file.
abbrev pub Hashed : Dict FileRecord → String → ℕ → Moment → (hash recorded : String) → Type 0
Hashed db_files path size mtime hash recorded =
    (recorded ≡ hash)
    ⊎ ((from : String) × (old : FileRecord) × Moved db_files path size mtime from old
        × (recorded ≡ old.hash))

-- The row of a file that the database did not know: it is new, with the hash that is computed now, or
-- it takes over the hash and the history of a record with its size and time under another path.
abbrev pub Fresh :
    Dict FileRecord
    → (added_now seen_now : String → Moment) → WorkResult
    → String
    → Option FileRecord
    → Type 0
Fresh db_files added_now seen_now res hash row =
    (row
      ≡ some (
          stored (seen_now res.path)
            (record (fresh_record res hash) { added_at = added_now res.path })))
    ⊎ ((from : String) × (old : FileRecord) × Moved db_files res.path res.size res.mtime from old
        × (row ≡ some (stored (seen_now res.path) (inherit old (fresh_record res old.hash)))))

-- The record that stands under the path of a result after it was collected: for a path that the
-- database had, its old history with the new hash, size and time, and for any other path one of the two
-- above.
pub record Written (db_files : Dict FileRecord) (added_now seen_now : String → Moment)
    (res : WorkResult) (hash : String) (row : Option FileRecord) : Type 0 where
  pub known :
      (existing : FileRecord)
      → lookup res.path db_files ≡ some existing
      → row ≡ some (stored (seen_now res.path) (inherit existing (fresh_record res hash)))
  pub new : lookup res.path db_files ≡ none → Fresh db_files added_now seen_now res hash row

module _ {Float : Type 0} {R : Repository Float} (L : IsLawful R) {Good : R.State → Type 0}
    (rel : IsReliable R Good) where
  -- A change of the rows, the counters and the errors, and of nothing else.
  pub record Frame (s t : State R) : Type 0 where
    pub good : Good t.repo
    pub todo : t.todo ≡ s.todo
    pub pending : t.pending ≡ s.pending
    pub seen : t.seen ≡ s.seen
    pub cancelled : t.cancelled ≡ s.cancelled
    pub aborted : t.aborted ≡ s.aborted
    pub walk_err : t.walk_err ≡ s.walk_err

  row-save :
      (now : Moment) (r : FileRecord) (s : State R) (p : String)
      → Good s.repo
      → L.row (save R now r s).repo p
        ≡ (if p == r.abs_path then some (stored now r) else L.row s.repo p)
  unfolding save
  row-save now r s p good =
      ground (arith, L.row-upsert now r s.repo p, rel.upsert_succeeds now r s.repo good)

  save-Frame :
      (now : Moment) (r : FileRecord) (s : State R) → Good s.repo → Frame s (save R now r s)
  unfolding save
  save-Frame now r s good = record {
    good = (rel.upsert_succeeds now r s.repo good).1;
    todo = refl;
    pending = refl;
    seen = refl;
    cancelled = refl;
    aborted = refl;
    walk_err = refl;
  }

  Frame-weaken :
      {s t : State R} (repo : R.State) (result : SyncResult)
      → Frame (record s { repo = repo; result = result }) t
      → Frame s t
  Frame-weaken repo result f = record {
    good = f.good;
    todo = f.todo;
    pending = f.pending;
    seen = f.seen;
    cancelled = f.cancelled;
    aborted = f.aborted;
    walk_err = f.walk_err;
  }

  pub row-delete_lem :
      (k : String) (s : R.State) (p : String)
      → Good s
      → L.row (R.delete_file k s).1 p ≡ (if p == k then none else L.row s p)
  row-delete_lem k s p good = ground (arith, L.row-delete k s p, rel.delete_succeeds k s good)

  module _ (hash_of : String → Result String) (added_now seen_now : String → Moment)
      (db_files : Dict FileRecord) where
    collect_known-Frame :
        (res : WorkResult) (hash : String) (existing : FileRecord) (s : State R)
        → Good s.repo
        → Frame s (collect_known R hash_of added_now seen_now db_files res hash existing s)
    unfolding collect_known
    collect_known-Frame res hash existing s good = Frame-weaken _ _ (save-Frame _ _ _ good)

    collect_added-Frame :
        (res : WorkResult) (hash : String) (s : State R)
        → Good s.repo
        → Frame s (collect_added R hash_of added_now seen_now db_files res hash s)
    unfolding collect_added
    collect_added-Frame res hash s good = Frame-weaken _ _ (save-Frame _ _ _ good)

    collect_moved-Frame :
        (res : WorkResult) (moved_from : String) (old : FileRecord) (s : State R)
        → Good s.repo
        → Frame s (collect_moved R hash_of added_now seen_now db_files res moved_from old s)
    unfolding collect_moved
    collect_moved-Frame res moved_from old s good =
        Frame-weaken _ _ (save-Frame _ _ _ (rel.delete_succeeds moved_from s.repo good).1)

    -- The collector's step leaves all but the rows, the counters and the errors as they are.
    pub collect-Frame :
        (res : WorkResult) (s : State R)
        → Good s.repo
        → Frame s (collect R hash_of added_now seen_now db_files res s)
    collect-Frame res s good =
        collect_ind R hash_of added_now seen_now db_files (Frame s) res s
          (λ message e. record {
            good = good;
            todo = refl;
            pending = refl;
            seen = refl;
            cancelled = refl;
            aborted = refl;
            walk_err = refl;
          })
          (λ hash existing e f. collect_known-Frame res hash existing s good)
          λ hash e f.
            collect_new_ind R hash_of added_now seen_now db_files (Frame s) res hash s
              (collect_added-Frame res hash s good)
              λ moved_from old other unseen listed same.
                collect_moved-Frame res moved_from old s good

    row-collect_known :
        (res : WorkResult) (hash : String) (existing : FileRecord) (s : State R) (q : String)
        → Good s.repo
        → L.row (collect_known R hash_of added_now seen_now db_files res hash existing s).repo q ≡ (
            if q == res.path
            then some (stored (seen_now res.path) (inherit existing (fresh_record res hash)))
            else L.row s.repo q)
    unfolding collect_known
    row-collect_known res hash existing s q good = row-save _ _ _ q good

    row-collect_added :
        (res : WorkResult) (hash : String) (s : State R) (q : String)
        → Good s.repo
        → L.row (collect_added R hash_of added_now seen_now db_files res hash s).repo q ≡ (
            if q == res.path
            then some (
                stored
                  (seen_now res.path)
                  (record (fresh_record res hash) { added_at = added_now res.path }))
            else L.row s.repo q)
    unfolding collect_added
    row-collect_added res hash s q good = row-save _ _ _ q good

    row-collect_moved :
        (res : WorkResult) (moved_from : String) (old : FileRecord) (s : State R) (q : String)
        → Good s.repo
        → L.row (collect_moved R hash_of added_now seen_now db_files res moved_from old s).repo q
          ≡ (if q == res.path
              then some (stored (seen_now res.path) (inherit old (fresh_record res old.hash)))
              else if q == moved_from
              then none
              else L.row s.repo q)
    unfolding collect_moved
    row-collect_moved res moved_from old s q good =
        row-save _ _ _ q (rel.delete_succeeds moved_from s.repo good).1
        ∙ rw (row-delete_lem moved_from s.repo q good)

    -- The row of the result's own path.
    pub collect-Written :
        (res : WorkResult) (hash : String) (s : State R)
        → Good s.repo
        → res.hash ≡ ok hash
        → NodupKeys db_files
        → Written db_files added_now seen_now res hash
            (L.row (collect R hash_of added_now seen_now db_files res s).repo res.path)
    collect-Written res hash s good e uniq =
        collect_ind R hash_of added_now seen_now db_files
          (λ t. Written db_files added_now seen_now res hash (L.row t.repo res.path)) res s
          (λ message f. absurd (cc))
          (λ hash' existing f present. record {
            known = λ other p.
                ground
                  (arith, row-collect_known res hash' existing s res.path good, e, f, present, p);
            new = λ absent. absurd (cc);
          })
          λ hash' f absent.
            collect_new_ind R hash_of added_now seen_now db_files
              (λ t. Written db_files added_now seen_now res hash (L.row t.repo res.path)) res hash'
              s
              (record {
                known = λ existing p. absurd (cc);
                new = λ _.
                    let same : hash' ≡ hash = ok_inj (sym f ∙ e) in
                    inl (ground (arith, row-collect_added res hash' s res.path good, same));
              })
              λ moved_from old away unseen listed same. record {
                known = λ existing p. absurd (cc);
                new = λ _. inr (
                  moved_from,
                  old,
                  (away, listed, same uniq),
                  ground (arith, row-collect_moved res moved_from old s res.path good),
                );
              }

    -- The rows of the other paths: those that the walk has met stay, and one that it has not met may
    -- be gone.
    pub collect-row :
        (res : WorkResult) (s : State R) (q : String)
        → Good s.repo
        → q ≢ res.path
        → let o = L.row (collect R hash_of added_now seen_now db_files res s).repo q in
          (o ≡ L.row s.repo q) ⊎ ((o ≡ none) × (lookup q s.seen ≡ none))
    collect-row res s q good other =
        collect_ind R hash_of added_now seen_now db_files
          (λ t.
            (L.row t.repo q ≡ L.row s.repo q)
            ⊎ ((L.row t.repo q ≡ none) × (lookup q s.seen ≡ none)))
          res s (λ message f. inl refl)
          (λ hash existing f present.
            inl (ground (arith, row-collect_known res hash existing s q good)))
          λ hash f absent.
            collect_new_ind R hash_of added_now seen_now db_files
              (λ t.
                (L.row t.repo q ≡ L.row s.repo q)
                ⊎ ((L.row t.repo q ≡ none) × (lookup q s.seen ≡ none)))
              res hash s (inl (ground (arith, row-collect_added res hash s q good)))
              λ moved_from old away unseen listed same.
                ground (arith, row-collect_moved res moved_from old s q good)
