-- ===== src/Scanner/Sync/Cases.antt =====
-- The four ways in which the collector of internal/scanner/scanner.go treats a result, as a rule: a
-- property of each of them is a property of the loop's body.
use bit_rot_detector.Base.{
  String, true, Option, none, some, ◌≡◌, refl, ◌≢◌, ◌⊎◌, inl, inr, arith, ◌==◌, string_eq,
  Bool-cases, ◌<>◌,
}
use bit_rot_detector.Base.Moment.{Moment}
use bit_rot_detector.Base.Dict.{Dict, lookup, NodupKeys}
use bit_rot_detector.Domain.{Result, ok, err, FileRecord, WorkResult, Repository}
use bit_rot_detector.Scanner.Classify.{
  find_moved_file, find_moved_file-seen, find_moved_file-same_stamp, same_stamp,
}
use bit_rot_detector.Scanner.Sync.{
  State, add_error, collect, collect_known, collect_added, collect_moved, collect_new,
  collect_hashed, collect_result, collect_moved_from,
}

module _ {Float : Type 0} (R : Repository Float) (hash_of : String → Result String)
    (added_now seen_now : String → Moment) (db_files : Dict FileRecord) where
  pub collect_new_ind {ℓ} :
      (P : State R → Type ℓ) (res : WorkResult) (hash : String) (s : State R)
      → P (collect_added R hash_of added_now seen_now db_files res hash s)
      → ((moved_from : String) (old : FileRecord)
          → moved_from ≢ res.path
          → lookup moved_from s.seen ≡ none
          → lookup moved_from db_files ≡ some old
          → (NodupKeys db_files → same_stamp old res.size res.mtime ≡ true)
          → P (collect_moved R hash_of added_now seen_now db_files res moved_from old s))
      → P (collect_new R hash_of added_now seen_now db_files res hash s)
  unfolding collect_new collect_moved_from
  collect_new_ind P res hash s added moved = elim (Bool-cases (m == "")) [
    | inl nothing ↦ rw nothing added
    | inr something ↦ rw something (elim older [
      | inl nothing ↦ absurd (grind arith)
      | inr (other, unseen, listed) ↦
          go (lookup m db_files) other unseen listed
            (find_moved_file-same_stamp res.path res.size res.mtime db_files s.seen)
            (λ e. absurd (grind arith)) refl
    ])
  ]
    where
      m : String
      m = find_moved_file res.path res.size res.mtime db_files s.seen

      older : (m ≡ "") ⊎ ((m ≢ res.path) × (lookup m s.seen ≡ none) × (lookup m db_files ≢ none))
      older = find_moved_file-seen res.path res.size res.mtime db_files s.seen

      go :
          (o : Option FileRecord)
          → m ≢ res.path
          → lookup m s.seen ≡ none
          → lookup m db_files ≢ none
          → ((old : FileRecord)
              → m ≢ ""
              → lookup m db_files ≡ some old
              → NodupKeys db_files
              → same_stamp old res.size res.mtime ≡ true)
          → m ≢ ""
          → lookup m db_files ≡ o
          → P (collect_moved_from R hash_of added_now seen_now db_files res m o s)
      go none other unseen listed same named e = absurd (listed e)
      go (some old) other unseen listed same named e = moved m old other unseen e (same old named e)

  pub collect_ind {ℓ} :
      (P : State R → Type ℓ) (res : WorkResult) (s : State R)
      → ((message : String)
          → res.hash ≡ err message
          → P (record s { result = add_error R ("hash " <> res.path <> ": " <> message) s.result }))
      → ((hash : String) (existing : FileRecord)
          → res.hash ≡ ok hash
          → lookup res.path db_files ≡ some existing
          → P (collect_known R hash_of added_now seen_now db_files res hash existing s))
      → ((hash : String)
          → res.hash ≡ ok hash
          → lookup res.path db_files ≡ none
          → P (collect_new R hash_of added_now seen_now db_files res hash s))
      → P (collect R hash_of added_now seen_now db_files res s)
  unfolding collect
  collect_ind P res s failing known new = go res.hash refl
    where
      go_hashed :
          (hash : String) (o : Option FileRecord)
          → res.hash ≡ ok hash
          → lookup res.path db_files ≡ o
          → P (collect_hashed R hash_of added_now seen_now db_files res hash o s)
      go_hashed hash none e absent = new hash e absent
      go_hashed hash (some existing) e present = known hash existing e present

      go :
          (h : Result String)
          → res.hash ≡ h
          → P (collect_result R hash_of added_now seen_now db_files res h s)
      go (err message) e = failing message e
      go (ok hash) e = go_hashed hash (lookup res.path db_files) e refl
