-- ===== src/Scanner/Scrub.antt =====
-- `ScrubFiles` of internal/scanner/scanner.go. `done i` says whether the context is done before the
-- `i`-th of the files, `missing` is the test `os.IsNotExist` on the answer of `os.Stat`, `hash_of` is
-- the hasher, and `now` what the clock shows while a file is marked. Progress events and log lines
-- are left out.
pub mod Verdict
pub mod Report
pub mod Rotten
pub mod Rows
pub mod Stable
use bit_rot_detector.Base.{
  ℕ, suc, ◌+◌, String, ◌<>◌, Bool, true, false, Option, none, some, List, [], ◌∷◌, ◌++◌, ◌==◌,
  string_eq, if◌then◌else◌,
}
use bit_rot_detector.Base.Moment.{Moment}
use bit_rot_detector.Domain.{Result, ok, err, FileRecord, ScrubResult, Repository}
use bit_rot_detector.Scanner.Sync.{canceled}

abbrev pub nothing_scrubbed : ScrubResult
nothing_scrubbed = record { files_validated = 0; files_corrupted = []; errors = [] }

abbrev pub add_scrub_error : String → ScrubResult → ScrubResult
add_scrub_error message r = record r { errors = r.errors ++ (message ∷ []) }

module _ {Float : Type 0} (R : Repository Float) (missing : String → Bool)
    (hash_of : String → Result String) (now : String → Moment) where
  -- The hash is the stored one. An error of `UpdateScrubStatus` is only logged.
  validate : FileRecord → ScrubResult × R.State → ScrubResult × R.State
  validate r (res, repo) = (
    record res { files_validated = res.files_validated + 1 },
    (R.update_scrub_status (now r.abs_path) r.abs_path repo).1,
  )

  compare_hash : FileRecord → Result String → ScrubResult × R.State → ScrubResult × R.State
  unfolding validate
  compare_hash r (err message) (res, repo) =
      (add_scrub_error ("hash " <> r.abs_path <> ": " <> message) res, repo)
  compare_hash r (ok hash) (res, repo) =
      if hash == r.hash
      then validate r (res, repo)
      else (record res { files_corrupted = res.files_corrupted ++ (r.abs_path ∷ []) }, repo)

  -- The body of the loop, for a context that is not done.
  pub scrub_one : FileRecord → ScrubResult × R.State → ScrubResult × R.State
  unfolding compare_hash
  scrub_one r (res, repo) =
      if missing r.abs_path
      then (add_scrub_error ("not found: " <> r.abs_path) res, repo)
      else compare_hash r (hash_of r.abs_path) (res, repo)

  -- The loop: what is returned, and the error.
  pub scrub_loop :
      (ℕ → Bool)
      → ℕ
      → List FileRecord
      → ScrubResult × R.State
      → Option String × (ScrubResult × R.State)
  unfolding scrub_one
  scrub_loop done i [] s = (none, s)
  scrub_loop done i (r ∷ files) s =
      let rest = scrub_loop done (suc i) files (scrub_one r s) in
      if done i then (some canceled, s) else rest

  scrub_selected :
      (ℕ → Bool) → Result (List FileRecord) → R.State → Option ScrubResult × Option String × R.State
  unfolding scrub_loop
  scrub_selected done (err e) repo = (none, some ("get files for scrub: " <> e), repo)
  scrub_selected done (ok files) repo =
      let (e, (res, repo')) = scrub_loop done 0 files (nothing_scrubbed, repo) in
      (some res, e, repo')

  -- The whole operation, with the error of the context at its start, and the time at which the files
  -- are selected.
  unfoldable pub scrub_files :
      Option String
      → (ℕ → Bool)
      → Moment
      → Float
      → Option ℕ
      → R.State
      → Option ScrubResult × Option String × R.State
  unfolding scrub_selected
  scrub_files (some e) done at percentage min_age_days repo = (none, some e, repo)
  scrub_files none done at percentage min_age_days repo =
      scrub_selected done (R.get_files_for_scrub at percentage min_age_days repo) repo
