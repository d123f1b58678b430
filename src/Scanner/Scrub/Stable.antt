-- ===== src/Scanner/Scrub/Stable.antt =====
-- What the updates of the repository keep, all of `ScrubFiles` of internal/scanner/scanner.go keeps.
use bit_rot_detector.Base.{
  ℕ, suc, String, Bool, Option, none, some, List, [], ◌∷◌, ◌==◌, string_eq, if_ind,
}
use bit_rot_detector.Base.Moment.{Moment}
use bit_rot_detector.Domain.{Result, ok, err, FileRecord, ScrubResult, Repository}
use bit_rot_detector.Domain.Lawful.{Preserves}
use bit_rot_detector.Scanner.Scrub.{
  nothing_scrubbed, compare_hash, validate, scrub_one, scrub_loop, scrub_selected, scrub_files,
}

module _ {Float : Type 0} (R : Repository Float) (P : R.State → Type 0) (keeps : Preserves R P)
    (missing : String → Bool) (hash_of : String → Result String) (now : String → Moment) where
  compare_hash-kept :
      (r : FileRecord) (h : Result String) (s : ScrubResult × R.State)
      → P s.1
      → P (compare_hash R missing hash_of now r h s).1
  unfolding compare_hash validate
  compare_hash-kept r (err m) s k = k
  compare_hash-kept r (ok hash) s k =
      if_ind (λ (t : ScrubResult × R.State). P t.1) (hash == r.hash) (keeps.by_update _ _ _ k) k

  scrub_one-kept :
      (r : FileRecord) (s : ScrubResult × R.State)
      → P s.1
      → P (scrub_one R missing hash_of now r s).1
  unfolding scrub_one
  scrub_one-kept r s k =
      if_ind (λ (t : ScrubResult × R.State). P t.1) (missing r.abs_path) k
        (compare_hash-kept r (hash_of r.abs_path) s k)

  scrub_loop-kept :
      (done : ℕ → Bool) (i : ℕ) (files : List FileRecord) (s : ScrubResult × R.State)
      → P s.1
      → P (scrub_loop R missing hash_of now done i files s).1.1
  unfolding scrub_loop
  scrub_loop-kept done i [] s k = k
  scrub_loop-kept done i (r ∷ files) s k =
      if_ind (λ (t : Option String × (ScrubResult × R.State)). P (t.1).1) (done i) k
        (scrub_loop-kept done (suc i) files (scrub_one R missing hash_of now r s)
          (scrub_one-kept r s k))

  scrub_selected-kept :
      (done : ℕ → Bool) (o : Result (List FileRecord)) (repo : R.State)
      → P repo
      → P (scrub_selected R missing hash_of now done o repo).2
  unfolding scrub_selected
  scrub_selected-kept done (err e) repo k = k
  scrub_selected-kept done (ok files) repo k =
      scrub_loop-kept done 0 files (nothing_scrubbed, repo) k

  pub scrub_files-kept :
      (ctx : Option String) (done : ℕ → Bool) (at : Moment) (percentage : Float) (days : Option ℕ)
      (repo : R.State)
      → P repo
      → P (scrub_files R missing hash_of now ctx done at percentage days repo).2
  unfolding scrub_files
  scrub_files-kept (some e) done at percentage days repo k = k
  scrub_files-kept none done at percentage days repo k =
      scrub_selected-kept done (R.get_files_for_scrub at percentage days repo) repo k
