-- ===== src/Scanner/Scrub/Rotten.antt =====
-- A scrub of internal/scanner/scanner.go that is not cancelled reports on all selected files.
use bit_rot_detector.Base.{
  ℕ, suc, String, Bool, false, Option, none, some, List, [], ◌∷◌, ◌++◌, ◌==◌, ◌≡◌, inl, inr, refl,
  sym, ap, ◌∙◌, subst, arith, string_eq, append_assoc, append-nil,
}
use bit_rot_detector.Base.Moment.{Moment}
use bit_rot_detector.Domain.{Result, ok, FileRecord, ScrubResult, Repository}
use bit_rot_detector.Scanner.Scrub.{
  nothing_scrubbed, scrub_loop, scrub_one, scrub_files, scrub_selected,
}
use bit_rot_detector.Scanner.Scrub.Verdict.{rotten, rotten_path, judge_hash, verdict, rotten_in}
use bit_rot_detector.Scanner.Scrub.Report.{report_of, scrub_files_lem}

module _ {Float : Type 0} (R : Repository Float) (missing : String → Bool)
    (hash_of : String → Result String) (now : String → Moment) where
  scrub_loop-whole :
      (done : ℕ → Bool) (i : ℕ) (files : List FileRecord) (s : ScrubResult × R.State)
      → ((k : ℕ) → done k ≡ false)
      → (scrub_loop R missing hash_of now done i files s).0 ≡ none
  unfolding scrub_loop
  scrub_loop-whole done i [] s h = refl
  scrub_loop-whole done i (r ∷ files) s h =
      rw (h i) (scrub_loop-whole done (suc i) files (scrub_one R missing hash_of now r s) h)

  scrub_files-no_error :
      (done : ℕ → Bool) (at : Moment) (percentage : Float) (days : Option ℕ) (repo : R.State)
      (files : List FileRecord)
      → ((k : ℕ) → done k ≡ false)
      → R.get_files_for_scrub at percentage days repo ≡ ok files
      → (scrub_files R missing hash_of now none done at percentage days repo).1 ≡ none
  unfolding scrub_files scrub_selected
  scrub_files-no_error done at percentage days repo files h selected =
      subst (λ o. (scrub_selected R missing hash_of now done o repo).1 ≡ none) (sym selected)
        (scrub_loop-whole done 0 files (nothing_scrubbed, repo) h)

  -- Without a cancellation, the error is nil and the report is on all selected files.
  pub scrub_files-whole :
      (done : ℕ → Bool) (at : Moment) (percentage : Float) (days : Option ℕ) (repo : R.State)
      (files : List FileRecord)
      → ((k : ℕ) → done k ≡ false)
      → R.get_files_for_scrub at percentage days repo ≡ ok files
      → let out = scrub_files R missing hash_of now none done at percentage days repo in
        (out.0 ≡ some (report_of missing hash_of R now files)) × (out.1 ≡ none)
  scrub_files-whole done at percentage days repo files h selected =
      let whole = scrub_files-no_error done at percentage days repo files h selected in
      let (handled, rest, split, how, out, _) =
        scrub_files_lem missing hash_of R now done at percentage days repo files selected in
      let all_handled : handled ≡ files = elim how [
        | inl (_, nothing_left) ↦
            sym (append-nil handled) ∙ ap (λ l. handled ++ l) (sym nothing_left) ∙ sym split
        | inr cancelled ↦ absurd (ground (arith, cancelled, whole))
      ] in
      (out ∙ ap (λ l. some (report_of missing hash_of R now l)) all_handled, whole)

module _ (missing : String → Bool) (hash_of : String → Result String) where
  -- The file can be read, and its hash is not the recorded one.
  abbrev pub IsRotten : FileRecord → Type 0
  IsRotten r =
      (missing r.abs_path ≡ false)
      × ((hash : String) × (hash_of r.abs_path ≡ ok hash) × ((hash == r.hash) ≡ false))

  verdict-IsRotten : (r : FileRecord) → IsRotten r → verdict missing hash_of r ≡ rotten
  unfolding verdict judge_hash
  verdict-IsRotten r (there, (hash, read, differs)) = rw (there, read, differs) refl

  -- The path of such a file among the selected ones is in the list.
  pub rotten_in-IsRotten :
      (before after : List FileRecord) (r : FileRecord)
      → IsRotten r
      → rotten_in missing hash_of (before ++ (r ∷ after))
        ≡ rotten_in missing hash_of before ++ (r.abs_path ∷ rotten_in missing hash_of after)
  unfolding rotten_in
  rotten_in-IsRotten [] after r h =
      ap (λ v. rotten_path r.abs_path v ++ rotten_in missing hash_of after) (verdict-IsRotten r h)
  rotten_in-IsRotten (x ∷ before) after r h =
      ap (λ l. rotten_path x.abs_path (verdict missing hash_of x) ++ l)
        (rotten_in-IsRotten before after r h)
      ∙ sym (append_assoc (rotten_path x.abs_path (verdict missing hash_of x)) _ _)
