-- ===== src/Scanner/Scrub/Report.antt =====
-- What a scrub reports, as a judgement of each file on its own, and what it does to the records.

use bit_rot_detector.Base.{
  ℕ, suc, ◌+◌, String, ◌<>◌, Bool, true, false, Option, none, some, List, [], ◌∷◌, ◌++◌,
  append_assoc, append-nil, ◌⊎◌, inl, inr, ◌==◌, ◌≡◌, refl, sym, ap, subst, ◌∙◌, arith, length,
  string_eq, if◌then◌else◌,
}
use bit_rot_detector.Base.Moment.{Moment}
use bit_rot_detector.Domain.{Result, ok, err, FileRecord, ScrubResult, Repository}
use bit_rot_detector.Scanner.Sync.{canceled}
use bit_rot_detector.Scanner.Scrub.Verdict.{
  Verdict, intact, rotten, unread, intact_path, rotten_path, unread_message, judge_hash, verdict,
  intact_in, rotten_in, unread_in,
}
use bit_rot_detector.Scanner.Scrub.{
  nothing_scrubbed, add_scrub_error, scrub_one, scrub_loop, scrub_files, scrub_selected,
  compare_hash, validate,
}

module _ {Float : Type 0} (R : Repository Float) (now : String → Moment) where
  -- The updates of the records of some paths, in turn.
  unfoldable pub mark_all : List String → R.State → R.State
  mark_all [] repo = repo
  mark_all (p ∷ paths) repo = mark_all paths (R.update_scrub_status (now p) p repo).1

module _ (missing : String → Bool) (hash_of : String → Result String) {Float : Type 0}
    (R : Repository Float) (now : String → Moment) where
  -- What the loop's body does with a verdict missing hash_of.
  abbrev act : FileRecord → Verdict → ScrubResult × R.State → ScrubResult × R.State
  act r intact (res, repo) = (
    record res { files_validated = res.files_validated + 1 },
    (R.update_scrub_status (now r.abs_path) r.abs_path repo).1,
  )
  act r rotten (res, repo) =
      (record res { files_corrupted = res.files_corrupted ++ (r.abs_path ∷ []) }, repo)
  act r (unread m) (res, repo) = (add_scrub_error m res, repo)

  compare_hash-act :
      (r : FileRecord) (h : Result String) (s : ScrubResult × R.State)
      → compare_hash R missing hash_of now r h s ≡ act r (judge_hash missing hash_of r h) s
  unfolding compare_hash validate judge_hash
  compare_hash-act r (err m) s = refl
  compare_hash-act r (ok hash) s = go (hash == r.hash)
    where
      go :
          (b : Bool)
          → (if b then validate R missing hash_of now r s else (
            record s.0 { files_corrupted = (s.0).files_corrupted ++ (r.abs_path ∷ []) },
            s.1,
          ))
            ≡ act r (if b then intact else rotten) s
      go true = refl
      go false = refl

  scrub_one-act :
      (r : FileRecord) (s : ScrubResult × R.State)
      → scrub_one R missing hash_of now r s ≡ act r (verdict missing hash_of r) s
  unfolding scrub_one verdict
  scrub_one-act r s = go (missing r.abs_path)
    where
      go :
          (b : Bool)
          → (if b
              then (add_scrub_error ("not found: " <> r.abs_path) s.0, s.1)
              else compare_hash R missing hash_of now r (hash_of r.abs_path) s)
            ≡ act r
                (if b
                  then unread ("not found: " <> r.abs_path)
                  else judge_hash missing hash_of r (hash_of r.abs_path))
                s
      go true = refl
      go false = compare_hash-act r (hash_of r.abs_path) s

  -- The result counts and lists what the verdicts on `files` say, after `before`.
  abbrev pub Reports : List FileRecord → ScrubResult → ScrubResult → Type 0
  Reports files before after =
      (after.files_validated ≡ before.files_validated + length (intact_in missing hash_of files))
      × (after.files_corrupted ≡ before.files_corrupted ++ rotten_in missing hash_of files)
      × (after.errors ≡ before.errors ++ unread_in missing hash_of files)

  act-Reports :
      (r : FileRecord) (files : List FileRecord) (s : ScrubResult × R.State) (after : ScrubResult)
      → Reports files (act r (verdict missing hash_of r) s).0 after
      → Reports (r ∷ files) s.0 after
  unfolding intact_in rotten_in unread_in
  act-Reports r files s after = go (verdict missing hash_of r)
    where
      go :
          (v : Verdict)
          → Reports files (act r v s).0 after
          → (after.files_validated
              ≡ (s.0).files_validated
                + length (intact_path r.abs_path v ++ intact_in missing hash_of files))
            × (after.files_corrupted
                ≡ (s.0).files_corrupted
                  ++ (rotten_path r.abs_path v ++ rotten_in missing hash_of files))
            × (after.errors ≡ (s.0).errors ++ (unread_message v ++ unread_in missing hash_of files))
      go intact (counted, listed, failed) = (omega (arith, counted), listed, failed)
      go rotten (counted, listed, failed) =
          (counted, listed ∙ append_assoc (s.0).files_corrupted _ _, failed)
      go (unread m) (counted, listed, failed) =
          (counted, listed, failed ∙ append_assoc (s.0).errors _ _)

  act-mark_all :
      (r : FileRecord) (files : List FileRecord) (s : ScrubResult × R.State)
      → mark_all R now (intact_in missing hash_of files) (act r (verdict missing hash_of r) s).1
        ≡ mark_all R now (intact_in missing hash_of (r ∷ files)) s.1
  unfolding intact_in mark_all
  act-mark_all r files s = go (verdict missing hash_of r)
    where
      go :
          (v : Verdict)
          → mark_all R now (intact_in missing hash_of files) (act r v s).1
            ≡ mark_all R now (intact_path r.abs_path v ++ intact_in missing hash_of files) s.1
      go intact = refl
      go rotten = refl
      go (unread m) = refl

  -- The report on files that are judged one by one.
  abbrev pub report_of : List FileRecord → ScrubResult
  report_of handled = record {
    files_validated = length (intact_in missing hash_of handled);
    files_corrupted = rotten_in missing hash_of handled;
    errors = unread_in missing hash_of handled;
  }

  -- What the loop makes of the files that it comes to.
  abbrev Handled :
      List FileRecord → ScrubResult × R.State → Option String × (ScrubResult × R.State) → Type 0
  Handled files s (e, (res, repo)) =
      (handled : List FileRecord) × (rest : List FileRecord) × (files ≡ handled ++ rest)
      × (((e ≡ none) × (rest ≡ [])) ⊎ (e ≡ some canceled))
      × Reports handled s.0 res
      × (repo ≡ mark_all R now (intact_in missing hash_of handled) s.1)

  scrub_loop-Handled :
      (done : ℕ → Bool) (i : ℕ) (files : List FileRecord) (s : ScrubResult × R.State)
      → Handled files s (scrub_loop R missing hash_of now done i files s)
  unfolding scrub_loop intact_in rotten_in unread_in mark_all
  scrub_loop-Handled done i [] s = (
    [],
    [],
    refl,
    inl (refl, refl),
    (omega arith, sym (append-nil (s.0).files_corrupted), sym (append-nil (s.0).errors)),
    refl,
  )
  scrub_loop-Handled done i (r ∷ files) s =
      go (done i) (scrub_loop-Handled done (suc i) files (scrub_one R missing hash_of now r s))
    where
      e : scrub_one R missing hash_of now r s ≡ act r (verdict missing hash_of r) s
      e = scrub_one-act r s

      next : Option String × (ScrubResult × R.State)
      next =
          scrub_loop R missing hash_of now done (suc i) files (scrub_one R missing hash_of now r s)

      go :
          (b : Bool)
          → Handled files (scrub_one R missing hash_of now r s) next
          → Handled (r ∷ files) s (if b then (some canceled, s) else next)
      go true h = (
        [],
        r ∷ files,
        refl,
        inr refl,
        (omega arith, sym (append-nil (s.0).files_corrupted), sym (append-nil (s.0).errors)),
        refl,
      )
      go false (handled, rest, split, how, reports, repo) = (
        r ∷ handled,
        rest,
        ap (λ l. r ∷ l) split,
        how,
        act-Reports r handled s _ (subst (λ t. Reports handled t.0 (next.1).0) e reports),
        repo
            ∙ ap (λ t. mark_all R now (intact_in missing hash_of handled) t.1) e
            ∙ act-mark_all r handled s,
      )

  -- What a scrub of `files` returns, from the state `repo`.
  abbrev pub Outcome :
      List FileRecord → R.State → Option ScrubResult × Option String × R.State → Type 0
  Outcome files repo (out, e, repo') =
      (handled : List FileRecord) × (rest : List FileRecord) × (files ≡ handled ++ rest)
      × (((e ≡ none) × (rest ≡ [])) ⊎ (e ≡ some canceled))
      × (out ≡ some (report_of handled))
      × (repo' ≡ mark_all R now (intact_in missing hash_of handled) repo)

  report_of-Reports :
      (handled : List FileRecord) (res : ScrubResult)
      → Reports handled nothing_scrubbed res
      → res ≡ report_of handled
  unfolding intact_in rotten_in unread_in
  report_of-Reports handled res (counted, listed, failed) =
      ap (λ v. record res { files_validated = v }) validated
      ∙ ap (λ v. record (report_of handled) { files_corrupted = v; errors = res.errors }) listed
      ∙ ap (λ v. record (report_of handled) { errors = v }) failed
    where
      validated : res.files_validated ≡ length (intact_in missing hash_of handled)
      validated = omega (arith, counted)

  -- `ScrubFiles` goes through the selected files in order, up to the end, or up to the one before
  -- which the context was done, which is then the error. Of the files it came to it lists as
  -- corrupted those, and only those, that were read and whose hash is not the recorded one; it
  -- counts as validated those whose hash is the recorded one; it lists an error for each of the
  -- others; and it marks exactly the validated ones in the repository.
  pub scrub_files_lem :
      (done : ℕ → Bool) (at : Moment) (percentage : Float) (days : Option ℕ) (repo : R.State)
      (files : List FileRecord)
      → R.get_files_for_scrub at percentage days repo ≡ ok files
      → Outcome files repo (scrub_files R missing hash_of now none done at percentage days repo)
  unfolding scrub_files scrub_selected intact_in rotten_in unread_in
  scrub_files_lem done at percentage days repo files h =
      subst (λ o. Outcome files repo (scrub_selected R missing hash_of now done o repo)) (sym h)
        (let (handled, rest, split, how, reports, marked) =
            scrub_loop-Handled done 0 files (nothing_scrubbed, repo) in
          (handled, rest, split, how, ap some (report_of-Reports handled _ reports), marked))
