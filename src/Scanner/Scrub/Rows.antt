-- ===== src/Scanner/Scrub/Rows.antt =====
-- What `ScrubFiles` of internal/scanner/scanner.go does to the records of a lawful repository.
use mathlib.Core.Option
use bit_rot_detector.Base.{
  ℕ, String, Bool, true, false, Option, none, some, List, [], ◌∷◌, ◌++◌, append_assoc, ◌⊎◌, inl,
  inr, ◌≡◌, refl, sym, ap, ◌∙◌, contains, arith, string_eq, if◌then◌else◌,
}
use bit_rot_detector.Base.Moment.{Moment}
use bit_rot_detector.Domain.{Result, ok, err, FileRecord, Repository, scrubbed}
use bit_rot_detector.Domain.Lawful.{IsLawful}
use bit_rot_detector.Scanner.Scrub.{scrub_files, scrub_selected}
use bit_rot_detector.Scanner.Scrub.Verdict.{verdict, intact_path, intact_in}
use bit_rot_detector.Scanner.Scrub.Report.{mark_all, scrub_files_lem}

hash-scrubbed :
    (now : Moment) (b : Bool) (o : Option FileRecord)
    → Option.map (λ r. r.hash) (if b then Option.map (scrubbed now) o else o)
      ≡ Option.map (λ r. r.hash) o
hash-scrubbed now true none = refl
hash-scrubbed now true (some r) = refl
hash-scrubbed now false o = refl

absent_before :
    (xs ys : List String) (p : String) → contains (xs ++ ys) p ≡ false → contains xs p ≡ false
absent_before [] ys p h = refl
absent_before (x ∷ xs) ys p h = ground (arith, absent_before xs ys p)

intact_in-append :
    (missing : String → Bool) (hash_of : String → Result String) (xs ys : List FileRecord)
    → intact_in missing hash_of (xs ++ ys)
      ≡ intact_in missing hash_of xs ++ intact_in missing hash_of ys
unfolding intact_in
intact_in-append missing hash_of [] ys = refl
intact_in-append missing hash_of (x ∷ xs) ys =
    ap (λ l. intact_path x.abs_path (verdict missing hash_of x) ++ l)
      (intact_in-append missing hash_of xs ys)
    ∙ sym (append_assoc (intact_path x.abs_path (verdict missing hash_of x)) _ _)

module _ {Float : Type 0} (R : Repository Float) (now : String → Moment) (laws : IsLawful R) where
  open laws use {row, row-update}

  row-mark_all :
      (paths : List String) (repo : R.State) (p : String)
      → contains paths p ≡ false
      → row (mark_all R now paths repo) p ≡ row repo p
  unfolding mark_all
  row-mark_all [] repo p h = refl
  row-mark_all (k ∷ paths) repo p h =
      row-mark_all paths (R.update_scrub_status (now k) k repo).1 p (ground arith)
      ∙ ground (arith, row-update (now k) k repo p)

  hash-mark_all :
      (paths : List String) (repo : R.State) (p : String)
      → Option.map (λ r. r.hash) (row (mark_all R now paths repo) p)
        ≡ Option.map (λ r. r.hash) (row repo p)
  unfolding mark_all
  hash-mark_all [] repo p = refl
  hash-mark_all (k ∷ paths) repo p =
      hash-mark_all paths (R.update_scrub_status (now k) k repo).1 p
      ∙ ap (Option.map (λ r. r.hash)) (row-update (now k) k repo p)
      ∙ hash-scrubbed (now k) _ (row repo p)

  -- Scrubbing never replaces a recorded hash, whatever the files hold: a file that was found corrupted
  -- stays so in the next scrub. The record of a path that is not among the intact files selected is not
  -- touched at all.
  pub scrub_files_keeps :
      (missing : String → Bool) (hash_of : String → Result String) (done : ℕ → Bool) (at : Moment)
      (percentage : Float) (days : Option ℕ) (repo : R.State) (files : List FileRecord) (p : String)
      → R.get_files_for_scrub at percentage days repo ≡ ok files
      → let (_, _, repo') = scrub_files R missing hash_of now none done at percentage days repo in
        (Option.map (λ r. r.hash) (row repo' p) ≡ Option.map (λ r. r.hash) (row repo p))
        × ((contains (intact_in missing hash_of files) p ≡ true) ⊎ (row repo' p ≡ row repo p))
  scrub_files_keeps missing hash_of done at percentage days repo files p h =
      let (handled, rest, split, _, _, marked) =
        scrub_files_lem missing hash_of R now done at percentage days repo files h in
      (
        ap (λ t. Option.map (λ r. r.hash) (row t p)) marked ∙ hash-mark_all _ repo p,
        go handled rest split (contains (intact_in missing hash_of files) p) refl marked,
      )
    where
      go :
          (handled rest : List FileRecord)
          → files ≡ handled ++ rest
          → (b : Bool) → contains (intact_in missing hash_of files) p ≡ b
          → {t : R.State} → t ≡ mark_all R now (intact_in missing hash_of handled) repo
          → (b ≡ true) ⊎ (row t p ≡ row repo p)
      go handled rest split true e marked = inl refl
      go handled rest split false e marked = inr (
          ap (λ t. row t p) marked
          ∙ row-mark_all _ repo p (
              absent_before _ (intact_in missing hash_of rest) p (
                ap (λ l. contains l p) (sym (intact_in-append missing hash_of handled rest))
                ∙ ap (λ l. contains (intact_in missing hash_of l) p) (sym split)
                ∙ e)))

  -- A scrub that ends without an error leaves every recorded hash.
  pub scrub_files-hash :
      (missing : String → Bool) (hash_of : String → Result String) (ctx : Option String)
      (done : ℕ → Bool) (at : Moment) (percentage : Float) (days : Option ℕ) (repo : R.State)
      (p : String)
      → let out = scrub_files R missing hash_of now ctx done at percentage days repo in
        out.1 ≡ none
        → Option.map (λ r. r.hash) (row out.2 p) ≡ Option.map (λ r. r.hash) (row repo p)
  unfolding scrub_files scrub_selected
  scrub_files-hash missing hash_of (some e) done at percentage days repo p h =
      absurd (ground (arith, h))
  scrub_files-hash missing hash_of none done at percentage days repo p h =
      go (R.get_files_for_scrub at percentage days repo) refl
    where
      go :
          (o : Result (List FileRecord))
          → R.get_files_for_scrub at percentage days repo ≡ o
          → Option.map
              (λ r. r.hash)
              (row (scrub_files R missing hash_of now none done at percentage days repo).2 p)
            ≡ Option.map (λ r. r.hash) (row repo p)
      go (ok files) selected =
          (scrub_files_keeps missing hash_of done at percentage days repo files p selected).0
      go (err e) failed = absurd (
          ground (
            arith,
            sym (ap (λ o. (scrub_selected R missing hash_of now done o repo).1) failed) ∙ h,
          ))
