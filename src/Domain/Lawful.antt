-- ===== src/Domain/Lawful.antt =====
-- What the scanner relies on: a repository behaves as a table of records by path. A method that
-- reports an error has changed nothing.
use mathlib.Core.Option
use bit_rot_detector.Base.{
  String, Bool, true, false, ◌&&◌, Option, none, some, ◌≡◌, ◌==◌, string_eq, if◌then◌else◌,
}
use bit_rot_detector.Base.Moment.{Moment}
use bit_rot_detector.Base.Dict.{Dict, lookup, NodupKeys}
use bit_rot_detector.Domain.{ok, FileRecord, Repository, stored, scrubbed}

-- Whether a method returned a nil error.
abbrev pub succeeded : Option String → Bool
succeeded none = true
succeeded (some e) = false

pub record IsLawful {Float : Type 0} (R : Repository Float) : Type 0 where
  -- The record under a path.
  pub row : R.State → String → Option FileRecord
  pub get_all-row :
      (s : R.State) (d : Dict FileRecord) (p : String)
      → R.get_all_files s ≡ ok d
      → lookup p d ≡ row s p
  pub get_all-NodupKeys :
      (s : R.State) (d : Dict FileRecord) → R.get_all_files s ≡ ok d → NodupKeys d
  pub row-upsert :
      (now : Moment) (r : FileRecord) (s : R.State) (p : String)
      → row (R.upsert_file now r s).1 p ≡ (
          if succeeded (R.upsert_file now r s).0 && p == r.abs_path
          then some (stored now r)
          else row s p)
  pub row-delete :
      (k : String) (s : R.State) (p : String)
      → row (R.delete_file k s).1 p
        ≡ (if succeeded (R.delete_file k s).0 && p == k then none else row s p)
  pub row-update :
      (now : Moment) (k : String) (s : R.State) (p : String)
      → row (R.update_scrub_status now k s).1 p ≡ (
          if succeeded (R.update_scrub_status now k s).0 && p == k
          then Option.map (scrubbed now) (row s p)
          else row s p)

-- No write fails, in any state that satisfies the invariant `Good`.
pub record IsReliable {Float : Type 0} (R : Repository Float) (Good : R.State → Type 0)
    : Type 0 where
  pub upsert_succeeds :
      (now : Moment) (r : FileRecord) (s : R.State)
      → Good s
      → ((R.upsert_file now r s).0 ≡ none) × Good (R.upsert_file now r s).1
  pub delete_succeeds :
      (k : String) (s : R.State)
      → Good s
      → ((R.delete_file k s).0 ≡ none) × Good (R.delete_file k s).1

-- What the methods that write keep, whether or not they succeed.
pub record Preserves {Float : Type 0} (R : Repository Float) (P : R.State → Type 0) : Type 0 where
  pub by_upsert : (now : Moment) (r : FileRecord) (s : R.State) → P s → P (R.upsert_file now r s).1
  pub by_delete : (k : String) (s : R.State) → P s → P (R.delete_file k s).1
  pub by_update :
      (now : Moment) (k : String) (s : R.State) → P s → P (R.update_scrub_status now k s).1
