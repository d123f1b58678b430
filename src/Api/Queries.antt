-- ===== src/Api/Queries.antt =====
-- The queries of internal/api/server.go over the run histories of all drives. `Databases` is what the
-- queries of internal/storage/repository.go meet at each path; `parse_int` is `strconv.ParseInt`. A
-- drive whose query fails is left out of an answer. The JSON and CSV encodings are left out.
pub mod Picked
pub mod Compare
pub mod Export
pub mod Tests
use bit_rot_detector.Base.{
  ℕ, String, Bool, true, false, ◌&&◌, ◌||◌, Option, none, some, List, [], ◌∷◌, ◌++◌, ◌==◌,
  string_eq, is_none, ltb, if◌then◌else◌,
}
use bit_rot_detector.Base.Int.{ℤ, pos, negsuc, int_eq, ◌-ℤ◌}
use bit_rot_detector.Base.Moment.{Moment}
use bit_rot_detector.Domain.{Result, ok, err, RunRecord}
use bit_rot_detector.Storage.Table.{Database, Engine}
use bit_rot_detector.Storage.History.{get_run_history, get_corruption_history, get_runs_by_ids}

pub record Databases : Type 0 where
  pub engine : Engine
  -- An error of opening the production database at a path, and the database, if it is there.
  pub opening : String → Option String
  pub prod : String → Option Database

-- A response with a value, or with an error message.
pub data Answer {ℓ} (A : Type ℓ) : Type ℓ where
  found : A → Answer A
  failed : ℕ → String → Answer A

-- The runs of all paths, one after the other.
unfoldable pub gather : (String → Result (List RunRecord)) → List String → List RunRecord
gather query [] = []
gather query (p ∷ paths) =
    let rest = gather query paths in elim (query p) [ err e ↦ rest | ok runs ↦ runs ++ rest ]

pub record CorruptionEvent : Type 0 where
  pub drive_id : String
  pub drive_name : String
  pub started_at : Moment
  pub files_corrupted : ℕ
  pub run_id : ℕ

corruption_events : List RunRecord → List CorruptionEvent
corruption_events [] = []
corruption_events (r ∷ runs) =
    record {
      drive_id = r.drive_id;
      drive_name = r.drive_name;
      started_at = r.started_at;
      files_corrupted = r.files_corrupted;
      run_id = r.id;
    }
    ∷ corruption_events runs

-- `domain.RunDelta`
pub record RunDelta : Type 0 where
  pub files_added : ℤ
  pub files_modified : ℤ
  pub files_removed : ℤ
  pub files_corrupted : ℤ
  pub duration_ms : ℤ

pub delta : RunRecord → RunRecord → RunDelta
delta a b = record {
  files_added = pos b.files_added -ℤ pos a.files_added;
  files_modified = pos b.files_modified -ℤ pos a.files_modified;
  files_removed = pos b.files_removed -ℤ pos a.files_removed;
  files_corrupted = pos b.files_corrupted -ℤ pos a.files_corrupted;
  duration_ms = pos b.duration_ms -ℤ pos a.duration_ms;
}

-- No run has a negative number.
unfoldable pub numbers : List ℤ → List ℕ
numbers [] = []
numbers (pos n ∷ ids) = n ∷ numbers ids
numbers (negsuc n ∷ ids) = numbers ids

abbrev pub Pair : Type 0
Pair = Option RunRecord × Option RunRecord

-- A run for one of the two, if it has its number and there is none yet.
unfoldable pub keep : ℤ → RunRecord → Option RunRecord → Option RunRecord
keep id r old = if pos r.id == id && is_none old then some r else old

-- The inner loop of `handleCompare`.
unfoldable pub pick : (a b : ℤ) → List RunRecord → Pair → Pair
pick a b [] pair = pair
pick a b (r ∷ runs) (x, y) = pick a b runs (keep a r x, keep b r y)

-- The loop over the paths, which stops when both runs are found.
unfoldable pub pick_paths :
    (a b : ℤ) → (String → Result (List RunRecord)) → List String → Pair → Pair
pick_paths a b query [] pair = pair
pick_paths a b query (p ∷ paths) (x, y) =
    let next = elim (query p) as (λ _. Pair) [ err e ↦ (x, y) | ok runs ↦ pick a b runs (x, y) ] in
    let rest = pick_paths a b query paths next in
    if is_none next.0 || is_none next.1 then rest else next

abbrev pub compared : Pair → Answer (RunRecord × RunRecord × RunDelta)
compared (none, y) = failed 404 "one or both runs not found"
compared (some x, none) = failed 404 "one or both runs not found"
compared (some x, some y) = found (x, y, delta x y)

module _ (dbs : Databases) where
  open dbs use {engine, opening, prod}

  -- `handleHistory`; `limit` is what `Atoi` makes of the parameter, if there is one.
  pub handle_history : Option (ℤ × Bool) → List String → List RunRecord
  handle_history limit paths =
      let n : ℕ = elim limit as (λ _. ℕ) [
        | none ↦ 50
        | some (pos k, false) ↦ if ltb 0 k then k else 50
        | some (pos k, true) ↦ 50
        | some (negsuc k, fails) ↦ 50
      ] in
      gather (λ p. get_run_history engine (opening p) (prod p) n) paths

  -- The runs that `handleExport` writes.
  unfoldable pub exported_runs : List String → List RunRecord
  exported_runs paths = gather (λ p. get_run_history engine (opening p) (prod p) 10_000) paths

  -- `handleCorruption`
  pub handle_corruption : List String → List CorruptionEvent
  unfolding corruption_events
  handle_corruption paths =
      corruption_events (gather (λ p. get_corruption_history engine (opening p) (prod p) 100) paths)

  -- `handleCompare`
  unfoldable pub handle_compare :
      (parse_int : String → Option ℤ)
      → (a b : String) → List String
      → Answer (RunRecord × RunRecord × RunDelta)
  handle_compare parse_int a b paths =
      if a == "" || b == "" then failed 400 "missing a or b query params" else elim (parse_int a) [
        | none ↦ failed 400 "invalid a"
        | some x ↦ elim (parse_int b) [
          | none ↦ failed 400 "invalid b"
          | some y ↦ compared (
              pick_paths x y
                (λ p. get_runs_by_ids engine (opening p) (prod p) (numbers (x ∷ y ∷ []))) paths
                (none, none))
        ]
      ]
