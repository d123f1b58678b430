-- ===== src/Api/Queries/Compare.antt =====
-- What `handleCompare` of internal/api/server.go finds.
use bit_rot_detector.Api.Queries.Picked.{Missing, Sound, pick_paths-none, pick_paths-Sound}
use bit_rot_detector.Base.{
  ◌⊎◌, inl, inr, String, Bool, true, false, ◌||◌, Option, none, some, List, [], ◌∷◌, ◌++◌, ◌==◌,
  ◌≡◌, refl, sym, ap, subst, arith, string_eq, contains, All, if◌then◌else◌,
}
use bit_rot_detector.Base.Int.{ -ℤ_parts, +ℤ_parts, eq_of_parts, ◌+ℤ◌, ℤ, pos, int_eq}
use bit_rot_detector.Domain.{Result, ok, RunRecord}
use bit_rot_detector.Storage.History.{get_runs_by_ids}
use bit_rot_detector.Api.Queries.{
  ℕ, ◌-ℤ◌, Databases, Answer, found, failed, RunDelta, delta, numbers, Pair, pick_paths, compared,
  handle_compare,
}

-- The run is one of the list.
abbrev pub Listed : RunRecord → List RunRecord → Type 0
Listed r runs =
    (before : List RunRecord) × (after : List RunRecord) × (runs ≡ before ++ (r ∷ after))

All-Listed {ℓ} :
    (P : RunRecord → Type ℓ) (runs : List RunRecord)
    → ((r : RunRecord) → Listed r runs → P r)
    → All P runs
All-Listed P [] f = tt
All-Listed P (x ∷ xs) f = (
  f x ([], xs, refl),
  All-Listed P xs (λ r (before, after, e). f r (x ∷ before, after, ap (λ l. x ∷ l) e)),
)

-- The run has the number and came from the query of one of the paths.
abbrev pub Source :
    (query : String → Result (List RunRecord)) → List String → ℤ → RunRecord → Type 0
Source query paths id r =
    (pos r.id ≡ id)
    × ((p : String) × (runs : List RunRecord) × (contains paths p ≡ true)
        × (query p ≡ ok runs)
        × Listed r runs)

-- The numbers of `d` are those by which the second run exceeds the first.
pub record Exceeds (a b : RunRecord) (d : RunDelta) : Type 0 where
  pub added : pos a.files_added +ℤ d.files_added ≡ pos b.files_added
  pub modified : pos a.files_modified +ℤ d.files_modified ≡ pos b.files_modified
  pub removed : pos a.files_removed +ℤ d.files_removed ≡ pos b.files_removed
  pub corrupted : pos a.files_corrupted +ℤ d.files_corrupted ≡ pos b.files_corrupted
  pub took : pos a.duration_ms +ℤ d.duration_ms ≡ pos b.duration_ms

+ℤ-difference : (a b : ℕ) → pos a +ℤ (pos b -ℤ pos a) ≡ pos b
+ℤ-difference a b =
    eq_of_parts _ _ (omega (arith, +ℤ_parts (pos a) (pos b -ℤ pos a), -ℤ_parts (pos b) (pos a)))

delta-Exceeds : (a b : RunRecord) → Exceeds a b (delta a b)
unfolding delta
delta-Exceeds a b = record {
  added = +ℤ-difference a.files_added b.files_added;
  modified = +ℤ-difference a.files_modified b.files_modified;
  removed = +ℤ-difference a.files_removed b.files_removed;
  corrupted = +ℤ-difference a.files_corrupted b.files_corrupted;
  took = +ℤ-difference a.duration_ms b.duration_ms;
}

module _ (dbs : Databases) (parse_int : String → Option ℤ) (paths : List String) where
  -- The query of one path in `handleCompare`.
  abbrev pub runs_of : ℤ → ℤ → String → Result (List RunRecord)
  runs_of m n p = get_runs_by_ids dbs.engine (dbs.opening p) (dbs.prod p) (numbers (m ∷ n ∷ []))

  -- What the answer to two parameters says of the runs.
  abbrev pub Compared : String → String → Answer (RunRecord × RunRecord × RunDelta) → Type 0
  Compared a b (found (x, y, d)) =
      (m : ℤ) × (n : ℤ) × (parse_int a ≡ some m)
      × (parse_int b ≡ some n)
      × Source (runs_of m n) paths m x
      × Source (runs_of m n) paths n y
      × Exceeds x y d
  Compared a b (failed code message) =
      ((code ≡ 400) × ((a ≡ "") ⊎ (b ≡ "") ⊎ (parse_int a ≡ none) ⊎ (parse_int b ≡ none)))
      ⊎ ((code ≡ 404)
          × (m : ℤ) × (n : ℤ) × (parse_int a ≡ some m)
          × (parse_int b ≡ some n)
          × (Missing m (runs_of m n) paths ⊎ Missing n (runs_of m n) paths))

  compared_lem :
      (a b : String) (m n : ℤ)
      → parse_int a ≡ some m
      → parse_int b ≡ some n
      → Compared a b (compared (pick_paths m n (runs_of m n) paths (none, none)))
  compared_lem a b m n ea eb =
      let (missing_left, missing_right) = pick_paths-none m n (runs_of m n) paths none none in
      let (sound_left, sound_right) =
        pick_paths-Sound P m n (runs_of m n) paths none none
          (λ p runs here k. All-Listed P runs (λ r listed. (p, runs, here, k, listed))) tt tt in
      go (pick_paths m n (runs_of m n) paths (none, none)) sound_left sound_right
        (λ h. (missing_left h).1) (λ h. (missing_right h).1)
    where
      P : RunRecord → Type 0
      P r =
          (p : String) × (runs : List RunRecord) × (contains paths p ≡ true)
          × (runs_of m n p ≡ ok runs)
          × Listed r runs

      go :
          (pair : Pair)
          → Sound P m pair.0
          → Sound P n pair.1
          → (pair.0 ≡ none → Missing m (runs_of m n) paths)
          → (pair.1 ≡ none → Missing n (runs_of m n) paths)
          → Compared a b (compared pair)
      go (none, v) sx sy fx fy = inr (refl, m, n, ea, eb, inl (fx refl))
      go (some x, none) sx sy fx fy = inr (refl, m, n, ea, eb, inr (fy refl))
      go (some x, some y) sx sy fx fy = (m, n, ea, eb, sx, sy, delta-Exceeds x y)

  -- If `handleCompare` answers with two runs and a difference, both parameters are numbers, the runs have
  -- these numbers, each was returned by the query of one of the paths, and the numbers of the difference
  -- are those by which the second run exceeds the first. If it answers with 400, a parameter is missing or
  -- no number; if with 404, they are numbers, and one of the two runs is in the answer of no path. It
  -- answers with no other error.
  pub handle_compare_lem : (a b : String) → Compared a b (handle_compare dbs parse_int a b paths)
  unfolding handle_compare
  handle_compare_lem a b = given (string_eq.dec a "") (string_eq.dec b "")
    where
      parsed :
          (u v : Option ℤ)
          → parse_int a ≡ u
          → parse_int b ≡ v
          → Compared a b (elim u as (λ _. Answer (RunRecord × RunRecord × RunDelta)) [
            | none ↦ failed 400 "invalid a"
            | some m ↦ elim v as (λ _. Answer (RunRecord × RunRecord × RunDelta)) [
              | none ↦ failed 400 "invalid b"
              | some n ↦ compared (pick_paths m n (runs_of m n) paths (none, none))
            ]
          ])
      parsed none v ea eb = inl (refl, inr (inr (inl ea)))
      parsed (some m) none ea eb = inl (refl, inr (inr (inr eb)))
      parsed (some m) (some n) ea eb = compared_lem a b m n ea eb

      result : Bool → Answer (RunRecord × RunRecord × RunDelta)
      result c =
          if c
          then failed 400 "missing a or b query params"
          else elim (parse_int a) as (λ _. Answer (RunRecord × RunRecord × RunDelta)) [
            | none ↦ failed 400 "invalid a"
            | some m ↦ elim (parse_int b) as (λ _. Answer (RunRecord × RunRecord × RunDelta)) [
              | none ↦ failed 400 "invalid b"
              | some n ↦ compared (pick_paths m n (runs_of m n) paths (none, none))
            ]
          ]

      given : Dec (a ≡ "") → Dec (b ≡ "") → Compared a b (result (a == "" || b == ""))
      given (yes p) q =
          let e : (a == "" || b == "") ≡ true = ground (arith, p) in
          subst (λ c. Compared a b (result c)) (sym e) (inl (refl, inl p))
      given (no p) (yes q) =
          let e : (a == "" || b == "") ≡ true = ground (arith, p, q) in
          subst (λ c. Compared a b (result c)) (sym e) (inl (refl, inr (inl q)))
      given (no p) (no q) =
          let e : (a == "" || b == "") ≡ false = ground (arith, p, q) in
          subst (λ c. Compared a b (result c)) (sym e)
            (parsed (parse_int a) (parse_int b) refl refl)
