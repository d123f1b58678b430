-- ===== src/Coordinator/Collect.antt =====
-- The collection of the errors of all drives in internal/coordinator/coordinator.go.
use bit_rot_detector.Base.{
  String, ◌<>◌, Option, none, some, List, [], ◌∷◌, ◌≡◌, ◌↔◌, refl, arith, All,
}
use bit_rot_detector.Coordinator.{DriveResult, collect_errors}

no_error :
    (results : List DriveResult) → collect_errors results ≡ [] → All (λ r. r.error ≡ none) results
unfolding collect_errors
no_error [] h = tt
no_error (r ∷ results) h = go r.error refl h (no_error results)
  where
    go :
        (o : Option String)
        → r.error ≡ o
        → (elim o as (λ _. List String) [
          | none ↦ collect_errors results
          | some e ↦ ("[" <> r.drive <> "] " <> e) ∷ collect_errors results
        ])
          ≡ []
        → (collect_errors results ≡ [] → All (λ r. r.error ≡ none) results)
        → (r.error ≡ none) × All (λ r. r.error ≡ none) results
    go none e h ih = (e, ih h)
    go (some m) e h ih = absurd (ground arith)

collect_errors-nil :
    (results : List DriveResult) → All (λ r. r.error ≡ none) results → collect_errors results ≡ []
unfolding collect_errors
collect_errors-nil [] h = refl
collect_errors-nil (r ∷ results) (clean, rest) = ground (arith, collect_errors-nil results rest)

-- No error is collected exactly if no drive failed.
pub collect_errors_lem :
    (results : List DriveResult) → (collect_errors results ≡ []) ↔ All (λ r. r.error ≡ none) results
collect_errors_lem results = (no_error results, collect_errors-nil results)
