-- ===== src/Coordinator/Drives/Schedule.antt =====
-- Every run of the drives in internal/coordinator/coordinator.go can go on to its end, with the results
-- of all drives.
use bit_rot_detector.Base.{
  ℕ, suc, ◌≤◌, String, Bool, true, false, some, List, [], ◌∷◌, ◌++◌, ◌≡◌, refl, ap, ◌∙◌, arith, ltb,
  length, map, Bool-cases, if◌then◌else◌, inl, inr,
}
use bit_rot_detector.Coordinator.{DriveResult}
use bit_rot_detector.Coordinator.Drives.{
  Slot, waiting, running, done, Choice, acquire, release, spawn, held, begin, end, change_at, go_on,
  goes_on, results_of, capacity, run_drives,
}
use bit_rot_detector.Coordinator.Drives.Slots.{goes_on-Kept, spawn-Kept, results_of-map}

abbrev shift : Choice → Choice
shift (acquire i) = acquire (suc i)
shift (release i) = release (suc i)

module _ (process : String → DriveResult) (cap : ℕ) where
  goes_on-append :
      (xs ys : List Choice) (slots : List Slot)
      → goes_on process cap (xs ++ ys) slots ≡ goes_on process cap ys (goes_on process cap xs slots)
  unfolding goes_on
  goes_on-append [] ys slots = refl
  goes_on-append (c ∷ xs) ys slots = goes_on-append xs ys (go_on process cap c slots)

  goes_on-nil : (choices : List Choice) → goes_on process cap choices [] ≡ []
  unfolding goes_on go_on change_at held
  goes_on-nil [] = refl
  goes_on-nil (release i ∷ choices) = goes_on-nil choices
  goes_on-nil (acquire i ∷ choices) = elim (Bool-cases (ltb 0 cap)) [
    | inl free ↦ rw free (goes_on-nil choices)
    | inr full ↦ rw full (goes_on-nil choices)
  ]

  -- The goroutines after one that is done go on as if it were not there.
  go_on-shift :
      (c : Choice) (p : String) (r : DriveResult) (slots : List Slot)
      → go_on process cap (shift c) (done p r ∷ slots) ≡ done p r ∷ go_on process cap c slots
  unfolding go_on held change_at
  go_on-shift (release i) p r slots = refl
  go_on-shift (acquire i) p r slots = either (ltb (held slots) cap)
    where
      either :
          (b : Bool)
          → (if b then done p r ∷ change_at begin i slots else done p r ∷ slots)
            ≡ done p r ∷ (if b then change_at begin i slots else slots)
      either true = refl
      either false = refl

  goes_on-shift :
      (choices : List Choice) (p : String) (r : DriveResult) (slots : List Slot)
      → goes_on process cap (map shift choices) (done p r ∷ slots)
        ≡ done p r ∷ goes_on process cap choices slots
  unfolding goes_on
  goes_on-shift [] p r slots = refl
  goes_on-shift (c ∷ choices) p r slots =
      ap (goes_on process cap (map shift choices)) (go_on-shift c p r slots)
      ∙ goes_on-shift choices p r (go_on process cap c slots)

  results_of-done :
      (p : String) (r : DriveResult) (slots : List Slot) (rs : List DriveResult)
      → results_of slots ≡ some rs
      → results_of (done p r ∷ slots) ≡ some (r ∷ rs)
  unfolding results_of
  results_of-done p r slots rs e = rw e refl

  -- With a free place, the first one runs and ends.
  run_first :
      (p : String) (slots : List Slot)
      → held slots ≡ 0
      → 1 ≤ cap
      → go_on process cap (release 0) (go_on process cap (acquire 0) (waiting p ∷ slots))
        ≡ done p (process p) ∷ slots
  unfolding go_on change_at held
  run_first p slots h room =
      let free : ltb (held slots) cap ≡ true = ground (arith, h, room) in
      ap
        (λ (b : Bool).
          change_at (end process) 0 (if b then running p ∷ slots else waiting p ∷ slots))
        free

  -- Releases do not depend on the semaphore.
  goes_on-releases :
      (is : List ℕ) (s : Slot) (slots : List Slot)
      → goes_on process cap (map release (map (λ i. suc i) is)) (s ∷ slots)
        ≡ s ∷ goes_on process cap (map release is) slots
  unfolding goes_on go_on change_at
  goes_on-releases [] s slots = refl
  goes_on-releases (i ∷ is) s slots = goes_on-releases is s (change_at (end process) i slots)

  held-ended : (s : Slot) (slots : List Slot) → held (end process s ∷ slots) ≡ held slots
  unfolding held
  held-ended (waiting p) slots = refl
  held-ended (running p) slots = refl
  held-ended (done p r) slots = refl

  -- Everything that runs can end.
  release_all :
      (slots : List Slot) → (is : List ℕ) × (held (goes_on process cap (map release is) slots) ≡ 0)
  unfolding goes_on go_on change_at held
  release_all [] = ([], refl)
  release_all (s ∷ slots) =
      let (is, h) = release_all slots in
      (
        0 ∷ map (λ i. suc i) is,
        ap held (goes_on-releases is (end process s) slots)
            ∙ held-ended s (goes_on process cap (map release is) slots)
            ∙ h,
      )

  -- If nothing runs, one after the other can run and end.
  run_all :
      (slots : List Slot)
      → held slots ≡ 0
      → 1 ≤ cap
      → (choices : List Choice) × (rs : List DriveResult) × (results_of
            (goes_on process cap choices slots)
          ≡ some rs)
  unfolding goes_on go_on change_at held results_of
  run_all [] h room = ([], [], refl)
  run_all (done p r ∷ slots) h room =
      let (choices, rs, e) = run_all slots h room in
      (
        map shift choices,
        r ∷ rs,
        ap results_of (goes_on-shift choices p r slots)
            ∙ results_of-done p r (goes_on process cap choices slots) rs e,
      )
  run_all (running p ∷ slots) h room = absurd (omega (arith, h))
  run_all (waiting p ∷ slots) h room =
      let (choices, rs, e) = run_all slots h room in
      (
        acquire 0 ∷ release 0 ∷ map shift choices,
        process p ∷ rs,
        ap (λ t. results_of (goes_on process cap (map shift choices) t)) (run_first p slots h room)
            ∙ ap results_of (goes_on-shift choices p (process p) slots)
            ∙ results_of-done p (process p) (goes_on process cap choices slots) rs e,
      )

-- Whatever the order in which the goroutines go on, if all are done, the results are those of the paths,
-- in their order.
pub run_drives-results :
    (process : String → DriveResult) (max_workers : ℕ) (paths : List String) (choices : List Choice)
    (rs : List DriveResult)
    → results_of (run_drives process max_workers paths choices) ≡ some rs
    → rs ≡ map process paths
unfolding run_drives
run_drives-results process max_workers paths choices rs e =
    let cap = capacity max_workers (length paths) in
    results_of-map process paths (goes_on process cap choices (spawn paths)) rs
      (goes_on-Kept process cap choices paths (spawn paths) (spawn-Kept process cap paths)).0 e

held-run_drives :
    (process : String → DriveResult) (max_workers : ℕ) (paths : List String) (choices : List Choice)
    → held (run_drives process max_workers paths choices) ≤ max_workers
unfolding run_drives
held-run_drives process max_workers paths choices =
    let cap = capacity max_workers (length paths) in
    let below =
      (goes_on-Kept process cap choices paths (spawn paths) (spawn-Kept process cap paths)).1 in
    ground (arith, below)

end_to_end :
    (process : String → DriveResult) (max_workers : ℕ) (paths : List String) (choices : List Choice)
    → 1 ≤ max_workers
    → (more : List Choice) × (rs : List DriveResult) × (results_of
          (run_drives process max_workers paths (choices ++ more))
        ≡ some rs)
unfolding run_drives spawn results_of
end_to_end process max_workers [] choices some_worker =
    ([], [], ap results_of (goes_on-nil process (capacity max_workers 0) (choices ++ [])))
end_to_end process max_workers (p ∷ paths) choices some_worker =
    let cap = capacity max_workers (length (p ∷ paths)) in
    let slots = goes_on process cap choices (spawn (p ∷ paths)) in
    let (is, idle) = release_all process cap slots in
    let ended = goes_on process cap (map release is) slots in
    let (last, rs, e) = run_all process cap ended idle (ground (arith, some_worker)) in
    let more = map release is ++ last in
    (
      more,
      rs,
      ap results_of (
            goes_on-append process cap choices more (spawn (p ∷ paths))
            ∙ goes_on-append process cap (map release is) last slots)
          ∙ e,
    )

-- Whatever the order in which the goroutines have gone on, at most `max_workers` drives are processed
-- at once. With at least one worker, they can go on from there to the end of all of them, and then the
-- results are those of the paths, in their order.
pub run_drives-completes :
    (process : String → DriveResult) (max_workers : ℕ) (paths : List String) (choices : List Choice)
    → 1 ≤ max_workers
    → (held (run_drives process max_workers paths choices) ≤ max_workers)
      × ((more : List Choice) × (results_of (run_drives process max_workers paths (choices ++ more))
            ≡ some (map process paths)))
run_drives-completes process max_workers paths choices some_worker =
    let (more, rs, finished) = end_to_end process max_workers paths choices some_worker in
    (
      held-run_drives process max_workers paths choices,
      (
        more,
        finished
            ∙ ap some (run_drives-results process max_workers paths (choices ++ more) rs finished),
      ),
    )
