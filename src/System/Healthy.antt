-- ===== src/System/Healthy.antt =====
-- What the exit code 0 of the program says about its drives.
use bit_rot_detector.Base.{
  String, Bool, true, false, Option, none, some, List, [], ◌∷◌, map, ◌≡◌, inl, inr, refl, sym, ap,
  ◌∙◌, subst, arith, All, ltb, length, nil_of_length,
}
use bit_rot_detector.Domain.{ScrubResult}
use bit_rot_detector.Config.{Config, Lookup}
use bit_rot_detector.Mailer
use bit_rot_detector.Coordinator.{DriveResult, collect_errors, to_mailer_scrub_entries}
use bit_rot_detector.Coordinator.Collect.{collect_errors_lem}
use bit_rot_detector.Coordinator.Publish.{Published, process_drive_lem}
use bit_rot_detector.Coordinator.Drives.Schedule.{run_drives-results}
use bit_rot_detector.Command.{Flags, operations, exit_code, found_bit_rot, report}
use bit_rot_detector.Command.Exit.{run_plain, code_of}
use bit_rot_detector.System.{Machine, Ends, main, process_path, program, world_of}

module _ (go : Lookup) (f : Mailer.Formats) (flags : Flags) (m : Machine go.Float)
    (cfg : Config go.Float) where
  -- A run that comes to its end reports on the drives of the configuration, in their order.
  pub main-results :
      Ends go flags m cfg
      → let results = map (λ p. (process_path m (operations flags cfg) p).0) cfg.target_paths in
        main go f flags m ≡ (exit_code results, report f cfg.email m.duration results)
  unfolding main
  main-results ends =
      let opts = operations flags cfg in
      let same =
        run_drives-results (λ p. (process_path m opts p).0) opts.max_workers cfg.target_paths
          m.turns ends.results ends.finished in
      run_plain go f flags (program m) cfg ends.loaded ends.plain
      ∙ ap
          (λ o.
            let results = elim o as (λ _. List DriveResult) [ none ↦ [] | some rs ↦ rs ] in
            (exit_code results, report f cfg.email m.duration results))
          ends.finished
      ∙ ap (λ results. (exit_code results, report f cfg.email m.duration results)) same

-- No file was found to be corrupted.
abbrev pub Intact : Option ScrubResult → Type 0
Intact none = Unit {0}
Intact (some s) = s.files_corrupted ≡ []

exit_code-zero :
    (results : List DriveResult)
    → exit_code results ≡ 0
    → (collect_errors results ≡ []) × (found_bit_rot (to_mailer_scrub_entries results) ≡ false)
unfolding exit_code
exit_code-zero results h =
    let (no_errors, no_rot) =
      go (ltb 0 (length (collect_errors results))) (found_bit_rot (to_mailer_scrub_entries results))
        h in
    (nil_of_length (collect_errors results) (ground (arith, no_errors)), no_rot)
  where
    go : (a b : Bool) → code_of a b ≡ 0 → (a ≡ false) × (b ≡ false)
    go false false h = (refl, refl)
    go true b h = absurd (omega (arith, h))
    go false true h = absurd (omega (arith, h))

found_bit_rot-Intact :
    (results : List DriveResult)
    → found_bit_rot (to_mailer_scrub_entries results) ≡ false
    → All (λ r. Intact r.scrub_result) results
unfolding found_bit_rot to_mailer_scrub_entries
found_bit_rot-Intact [] h = tt
found_bit_rot-Intact (r ∷ results) h = go r.scrub_result refl h (found_bit_rot-Intact results)
  where
    go :
        (o : Option ScrubResult)
        → r.scrub_result ≡ o
        → found_bit_rot (elim o as (λ _. List (String × ScrubResult)) [
          | none ↦ to_mailer_scrub_entries results
          | some s ↦ (r.drive, s) ∷ to_mailer_scrub_entries results
        ])
          ≡ false
        → (found_bit_rot (to_mailer_scrub_entries results) ≡ false
            → All (λ r. Intact r.scrub_result) results)
        → Intact r.scrub_result × All (λ r. Intact r.scrub_result) results
    go none e k ih = (subst Intact (sym e) tt, ih k)
    go (some s) e k ih =
        let empty = nil_of_length s.files_corrupted (ground (arith, k)) in
        (subst Intact (sym e) empty, ih (ground (arith, k)))

-- A property of the results of all paths, of each path.
All-map {ℓ κ μ} :
    {A : Type ℓ} {B : Type κ} (P : B → Type μ) (g : A → B) (xs : List A)
    → All P (map g xs)
    → All (λ x. P (g x)) xs
All-map P g [] h = tt
All-map P g (x ∷ xs) h = (h.0, All-map P g xs h.1)

module _ (go : Lookup) (f : Mailer.Formats) (flags : Flags) (m : Machine go.Float)
    (cfg : Config go.Float) where
  -- The run over the drive at a path was published, and no file on it was found to be corrupted.
  abbrev pub IsHealthy : String → Type 0
  IsHealthy p =
      let out = process_path m (operations flags cfg) p in
      Published (world_of m p) out × Intact out.0.scrub_result

  published :
      (p : String)
      → (process_path m (operations flags cfg) p).0.error ≡ none
      → Published (world_of m p) (process_path m (operations flags cfg) p)
  published p clean =
      elim (process_drive_lem (world_of m p) p (operations flags cfg) (m.drives p)) [
        | inl done ↦ done
        | inr (failed, _, _) ↦ absurd (failed clean)
      ]

  -- If a run of the program that comes to its end returns 0, the run over each of the configured paths
  -- was published: it ended without an error, the canary was there after the scan, and a database is in
  -- place with no shadow beside it. And no file was found to be corrupted.
  pub main-IsHealthy :
      Ends go flags m cfg → (main go f flags m).0 ≡ 0 → All IsHealthy cfg.target_paths
  main-IsHealthy ends zero =
      let results = map (λ p. (process_path m (operations flags cfg) p).0) cfg.target_paths in
      let (no_errors, no_rot) =
        exit_code-zero results
          (sym (ap (λ out. out.0) (main-results go f flags m cfg ends)) ∙ zero) in
      each cfg.target_paths
        (All-map (λ r. r.error ≡ none) (λ p. (process_path m (operations flags cfg) p).0)
          cfg.target_paths ((collect_errors_lem results).0 no_errors))
        (All-map (λ r. Intact r.scrub_result) (λ p. (process_path m (operations flags cfg) p).0)
          cfg.target_paths (found_bit_rot-Intact results no_rot))
    where
      each :
          (paths : List String)
          → All (λ p. (process_path m (operations flags cfg) p).0.error ≡ none) paths
          → All (λ p. Intact (process_path m (operations flags cfg) p).0.scrub_result) paths
          → All IsHealthy paths
      each [] h k = tt
      each (p ∷ paths) h k = ((published p h.0, k.0), each paths h.1 k.1)
