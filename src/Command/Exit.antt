-- ===== src/Command/Exit.antt =====
-- The exit code of cmd/bit-rot-detector/main.go and the status of its mail.
use bit_rot_detector.Base.{
  ℕ, String, Bool, true, false, ◌||◌, List, [], ◌∷◌, ==_iff, ◌≢◌, ◌≡◌, ◌↔◌, refl, sym, ap, subst,
  arith, ltb, length, string_eq, ◌==◌, if◌then◌else◌,
}
use bit_rot_detector.Domain.{ScrubResult, ok}
use bit_rot_detector.Mailer
use bit_rot_detector.Config.{Config, Lookup, load}
use bit_rot_detector.Coordinator.{DriveResult, collect_errors, to_mailer_scrub_entries}
use bit_rot_detector.Command.{
  Flags, Program, operations, report, found_bit_rot, exit_code, run_with, run,
}

pub found_bit_rot_lem :
    (entries : List (String × ScrubResult)) → found_bit_rot entries ≡ Mailer.has_bit_rot entries
unfolding found_bit_rot Mailer.has_bit_rot
found_bit_rot_lem [] = refl
found_bit_rot_lem ((drive, r) ∷ entries) =
    ap (λ (b : Bool). if ltb 0 (length r.files_corrupted) then true else b)
      (found_bit_rot_lem entries)

abbrev pub code_of : (failed rot : Bool) → ℕ
code_of failed rot = if failed then 1 else if rot then 1 else 0

abbrev word_of : (failed rot : Bool) → String
word_of failed rot = if rot then "CRITICAL" else if failed then "WARNING" else "SUCCESS"

differ : (a b : String) → (a == b) ≡ false → a ≢ b
differ a b apart same = absurd (ground (arith, apart, (==_iff a b).1 same))

agree : (failed rot : Bool) → (code_of failed rot ≡ 0) ↔ (word_of failed rot ≡ "SUCCESS")
unfolding string_eq
agree true true = (λ h. absurd (omega (arith, h)), λ h. absurd (differ "CRITICAL" "SUCCESS" refl h))
agree true false = (λ h. absurd (omega (arith, h)), λ h. absurd (differ "WARNING" "SUCCESS" refl h))
agree false true =
    (λ h. absurd (omega (arith, h)), λ h. absurd (differ "CRITICAL" "SUCCESS" refl h))
agree false false = (λ h. refl, λ h. refl)

exit_code_lem :
    (results : List DriveResult)
    → (exit_code results ≡ 0)
      ↔ (Mailer.status (to_mailer_scrub_entries results) (collect_errors results) ≡ "SUCCESS")
unfolding exit_code Mailer.status
exit_code_lem results =
    subst
      (λ rot. (code_of failed rot ≡ 0) ↔ (word_of failed (Mailer.has_bit_rot scrubs) ≡ "SUCCESS"))
      (sym (found_bit_rot_lem scrubs)) (agree failed (Mailer.has_bit_rot scrubs))
  where
    failed : Bool
    failed = ltb 0 (length (collect_errors results))

    scrubs : List (String × ScrubResult)
    scrubs = to_mailer_scrub_entries results

pub run_plain :
    (go : Lookup) (f : Mailer.Formats) (flags : Flags) (prog : Program go.Float)
    (cfg : Config go.Float)
    → load go ≡ ok cfg
    → (flags.test_email || flags.web_mode || flags.watch_mode) ≡ false
    → let results = prog.drives cfg.target_paths (operations flags cfg) in
      run go f flags prog ≡ (exit_code results, report f cfg.email prog.duration results)
unfolding run run_with
run_plain go f flags prog cfg loaded plain =
    rw (run, loaded) (decide_mode _ _ _ _ flags.test_email flags.web_mode flags.watch_mode plain)
  where
    decide_mode :
        {A : Type 0} (x y z w : A) (t u v : Bool)
        → (t || u || v) ≡ false
        → (if t then x else if u then y else if v then z else w) ≡ w
    decide_mode x y z w false false false h = refl
    decide_mode x y z w true u v h = absurd (ground (arith, h))
    decide_mode x y z w false true v h = absurd (ground (arith, h))
    decide_mode x y z w false false true h = absurd (ground (arith, h))

-- With a configuration that loads, a run that is neither a test, nor a server, nor a watch returns 0
-- exactly if the status in its mail is "SUCCESS", and it syncs or scrubs whatever the flags are.
pub run_lem :
    (go : Lookup) (f : Mailer.Formats) (flags : Flags) (prog : Program go.Float)
    (cfg : Config go.Float)
    → load go ≡ ok cfg
    → (flags.test_email || flags.web_mode || flags.watch_mode) ≡ false
    → let opts = operations flags cfg in
      let results = prog.drives cfg.target_paths opts in
      ((opts.run_sync || opts.run_scrub) ≡ true)
      × ((run go f flags prog).1 ≡ report f cfg.email prog.duration results)
      × (((run go f flags prog).0 ≡ 0)
          ↔ (Mailer.status (to_mailer_scrub_entries results) (collect_errors results) ≡ "SUCCESS"))
unfolding operations
run_lem go f flags prog cfg loaded plain =
    let results = prog.drives cfg.target_paths (operations flags cfg) in
    let ends = run_plain go f flags prog cfg loaded plain in
    (
      ground arith,
      ap (λ out. out.1) ends,
      subst
          (λ (n : ℕ). (n ≡ 0) ↔ (
            Mailer.status (to_mailer_scrub_entries results) (collect_errors results) ≡ "SUCCESS"))
          (sym (ap (λ out. out.0) ends)) (exit_code_lem results),
    )
