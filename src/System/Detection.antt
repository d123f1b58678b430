-- ===== src/System/Detection.antt =====
-- A corrupted file on a drive is reported by the program.
use bit_rot_detector.Base.{
  ℕ, suc, String, Bool, true, false, Option, none, some, List, [], ◌∷◌, ◌++◌, map, length, ltb, ◌≡◌,
  refl, sym, ap, ◌∙◌, subst, contains, string_eq,
}
use bit_rot_detector.Domain.{ok, FileRecord, ScrubResult, DriveHealth}
use bit_rot_detector.Storage.Store.{Store, sqlite, open_repository}
use bit_rot_detector.Scanner.Scrub.Verdict.{rotten_in}
use bit_rot_detector.Scanner.Scrub.Rotten.{IsRotten, rotten_in-IsRotten}
use bit_rot_detector.Config.{Config, Lookup}
use bit_rot_detector.Mailer
use bit_rot_detector.Mailer.Body.{corrupted_line}
use bit_rot_detector.Mailer.Report.{
  send_unified_report, send_unified_report-corrupted, has_bit_rot-entry,
}
use bit_rot_detector.Coordinator.{
  DriveResult, read_canary, min_age_days, collect_errors, to_mailer_sync_entries,
  to_mailer_scrub_entries, to_health_slice,
}
use bit_rot_detector.Coordinator.Scrubbed.{StartsAt, process_drive-report}
use bit_rot_detector.Command.{Flags, operations, exit_code, report, Mail}
use bit_rot_detector.Command.Exit.{code_of, found_bit_rot_lem}
use bit_rot_detector.System.{Machine, Ends, main, process_path, world_of}
use bit_rot_detector.System.Healthy.{main-results}

-- The scrub result of a drive is one of the entries of the mail.
entry_of :
    (before after : List DriveResult) (r : DriveResult) (s : ScrubResult)
    → r.scrub_result ≡ some s
    → to_mailer_scrub_entries (before ++ (r ∷ after))
      ≡ to_mailer_scrub_entries before ++ ((r.drive, s) ∷ to_mailer_scrub_entries after)
unfolding to_mailer_scrub_entries
entry_of [] after r s h = rw h refl
entry_of (x ∷ before) after r s h = go x.scrub_result (entry_of before after r s h)
  where
    go :
        (o : Option ScrubResult)
        → to_mailer_scrub_entries (before ++ (r ∷ after))
          ≡ to_mailer_scrub_entries before ++ ((r.drive, s) ∷ to_mailer_scrub_entries after)
        → elim o as (λ _. List (String × ScrubResult)) [
          | none ↦ to_mailer_scrub_entries (before ++ (r ∷ after))
          | some t ↦ (x.drive, t) ∷ to_mailer_scrub_entries (before ++ (r ∷ after))
        ]
          ≡ elim o as (λ _. List (String × ScrubResult)) [
            | none ↦ to_mailer_scrub_entries before
            | some t ↦ (x.drive, t) ∷ to_mailer_scrub_entries before
          ]
            ++ ((r.drive, s) ∷ to_mailer_scrub_entries after)
    go none ih = ih
    go (some t) ih = ap (λ l. (x.drive, t) ∷ l) ih

exit_code-rot :
    (results : List DriveResult)
    → Mailer.has_bit_rot (to_mailer_scrub_entries results) ≡ true
    → exit_code results ≡ 1
unfolding exit_code
exit_code-rot results rot =
    ap (code_of (ltb 0 (length (collect_errors results))))
      (found_bit_rot_lem (to_mailer_scrub_entries results) ∙ rot)
    ∙ either (ltb 0 (length (collect_errors results)))
  where
    either : (b : Bool) → code_of b true ≡ 1
    either true = refl
    either false = refl

map-split {ℓ κ} :
    {A : Type ℓ} {B : Type κ} (g : A → B) (before after : List A) (x : A)
    → map g (before ++ (x ∷ after)) ≡ map g before ++ (g x ∷ map g after)
map-split g [] after x = refl
map-split g (y ∷ before) after x = ap (λ l. g y ∷ l) (map-split g before after x)

-- The exit code 1, and a mail of a critical status whose body has the path under its number.
abbrev pub Alarm : Mailer.Formats → String → ℕ × Mail → Type 0
Alarm f path (code, mail) =
    (code ≡ 1)
    × ((syncs : List Mailer.SyncEntry) × (scrubs : List Mailer.ScrubEntry) × (healths : List
          DriveHealth)
        × (body : List String) × (number : ℕ) × (mail
            ≡ some (Mailer.build_subject f "CRITICAL" syncs scrubs healths, body))
        × (contains body (corrupted_line f number path) ≡ true))

report-Alarm :
    (f : Mailer.Formats) (email : Mailer.Config) (duration : ℕ) (before after : List DriveResult)
    (r : DriveResult) (s : ScrubResult) (ps qs : List String) (path : String)
    → r.scrub_result ≡ some s
    → s.files_corrupted ≡ ps ++ (path ∷ qs)
    → let results = before ++ (r ∷ after) in
      Alarm f path (exit_code results, report f email duration results)
unfolding report
report-Alarm f email duration before after r s ps qs path scrubbed listed =
    let results = before ++ (r ∷ after) in
    let entries = entry_of before after r s scrubbed in
    let scrubs_before = to_mailer_scrub_entries before in
    let scrubs_after = to_mailer_scrub_entries after in
    let rot = has_bit_rot-entry scrubs_before scrubs_after r.drive s ps qs path listed in
    let (body, sent, has_line) =
      send_unified_report-corrupted f email (to_mailer_sync_entries results) scrubs_before
        scrubs_after r.drive s ps qs path (to_health_slice results) (collect_errors results)
        duration listed in
    (
      exit_code-rot results (ap Mailer.has_bit_rot entries ∙ rot),
      (
        to_mailer_sync_entries results,
        scrubs_before ++ ((r.drive, s) ∷ scrubs_after),
        to_health_slice results,
        body,
        suc (length ps),
        ap
              (λ scrubs.
                send_unified_report f email (to_mailer_sync_entries results) scrubs
                  (to_health_slice results) (collect_errors results) duration)
              entries
            ∙ sent,
        has_line,
      ),
    )

module _ (go : Lookup) (f : Mailer.Formats) (flags : Flags) (m : Machine go.Float)
    (cfg : Config go.Float) where
  -- What the run of a drive comes to: its canary can be read, its database opens, and the scrub, which is
  -- asked for and not cancelled, selects `files`.
  pub record Selects (p : String) (files : List FileRecord) : Type 0 where
    pub content : String
    pub opened : Store
    pub scrubbed : Store
    pub mounted : read_canary (world_of m p).read_canary_fails (m.drives p).canary ≡ ok content
    pub opens :
        (open_repository (world_of m p).os (world_of m p).engine (m.drives p).disk).0 ≡ ok opened
    pub starts : StartsAt (world_of m p) p (operations flags cfg) opened scrubbed
    pub asked : (operations flags cfg).run_scrub ≡ true
    pub alive : (world_of m p).scrub_ctx ≡ none
    pub in_time : (k : ℕ) → (world_of m p).scrub_done k ≡ false
    pub selected :
        (sqlite (world_of m p).os (world_of m p).engine (world_of m p).fl).get_files_for_scrub
          (world_of m p).scrub_at
          cfg.scrub_percentage
          (min_age_days cfg.scrub_frequency)
          scrubbed
        ≡ ok files

  -- The run of the program comes to its end, and at one of its paths the scrub selects a file that can
  -- be read and whose hash is not the recorded one. Then, whatever else fails on this drive or on
  -- others, the program returns 1, and sends a mail with the subject of a critical status, in whose
  -- body the path of the file stands under its number.
  pub main-detects :
      Ends go flags m cfg
      → (before after : List String) (p : String) → cfg.target_paths ≡ before ++ (p ∷ after)
      → (earlier later : List FileRecord) (r : FileRecord) → Selects p (earlier ++ (r ∷ later))
      → IsRotten (world_of m p).missing (world_of m p).scrub_hash r
      → Alarm f r.abs_path (main go f flags m)
  unfolding operations
  main-detects ends before after p here earlier later r chosen rots =
      let w = world_of m p in
      let opts = operations flags cfg in
      let result : String → DriveResult = λ q. (process_path m opts q).0 in
      let scrubbed =
        process_drive-report w p opts (earlier ++ (r ∷ later)) chosen.scrubbed chosen.asked
          chosen.alive chosen.in_time chosen.selected (m.drives p) chosen.content chosen.opened
          chosen.mounted chosen.opens chosen.starts in
      let alarm =
        report-Alarm f cfg.email m.duration (map result before) (map result after) (result p) _
          (rotten_in w.missing w.scrub_hash earlier) (rotten_in w.missing w.scrub_hash later)
          r.abs_path scrubbed (rotten_in-IsRotten w.missing w.scrub_hash earlier later r rots) in
      subst (Alarm f r.abs_path) (sym (main-results go f flags m cfg ends)) (
        subst
          (λ results. Alarm f r.abs_path (exit_code results, report f cfg.email m.duration results))
          (sym (ap (map result) here ∙ map-split result before after p)) alarm)
