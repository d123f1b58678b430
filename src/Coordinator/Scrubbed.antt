-- ===== src/Coordinator/Scrubbed.antt =====
-- The scrub in `processDrive` of internal/coordinator/coordinator.go is in its result, whatever fails
-- after it.
use bit_rot_detector.Base.{
  ℕ, String, true, false, Option, none, some, List, ◌≡◌, ◌⊎◌, inl, inr, refl, sym, ◌∙◌, subst,
  arith,
}
use bit_rot_detector.Domain.{Result, ok, err, ok_inj, FileRecord, SyncResult, ScrubResult}
use bit_rot_detector.Storage.Store.{Disk, Store, sqlite, open_repository, commit}
use bit_rot_detector.Scanner.Sync.{sync_directory}
use bit_rot_detector.Scanner.Scrub.{scrub_files}
use bit_rot_detector.Scanner.Scrub.Report.{report_of}
use bit_rot_detector.Scanner.Scrub.Rotten.{scrub_files-whole}
use bit_rot_detector.Coordinator.{
  DriveResult, Options, Drive, World, read_canary, give_up, committed, record_run, post_check,
  scrubbed_drive, scrub_drive, synced_drive, sync_drive, opened_drive, checked_drive, begun,
  min_age_days, process_drive,
}

module _ (w : World) (path : String) (opts : Options (w.fl).Float) where
  -- The repository at which the scrub of a drive starts: the one that was opened, or the one that a sync
  -- without an error has left.
  abbrev pub StartsAt : Store → Store → Type 0
  StartsAt opened s =
      ((opts.run_sync ≡ false) × (s ≡ opened))
      ⊎ ((opts.run_sync ≡ true)
          × ((out : Option SyncResult) × (sync_directory (sqlite w.os w.engine w.fl) w.sync_hash
                  w.added_now w.seen_now w.sync_ctx w.root w.choices opened
                ≡ (out, none, s))))

  committed-scrub_result :
      (res : DriveResult) (canary : Option String) (out : Option String × Store)
      → (committed w path opts res canary out).0.scrub_result ≡ res.scrub_result
  unfolding committed give_up
  committed-scrub_result res canary (some e, s) = refl
  committed-scrub_result res canary (none, s) = refl

  post_check-scrub_result :
      (gone : Option String) (res : DriveResult) (canary : Option String) (s : Store)
      → (post_check w path opts gone res canary s).0.scrub_result ≡ res.scrub_result
  unfolding post_check give_up
  post_check-scrub_result (some e) res canary s = refl
  post_check-scrub_result none res canary s =
      committed-scrub_result res canary (commit w.os (record_run w path opts res s))

  scrubbed_drive-scrub_result :
      (res : DriveResult) (canary : Option String)
      (out : Option ScrubResult × Option String × Store)
      → out.1 ≡ none
      → (scrubbed_drive w path opts res canary out).0.scrub_result ≡ out.0
  unfolding scrubbed_drive
  scrubbed_drive-scrub_result res canary (out, some e, s) h = absurd (ground (arith, h))
  scrubbed_drive-scrub_result res canary (out, none, s) h =
      post_check-scrub_result w.canary_gone (record res { scrub_result = out }) canary s

  module _ (files : List FileRecord) (s : Store) (asked : opts.run_scrub ≡ true)
      (alive : w.scrub_ctx ≡ none) (in_time : (k : ℕ) → w.scrub_done k ≡ false)
      (selected : ((sqlite w.os w.engine w.fl).get_files_for_scrub w.scrub_at opts.scrub_percentage
          (min_age_days opts.scrub_frequency)
          s)
        ≡ ok files) where
    abbrev report : ScrubResult
    report = report_of w.missing w.scrub_hash (sqlite w.os w.engine w.fl) w.scrub_now files

    scrub_drive-report :
        (res : DriveResult) (canary : Option String)
        → (scrub_drive w path opts opts.run_scrub res canary s).0.scrub_result ≡ some report
    unfolding scrub_drive
    scrub_drive-report res canary =
        let repo = sqlite w.os w.engine w.fl in
        let scrub : Option String → Option ScrubResult × Option String × Store = λ ctx.
          scrub_files repo w.missing w.scrub_hash w.scrub_now ctx w.scrub_done w.scrub_at
            opts.scrub_percentage (min_age_days opts.scrub_frequency) s in
        let (reported, no_error) =
          scrub_files-whole repo w.missing w.scrub_hash w.scrub_now w.scrub_done w.scrub_at
            opts.scrub_percentage (min_age_days opts.scrub_frequency) s files in_time selected in
        subst (λ b. (scrub_drive w path opts b res canary s).0.scrub_result ≡ some report)
          (sym asked)
          (subst
            (λ c. (scrubbed_drive w path opts res canary (scrub c)).0.scrub_result ≡ some report)
            (sym alive) (scrubbed_drive-scrub_result res canary (scrub none) no_error ∙ reported))

    sync_drive-report :
        (opened : Store)
        → StartsAt opened s
        → (res : DriveResult) (canary : Option String)
        → (sync_drive w path opts opts.run_sync res canary opened).0.scrub_result ≡ some report
    unfolding sync_drive synced_drive
    sync_drive-report opened (inl (off, same)) res canary =
        subst (λ b. (sync_drive w path opts b res canary opened).0.scrub_result ≡ some report)
          (sym off)
          (subst
            (λ t.
              (scrub_drive w path opts opts.run_scrub res canary t).0.scrub_result ≡ some report)
            same (scrub_drive-report res canary))
    sync_drive-report opened (inr (on, (out, synced))) res canary =
        subst (λ b. (sync_drive w path opts b res canary opened).0.scrub_result ≡ some report)
          (sym on)
          (subst (λ o. (synced_drive w path opts res canary o).0.scrub_result ≡ some report)
            (sym synced) (scrub_drive-report (record res { sync_result = out }) canary))

    -- If the canary can be read, the database opens, and the scrub selects `files` and is not cancelled,
    -- then the report on these files is in the result of the drive, whatever fails after the scrub.
    pub process_drive-report :
        (d : Drive) (content : String) (opened : Store)
        → read_canary w.read_canary_fails d.canary ≡ ok content
        → (open_repository w.os w.engine d.disk).0 ≡ ok opened
        → StartsAt opened s
        → (process_drive w path opts d).0.scrub_result ≡ some report
    unfolding process_drive checked_drive opened_drive
    process_drive-report d content opened read opens starts =
        subst
          (λ sum.
            (checked_drive w path opts (begun w path opts) d sum).0.scrub_result ≡ some report)
          (sym read)
          (opened_report (begun w path opts) d.canary (open_repository w.os w.engine d.disk) opens)
      where
        opened_report :
            (res : DriveResult) (canary : Option String) (out : Result Store × Disk)
            → out.0 ≡ ok opened
            → (opened_drive w path opts res canary out).0.scrub_result ≡ some report
        opened_report res canary (err e, disk) h = absurd (ground (arith, h))
        opened_report res canary (ok t, disk) h =
            subst
              (λ t. (opened_drive w path opts res canary (ok t, disk)).0.scrub_result ≡ some report)
              (sym (ok_inj h)) (sync_drive-report opened starts _ canary)
