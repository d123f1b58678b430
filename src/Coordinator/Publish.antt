-- ===== src/Coordinator/Publish.antt =====
-- What `processDrive` of internal/coordinator/coordinator.go publishes: either the whole run, or
-- nothing.
use bit_rot_detector.Base.{
  String, Bool, true, false, ◌||◌, Option, none, some, ◌≡◌, ◌≢◌, ◌⊎◌, inl, inr, refl, sym, ap,
  subst, ◌∙◌, arith, if_ind,
}
use bit_rot_detector.Domain.{Result, ok, err, SyncResult, ScrubResult}
use bit_rot_detector.Storage.Table.{Database}
use bit_rot_detector.Storage.Store.{Disk, Store, sqlite, open_repository, commit}
use bit_rot_detector.Storage.Store.Untouched.{
  rollback-prod, insert_run_history-prod, sqlite-Preserves,
}
use bit_rot_detector.Storage.Store.Swap.{Outcome, commit_lem}
use bit_rot_detector.Storage.Store.Opened.{prod-open_repository, open_repository_lem}
use bit_rot_detector.Scanner.Sync.Stable.{sync_directory-kept}
use bit_rot_detector.Scanner.Scrub.Stable.{scrub_files-kept}
use bit_rot_detector.Coordinator.{
  DriveResult, Options, Drive, World, read_canary, give_up, committed, record_run, post_check,
  scrubbed_drive, scrub_drive, synced_drive, sync_drive, opened_drive, checked_drive, begun,
  process_drive,
}

-- Nothing is published: there is an error, and the production database `o` and the canary are those
-- of before the run.
abbrev pub Unpublished : Option Database → Option String → DriveResult × Drive → Type 0
Unpublished o canary (res, d) = (res.error ≢ none) × ((d.disk).prod ≡ o) × (d.canary ≡ canary)

-- The run is published: there is no error, the canary was there at the end of the scan, and a
-- database is in place, with no shadow beside it.
abbrev pub Published : World → DriveResult × Drive → Type 0
Published w (res, d) =
    (res.error ≡ none) × (w.canary_gone ≡ none) × ((d.disk).prod ≢ none) × ((d.disk).shadow ≡ none)

module _ (w : World) (path : String) (opts : Options (w.fl).Float) (o : Option Database) where
  abbrev Safe : Option String → DriveResult × Drive → Type 0
  Safe canary out = Published w out ⊎ Unpublished o canary out

  give_up-Safe :
      (message : String) (res : DriveResult) (canary : Option String) (s : Store)
      → (s.disk).prod ≡ o
      → Safe canary (give_up w path opts message res canary s)
  unfolding give_up
  give_up-Safe message res canary s h =
      inr (λ e. ground arith, rollback-prod w.os w.engine s ∙ h, refl)

  committed-Safe :
      (res : DriveResult) (canary : Option String) (s : Store) (out : Option String × Store)
      → res.error ≡ none
      → w.canary_gone ≡ none
      → (s.disk).prod ≡ o
      → Outcome out.0 s out.1
      → Safe canary (committed w path opts res canary out)
  unfolding committed
  committed-Safe res canary s (some e, t) clean here h same =
      give_up-Safe _ res canary t (ap (λ d. d.prod) same ∙ h)
  committed-Safe res canary s (none, t) clean here h (published, there, gone, _) =
      inl (clean, here, there, gone)

  record_run-prod :
      (res : DriveResult) (s : Store) → ((record_run w path opts res s).disk).prod ≡ (s.disk).prod
  unfolding record_run
  record_run-prod res s =
      if_ind (λ (t : Store). (t.disk).prod ≡ (s.disk).prod) (opts.run_sync || opts.run_scrub)
        (insert_run_history-prod w.os w.engine _ s) refl

  post_check-Safe :
      (gone : Option String) (res : DriveResult) (canary : Option String) (s : Store)
      → w.canary_gone ≡ gone
      → res.error ≡ none
      → (s.disk).prod ≡ o
      → Safe canary (post_check w path opts gone res canary s)
  unfolding post_check
  post_check-Safe (some e) res canary s here clean h = give_up-Safe _ res canary s h
  post_check-Safe none res canary s here clean h =
      committed-Safe res canary (record_run w path opts res s)
        (commit w.os (record_run w path opts res s)) clean here (record_run-prod res s ∙ h)
        (commit_lem w.os (record_run w path opts res s))

  scrubbed_drive-Safe :
      (res : DriveResult) (canary : Option String)
      (out : Option ScrubResult × Option String × Store)
      → res.error ≡ none
      → ((out.2).disk).prod ≡ o
      → Safe canary (scrubbed_drive w path opts res canary out)
  unfolding scrubbed_drive
  scrubbed_drive-Safe res canary (out, some e, s) clean h = give_up-Safe _ res canary s h
  scrubbed_drive-Safe res canary (out, none, s) clean h =
      post_check-Safe w.canary_gone (record res { scrub_result = out }) canary s refl clean h

  scrub_drive-Safe :
      (b : Bool) (res : DriveResult) (canary : Option String) (s : Store)
      → res.error ≡ none
      → (s.disk).prod ≡ o
      → Safe canary (scrub_drive w path opts b res canary s)
  unfolding scrub_drive
  scrub_drive-Safe false res canary s clean h =
      post_check-Safe w.canary_gone res canary s refl clean h
  scrub_drive-Safe true res canary s clean h = scrubbed_drive-Safe res canary _ clean (
      scrub_files-kept (sqlite w.os w.engine w.fl) (λ s. (s.disk).prod ≡ o)
        (sqlite-Preserves w.os w.engine w.fl o) w.missing w.scrub_hash w.scrub_now w.scrub_ctx
        w.scrub_done w.scrub_at opts.scrub_percentage _ s h)

  synced_drive-Safe :
      (res : DriveResult) (canary : Option String) (out : Option SyncResult × Option String × Store)
      → res.error ≡ none
      → ((out.2).disk).prod ≡ o
      → Safe canary (synced_drive w path opts res canary out)
  unfolding synced_drive
  synced_drive-Safe res canary (out, some e, s) clean h = give_up-Safe _ res canary s h
  synced_drive-Safe res canary (out, none, s) clean h =
      scrub_drive-Safe opts.run_scrub (record res { sync_result = out }) canary s clean h

  sync_drive-Safe :
      (b : Bool) (res : DriveResult) (canary : Option String) (s : Store)
      → res.error ≡ none
      → (s.disk).prod ≡ o
      → Safe canary (sync_drive w path opts b res canary s)
  unfolding sync_drive
  sync_drive-Safe false res canary s clean h = scrub_drive-Safe opts.run_scrub res canary s clean h
  sync_drive-Safe true res canary s clean h = synced_drive-Safe res canary _ clean (
      sync_directory-kept (sqlite w.os w.engine w.fl) (λ s. (s.disk).prod ≡ o)
        (sqlite-Preserves w.os w.engine w.fl o) w.sync_hash w.added_now w.seen_now w.sync_ctx w.root
        w.choices s h)

  opened_drive-Safe :
      (res : DriveResult) (canary : Option String) (out : Result Store × Disk)
      → res.error ≡ none
      → (out.1).prod ≡ o
      → ((s : Store) → out.0 ≡ ok s → (s.disk).prod ≡ o)
      → Safe canary (opened_drive w path opts res canary out)
  unfolding opened_drive
  opened_drive-Safe res canary (err e, d) clean h agree = inr (λ e. ground arith, h, refl)
  opened_drive-Safe res canary (ok s, d) clean h agree =
      sync_drive-Safe opts.run_sync _ canary s clean (agree s refl)

read_canary-fails :
    (fails canary : Option String)
    → (canary ≡ none) ⊎ (fails ≢ none)
    → (e : String) × (read_canary fails canary ≡ err e)
unfolding read_canary
read_canary-fails fails none h = (_, refl)
read_canary-fails (some e) (some content) h = (e, refl)
read_canary-fails none (some content) (inl h) = absurd (ground arith)
read_canary-fails none (some content) (inr h) = absurd (h refl)

module _ (w : World) (path : String) (opts : Options (w.fl).Float) where
  checked_drive-Safe :
      (res : DriveResult) (d : Drive) (sum : Result String)
      → res.error ≡ none
      → Safe w path opts (d.disk).prod d.canary (checked_drive w path opts res d sum)
  unfolding checked_drive
  checked_drive-Safe res d (err e) clean = inr (λ e. ground arith, refl, refl)
  checked_drive-Safe res d (ok sum) clean =
      opened_drive-Safe w path opts (d.disk).prod res d.canary
        (open_repository w.os w.engine d.disk) clean (prod-open_repository w.os w.engine d.disk)
        (λ s h. let (_, _, same, _, _) = open_repository_lem w.os w.engine d.disk s h in same)

  -- A run over a drive publishes all or nothing, whatever fails in it and in whatever order its
  -- goroutines go on: either it ends without an error, the canary was there after the scan, and a
  -- database is in place with no shadow left beside it; or it ends with an error, and the production
  -- database and the canary are those of before the run.
  pub process_drive_lem :
      (d : Drive)
      → Published w (process_drive w path opts d)
        ⊎ Unpublished (d.disk).prod d.canary (process_drive w path opts d)
  unfolding process_drive begun
  process_drive_lem d =
      checked_drive-Safe (begun w path opts) d (read_canary w.read_canary_fails d.canary) refl

  -- On a drive without its canary file, or with one that cannot be read, a run changes no file and ends
  -- with an error.
  pub process_drive-untouched :
      (d : Drive)
      → (d.canary ≡ none) ⊎ (w.read_canary_fails ≢ none)
      → ((process_drive w path opts d).1 ≡ d) × ((process_drive w path opts d).0.error ≢ none)
  unfolding process_drive checked_drive
  process_drive-untouched d h =
      let (e, failed) = read_canary-fails w.read_canary_fails d.canary h in
      subst
        (λ sum.
          let (res, d') = checked_drive w path opts (begun w path opts) d sum in
          (d' ≡ d) × (res.error ≢ none))
        (sym failed) (refl, λ k. ground arith)
