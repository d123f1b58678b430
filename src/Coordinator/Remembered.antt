-- ===== src/Coordinator/Remembered.antt =====
-- The hashes that a run of `processDrive` of internal/coordinator/coordinator.go publishes are those that
-- the next run finds.
use mathlib.Core.Option
use bit_rot_detector.Base.{
  String, Bool, true, false, ◌||◌, Option, none, some, ◌≡◌, inl, inr, refl, sym, ap, ◌∙◌, subst,
  arith, if_ind,
}
use bit_rot_detector.Domain.{Result, ok, err, ok_inj, SyncResult, ScrubResult}
use bit_rot_detector.Storage.Table.{Engine}
use bit_rot_detector.Storage.Store.{Os, Disk, Store, sqlite, open_repository, commit}
use bit_rot_detector.Storage.Store.Laws.{row, sqlite_laws}
use bit_rot_detector.Storage.Store.Swap.{commit_durable}
use bit_rot_detector.Storage.Store.Opened.{open_repository_lem}
use bit_rot_detector.Storage.Store.Untouched.{insert_run_history-journal, sqlite-Preserves_journal}
use bit_rot_detector.Scanner.Sync.Stable.{sync_directory-kept}
use bit_rot_detector.Scanner.Scrub.Stable.{scrub_files-kept}
use bit_rot_detector.Storage.Store.Recorded.{row-insert_run_history}
use bit_rot_detector.Scanner.Scrub.Rows.{scrub_files-hash}
use bit_rot_detector.Coordinator.{
  DriveResult, Options, Drive, World, read_canary, give_up, committed, record_run, post_check,
  scrubbed_drive, scrub_drive, synced_drive, sync_drive, opened_drive, checked_drive, begun,
  process_drive,
}
use bit_rot_detector.Coordinator.Scrubbed.{StartsAt}

-- The recorded hash of a path.
abbrev pub recorded_hash : Store → String → Option String
recorded_hash s p = Option.map (λ r. r.hash) (row s p)

-- If there is no error, the next repository that opens on the drive has the hashes of `s`.
abbrev Keeps : Store → DriveResult × Drive → Type 0
Keeps s out =
    out.0.error ≡ none
    → (os : Os) (engine : Engine) (next : Store)
    → (open_repository os engine out.1.disk).0 ≡ ok next
    → (p : String) → recorded_hash next p ≡ recorded_hash s p

-- No journal is beside the shadow.
abbrev Settled : Store → Type 0
Settled s = (s.disk).journal ≡ none

module _ (w : World) (path : String) (opts : Options (w.fl).Float) where
  committed-Keeps :
      (res : DriveResult) (canary : Option String) (s : Store) (out : Option String × Store)
      → Settled s
      → commit w.os s ≡ out
      → Keeps s (committed w path opts res canary out)
  unfolding committed give_up
  committed-Keeps res canary s (some e, t) fresh done clean os engine next opens p =
      absurd (ground (arith, clean))
  committed-Keeps res canary s (none, t) fresh done clean os engine next opens p =
      ap (Option.map (λ r. r.hash)) (
        commit_durable w.os os engine s next p fresh (ap (λ out. out.0) done)
          (ap (λ out. (open_repository os engine out.1.disk).0) done ∙ opens))

  record_run-row :
      (res : DriveResult) (s : Store) (p : String) → row (record_run w path opts res s) p ≡ row s p
  unfolding record_run
  record_run-row res s p =
      if_ind (λ (t : Store). row t p ≡ row s p) (opts.run_sync || opts.run_scrub)
        (row-insert_run_history w.engine _ s p) refl

  record_run-Settled :
      (res : DriveResult) (s : Store) → Settled s → Settled (record_run w path opts res s)
  unfolding record_run
  record_run-Settled res s h =
      if_ind Settled (opts.run_sync || opts.run_scrub)
        (insert_run_history-journal w.os w.engine _ s ∙ h) h

  post_check-Keeps :
      (gone : Option String) (res : DriveResult) (canary : Option String) (s : Store)
      → Settled s
      → Keeps s (post_check w path opts gone res canary s)
  unfolding post_check give_up
  post_check-Keeps (some e) res canary s fresh clean os engine next opens p =
      absurd (ground (arith, clean))
  post_check-Keeps none res canary s fresh clean os engine next opens p =
      committed-Keeps res canary (record_run w path opts res s)
        (commit w.os (record_run w path opts res s)) (record_run-Settled res s fresh) refl clean os
        engine next opens p
      ∙ ap (Option.map (λ r. r.hash)) (record_run-row res s p)

  scrubbed_drive-Keeps :
      (res : DriveResult) (canary : Option String) (s : Store)
      (out : Option ScrubResult × Option String × Store)
      → Settled out.2
      → (out.1 ≡ none → (p : String) → recorded_hash out.2 p ≡ recorded_hash s p)
      → Keeps s (scrubbed_drive w path opts res canary out)
  unfolding scrubbed_drive give_up
  scrubbed_drive-Keeps res canary s (out, some e, t) fresh same clean os engine next opens p =
      absurd (ground (arith, clean))
  scrubbed_drive-Keeps res canary s (out, none, t) fresh same clean os engine next opens p =
      post_check-Keeps w.canary_gone (record res { scrub_result = out }) canary t fresh clean os
        engine next opens p
      ∙ same refl p

  scrub_drive-Keeps :
      (b : Bool) (res : DriveResult) (canary : Option String) (s : Store)
      → Settled s
      → Keeps s (scrub_drive w path opts b res canary s)
  unfolding scrub_drive
  scrub_drive-Keeps false res canary s fresh = post_check-Keeps w.canary_gone res canary s fresh
  scrub_drive-Keeps true res canary s fresh =
      scrubbed_drive-Keeps res canary s _
        (scrub_files-kept (sqlite w.os w.engine w.fl) Settled
          (sqlite-Preserves_journal w.os w.engine w.fl) w.missing w.scrub_hash w.scrub_now
          w.scrub_ctx w.scrub_done w.scrub_at opts.scrub_percentage _ s fresh)
        (λ clean p.
          scrub_files-hash (sqlite w.os w.engine w.fl) w.scrub_now (sqlite_laws w.engine w.os w.fl)
            w.missing w.scrub_hash w.scrub_ctx w.scrub_done w.scrub_at opts.scrub_percentage _ s p
            clean)

  sync_drive-Keeps :
      (opened s : Store)
      → Settled opened
      → StartsAt w path opts opened s
      → (res : DriveResult) (canary : Option String)
      → Keeps s (sync_drive w path opts opts.run_sync res canary opened)
  unfolding sync_drive synced_drive
  sync_drive-Keeps opened s fresh (inl (off, same)) res canary =
      subst (λ b. Keeps s (sync_drive w path opts b res canary opened)) (sym off)
        (subst (λ t. Keeps s (scrub_drive w path opts opts.run_scrub res canary t)) same
          (scrub_drive-Keeps opts.run_scrub res canary s (subst Settled (sym same) fresh)))
  sync_drive-Keeps opened s fresh (inr (on, (out, synced))) res canary =
      subst (λ b. Keeps s (sync_drive w path opts b res canary opened)) (sym on)
        (subst (λ o. Keeps s (synced_drive w path opts res canary o)) (sym synced)
          (scrub_drive-Keeps opts.run_scrub (record res { sync_result = out }) canary s
            (subst (λ (o : Option SyncResult × Option String × Store). Settled o.2) synced
              (sync_directory-kept (sqlite w.os w.engine w.fl) Settled
                (sqlite-Preserves_journal w.os w.engine w.fl) w.sync_hash w.added_now w.seen_now
                w.sync_ctx w.root w.choices opened fresh))))

  opened_drive-Keeps :
      (res : DriveResult) (canary : Option String) (opened s : Store) (out : Result Store × Disk)
      → Settled opened
      → out.0 ≡ ok opened
      → StartsAt w path opts opened s
      → Keeps s (opened_drive w path opts res canary out)
  unfolding opened_drive
  opened_drive-Keeps res canary opened s (err e, disk) fresh h starts = absurd (ground (arith, h))
  opened_drive-Keeps res canary opened s (ok t, disk) fresh h starts =
      subst (λ t. Keeps s (opened_drive w path opts res canary (ok t, disk))) (sym (ok_inj h))
        (sync_drive-Keeps opened s fresh starts _ canary)

  -- A run over a drive whose canary can be read and whose database opens, and that ends without an
  -- error: the next repository that opens on the drive, on any system, has for every path the hash
  -- that the sync left, or, without a sync, the one that was there; the scrub replaces none.
  pub process_drive-recorded_hash :
      (d : Drive) (content : String) (opened s : Store)
      → read_canary w.read_canary_fails d.canary ≡ ok content
      → (open_repository w.os w.engine d.disk).0 ≡ ok opened
      → StartsAt w path opts opened s
      → (process_drive w path opts d).0.error ≡ none
      → (os : Os) (engine : Engine) (next : Store)
      → (open_repository os engine (process_drive w path opts d).1.disk).0 ≡ ok next
      → (p : String) → recorded_hash next p ≡ recorded_hash s p
  unfolding process_drive checked_drive
  process_drive-recorded_hash d content opened s read opens starts =
      subst (λ sum. Keeps s (checked_drive w path opts (begun w path opts) d sum)) (sym read)
        (opened_drive-Keeps (begun w path opts) d.canary opened s
          (open_repository w.os w.engine d.disk) journal opens starts)
    where
      journal : Settled opened
      journal =
          let (_, _, _, fresh, _) = open_repository_lem w.os w.engine d.disk opened opens in fresh
