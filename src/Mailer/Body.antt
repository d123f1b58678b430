-- ===== src/Mailer/Body.antt =====
-- `buildBody` of internal/mailer/mailer.go, as the strings that it writes to the builder in turn.
use bit_rot_detector.Base.{
  ℕ, suc, String, ◌<>◌, Bool, true, false, Option, none, some, List, [], ◌∷◌, ◌++◌, ltb, length,
  if◌then◌else◌,
}
use bit_rot_detector.Base.Int.{ℤ}
use bit_rot_detector.Domain.{DriveHealth}
use bit_rot_detector.Mailer.{
  Formats, SyncEntry, ScrubEntry, has_bit_rot, header, line_width, format_duration, format_bytes,
}

-- A section that is written only if a list is not empty.
abbrev pub section_if : Bool → List String → List String
section_if true lines = lines
section_if false lines = []

module _ (f : Formats) where
  open f use {itoa, itoa_ℤ, pad_4, pad_20, percent}

  -- A size, or the text of a panic.
  abbrev size : ℕ → String
  size b = elim (format_bytes f b) [ none ↦ "index out of range" | some s ↦ s ]

  abbrev temperature : Option ℤ → String
  temperature none = "N/A"
  temperature (some t) = itoa_ℤ t <> "°C"

  abbrev percentage : ℕ → ℕ → String
  percentage used total = if ltb 0 total then percent used total else "0"

  health_lines : List DriveHealth → List String
  health_lines [] = []
  health_lines (h ∷ healths) =
      ("  "
        <> pad_20 (h.drive_name <> ":")
        <> " "
        <> size h.used_space
        <> " / "
        <> size h.total_space
        <> " ("
        <> percentage h.used_space h.total_space
        <> "%)  Temp: "
        <> temperature h.temperature
        <> "  SMART: "
        <> h.smart_status
        <> "\n")
      ∷ health_lines healths

  -- A corrupted file, with its number from 1.
  abbrev pub corrupted_line : ℕ → String → String
  corrupted_line i p = "  " <> pad_4 i <> ". " <> p <> "\n"

  unfoldable pub corrupted_lines : ℕ → List String → List String
  corrupted_lines i [] = []
  corrupted_lines i (p ∷ paths) = corrupted_line i p ∷ corrupted_lines (suc i) paths

  unfoldable pub alert_lines : List ScrubEntry → List String
  unfolding corrupted_lines
  alert_lines [] = []
  alert_lines ((drive, r) ∷ entries) =
      section_if (ltb 0 (length r.files_corrupted))
        (("Drive: " <> drive <> "\n") ∷ (corrupted_lines 1 r.files_corrupted ++ ("\n" ∷ [])))
      ++ alert_lines entries

  abbrev pub advice : List String
  advice =
      "Recommended actions:\n" ∷ "  1. Restore corrupted files from your most recent backup\n"
      ∷ "  2. Verify storage hardware integrity\n"
      ∷ "  3. Run a full disk check (fsck / chkdsk)\n\n" ∷ []

  abbrev pub error_line : ℕ → String → String
  error_line i e = "  " <> itoa i <> ". " <> e <> "\n"

  unfoldable pub error_lines : ℕ → List String → List String
  error_lines i [] = []
  error_lines i (e ∷ errors) = error_line i e ∷ error_lines (suc i) errors

  abbrev drive_line : Bool → String → List String
  drive_line many drive = section_if many (("Drive: " <> drive <> "\n") ∷ [])

  abbrev errors_line : List String → List String
  errors_line errors =
      section_if (ltb 0 (length errors)) (("  Errors:    " <> itoa (length errors) <> "\n") ∷ [])

  sync_lines : Bool → List SyncEntry → List String
  sync_lines many [] = []
  sync_lines many ((drive, r) ∷ entries) =
      drive_line many drive
      ++ (("  Scanned:   " <> itoa r.files_scanned <> "\n")
          ∷ ("  Added:     " <> itoa r.files_added <> "\n")
          ∷ ("  Modified:  " <> itoa r.files_modified <> "\n")
          ∷ ("  Moved:     " <> itoa r.files_moved <> "\n")
          ∷ ("  Removed:   " <> itoa r.files_removed <> "\n")
          ∷ errors_line r.errors)
      ++ ("\n" ∷ sync_lines many entries)

  scrub_lines : Bool → List ScrubEntry → List String
  scrub_lines many [] = []
  scrub_lines many ((drive, r) ∷ entries) =
      drive_line many drive
      ++ (("  Validated: " <> itoa r.files_validated <> "\n")
          ∷ ("  Corrupted: " <> itoa (length r.files_corrupted) <> "\n")
          ∷ errors_line r.errors)
      ++ ("\n" ∷ scrub_lines many entries)

  pub opening : String → List DriveHealth → (duration : ℕ) → List String
  unfolding health_lines
  opening st healths duration =
      (header "PROGRAM REPORT"
        ∷ ("Status:    " <> st <> "\n")
        ∷ ("Duration:  " <> format_duration f duration <> "\n")
        ∷ ("Drives:    " <> itoa (length healths) <> "\n\n")
        ∷ [])
      ++ section_if (ltb 0 (length healths))
          (header "DRIVE HEALTH" ∷ (health_lines healths ++ ("\n" ∷ [])))

  abbrev pub alert_section : List ScrubEntry → List String
  alert_section scrubs =
      header "⚠  CRITICAL ALERT – BIT ROT DETECTED" ∷ (alert_lines scrubs ++ advice)

  abbrev pub error_section : List String → List String
  error_section errors = header "ERRORS" ∷ (error_lines 1 errors ++ ("\n" ∷ []))

  pub results : List SyncEntry → List ScrubEntry → List String
  unfolding sync_lines scrub_lines
  results syncs scrubs =
      section_if (ltb 0 (length syncs))
        (header "SYNC RESULTS" ∷ sync_lines (ltb 1 (length syncs)) syncs)
      ++ section_if (ltb 0 (length scrubs))
          (header "SCRUB RESULTS" ∷ scrub_lines (ltb 1 (length scrubs)) scrubs)
      ++ ((line_width <> "\n") ∷ [])

  -- `buildBody`
  unfoldable pub build_body :
      String
      → List SyncEntry
      → List ScrubEntry
      → List DriveHealth
      → List String
      → (duration : ℕ) → List String
  build_body st syncs scrubs healths errors duration =
      opening st healths duration
      ++ (section_if (has_bit_rot scrubs) (alert_section scrubs)
          ++ (section_if (ltb 0 (length errors)) (error_section errors) ++ results syncs scrubs))
