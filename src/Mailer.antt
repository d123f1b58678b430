-- ===== src/Mailer.antt =====
-- internal/mailer/mailer.go. `Formats` names what the source takes from Go's formatting: the digits of a
-- number, the padded forms, and the parts of a duration, which Go computes by float64. A report is the
-- list of the strings written to the builder.
pub mod Session
pub mod Body
pub mod Report
pub mod Sizes
pub mod Tests
use bit_rot_detector.Base.{
  ℕ, suc, zero, ◌+◌, ◌*◌, ◌/◌, ◌%◌, String, ◌<>◌, Bool, true, false, ◌&&◌, Option, none, some, List,
  [], ◌∷◌, ◌++◌, ◌==◌, string_eq, ltb, leb, length, is_none, if◌then◌else◌,
}
use bit_rot_detector.Base.Int.{ℤ}
use bit_rot_detector.Domain.{SyncResult, ScrubResult, DriveHealth}

pub record Config : Type 0 where
  pub host : String
  pub port : ℕ
  pub username : String
  pub password : String
  pub sender : String
  pub recipient : String
  pub notify_on_success : Bool

pub record Formats : Type 0 where
  -- `%d` of a number, and of an integer.
  pub itoa : ℕ → String
  pub itoa_ℤ : ℤ → String
  -- `%4d`, and `%-20s`.
  pub pad_4 : ℕ → String
  pub pad_20 : String → String
  -- `%.1f` of the quotient, and `%.0f` of the percentage.
  pub quotient : ℕ → ℕ → String
  pub percent : ℕ → ℕ → String
  -- `int(d.Hours())`, `int(d.Minutes())` and `int(d.Seconds())` of a duration in nanoseconds.
  pub hours : ℕ → ℕ
  pub minutes : ℕ → ℕ
  pub seconds : ℕ → ℕ

-- A drive and its result: `SyncEntry` and `ScrubEntry`.
abbrev pub SyncEntry : Type 0
SyncEntry = String × SyncResult

abbrev pub ScrubEntry : Type 0
ScrubEntry = String × ScrubResult

-- Whether a drive has corrupted files.
unfoldable pub has_bit_rot : List ScrubEntry → Bool
has_bit_rot [] = false
has_bit_rot ((drive, r) ∷ entries) =
    let rest = has_bit_rot entries in if ltb 0 (length r.files_corrupted) then true else rest

unfoldable pub status : List ScrubEntry → List String → String
unfolding has_bit_rot
status scrubs errors =
    if has_bit_rot scrubs
    then "CRITICAL"
    else if ltb 0 (length errors)
    then "WARNING"
    else "SUCCESS"

pub count_corrupted : List ScrubEntry → ℕ
count_corrupted [] = 0
count_corrupted ((drive, r) ∷ entries) = length r.files_corrupted + count_corrupted entries

abbrev first_scanned : List SyncEntry → ℕ
first_scanned [] = 0
first_scanned ((drive, r) ∷ entries) = r.files_scanned

abbrev first_validated : List ScrubEntry → ℕ
first_validated [] = 0
first_validated ((drive, r) ∷ entries) = r.files_validated

abbrev pub line_width : String
line_width = "========================================"

abbrev pub header : String → String
header title = line_width <> "\n" <> title <> "\n" <> line_width <> "\n"

module _ (f : Formats) where
  open f use {itoa, itoa_ℤ, pad_4, pad_20, quotient, percent, hours, minutes, seconds}

  -- `buildSubject`
  pub build_subject : String → List SyncEntry → List ScrubEntry → List DriveHealth → String
  unfolding count_corrupted
  build_subject st syncs scrubs healths =
      if st == "CRITICAL"
      then "BIT ROT DETECTED – " <> itoa (count_corrupted scrubs) <> " Corrupted File(s)"
      else if st == "WARNING"
      then "Bit Rot Detector – FAILED"
      else if ltb 1 (length healths)
      then "Bit Rot Detector – " <> itoa (length healths) <> " Drives OK"
      else if ltb 0 (length syncs) && ltb 0 (length scrubs)
      then "Bit Rot Detector – Sync + Scrub OK"
      else if ltb 0 (length syncs)
      then "Bit Rot Detector – " <> itoa (first_scanned syncs) <> " Files Synced"
      else "Bit Rot Detector – " <> itoa (first_validated scrubs) <> " Files Validated"

  -- `formatDuration`: the three numbers, and the text.
  pub duration_parts : ℕ → ℕ × ℕ × ℕ
  duration_parts d = (hours d, minutes d % 60, seconds d % 60)

  pub format_duration : ℕ → String
  unfolding duration_parts
  format_duration d =
      let (h, m, s) = duration_parts d in
      if ltb 0 h
      then itoa h <> "h " <> itoa m <> "m " <> itoa s <> "s"
      else if ltb 0 m
      then itoa m <> "m " <> itoa s <> "s"
      else itoa s <> "s"

-- The loop of `formatBytes`, with fuel: the divisor, which wraps, and the exponent.
pub scale : ℕ → ℕ → ℕ → ℕ → ℕ × ℕ
scale zero n div exp = (div, exp)
scale (suc fuel) n div exp =
    let rest = scale fuel (n / 1024) (div * 1024 % 18_446_744_073_709_551_616) (exp + 1) in
    if leb 1024 n then rest else (div, exp)

-- The byte of "KMGTPE"; an index past its end is a panic.
pub unit_at : ℕ → Option String
unit_at zero = some "K"
unit_at (suc zero) = some "M"
unit_at (suc (suc zero)) = some "G"
unit_at (suc (suc (suc zero))) = some "T"
unit_at (suc (suc (suc (suc zero)))) = some "P"
unit_at (suc (suc (suc (suc (suc zero))))) = some "E"
unit_at (suc (suc (suc (suc (suc (suc n)))))) = none

module _ (f : Formats) where
  open f use {itoa, itoa_ℤ, pad_4, pad_20, quotient, percent}

  -- `formatBytes`, for a number below 2 ^ 64: seven rounds are enough.
  pub format_bytes : ℕ → Option String
  unfolding scale unit_at
  format_bytes b =
      if ltb b 1024
      then some (itoa b <> " B")
      else let (div, exp) = scale 7 (b / 1024) 1024 0 in
        elim (unit_at exp) [ none ↦ none | some u ↦ some (quotient b div <> " " <> u <> "B") ]
