-- ===== src/Mailer/Report.antt =====
-- `SendUnifiedReport` of internal/mailer/mailer.go: whether a mail is sent, and what it says.
use bit_rot_detector.Base.{
  ◌↔◌, length-append, ℕ, suc, ◌+◌, String, ◌<>◌, Bool, true, false, not, ◌&&◌, Option, none, some,
  List, [], ◌∷◌, ◌++◌, ◌==◌, ◌≡◌, ◌≢◌, inl, inr, refl, ap, subst, arith, string_eq, Bool-cases, ltb,
  length, contains, contains-append, ==_refl, if◌then◌else◌,
}
use bit_rot_detector.Domain.{ScrubResult, DriveHealth}
use bit_rot_detector.Mailer.{
  Config, Formats, SyncEntry, ScrubEntry, has_bit_rot, status, build_subject,
}
use bit_rot_detector.Mailer.Body.{
  corrupted_line, corrupted_lines, alert_lines, error_line, error_lines, build_body, section_if,
  opening, alert_section, error_section, results, advice,
}

-- The subject and the strings of the body that are handed to `send`, if a mail is sent.
pub send_unified_report :
    Formats
    → Config
    → List SyncEntry
    → List ScrubEntry
    → List DriveHealth
    → List String
    → (duration : ℕ) → Option (String × List String)
send_unified_report f cfg syncs scrubs healths errors duration =
    let st = status scrubs errors in
    if st == "SUCCESS" && not cfg.notify_on_success
    then none
    else some (
      build_subject f st syncs scrubs healths,
      build_body f st syncs scrubs healths errors duration,
    )

pub has_bit_rot-entry :
    (before after : List ScrubEntry) (drive : String) (r : ScrubResult) (ps qs : List String)
    (p : String)
    → r.files_corrupted ≡ ps ++ (p ∷ qs)
    → has_bit_rot (before ++ ((drive, r) ∷ after)) ≡ true
unfolding has_bit_rot
has_bit_rot-entry [] after drive r ps qs p e =
    ground (arith, ap length e, length-append ps (p ∷ qs))
has_bit_rot-entry (x ∷ before) after drive r ps qs p e =
    ground (arith, has_bit_rot-entry before after drive r ps qs p e)

contains-corrupted_lines :
    (f : Formats) (i k : ℕ) (ps qs : List String) (p : String)
    → k ≡ i + length ps
    → contains (corrupted_lines f i (ps ++ (p ∷ qs))) (corrupted_line f k p) ≡ true
unfolding corrupted_lines
contains-corrupted_lines f i k [] qs p h =
    subst (λ n. contains (corrupted_lines f i (p ∷ qs)) (corrupted_line f n p) ≡ true) {x = i}
      (omega (arith, h)) (ground (arith, ==_refl (corrupted_line f i p)))
contains-corrupted_lines f i k (q ∷ ps) qs p h =
    ground (arith, contains-corrupted_lines f (suc i) k ps qs p (omega (arith, h)))

-- What a section holds, the text with it holds if its list is not empty.
contains-section :
    (b : Bool) (xs ys : List String) (a : String)
    → b ≡ true
    → contains xs a ≡ true
    → contains (section_if b xs ++ ys) a ≡ true
contains-section true xs ys a on h = contains-append xs ys a (inl h)
contains-section false xs ys a on h = absurd (ground arith)

positive_of_split : (ps qs : List String) (p : String) → ltb 0 (length (ps ++ (p ∷ qs))) ≡ true
positive_of_split ps qs p = ground (arith, length-append ps (p ∷ qs))

contains-alert_lines :
    (f : Formats) (before after : List ScrubEntry) (drive : String) (r : ScrubResult)
    (ps qs : List String) (p : String)
    → r.files_corrupted ≡ ps ++ (p ∷ qs)
    → contains
        (alert_lines f (before ++ ((drive, r) ∷ after)))
        (corrupted_line f (suc (length ps)) p)
      ≡ true
unfolding alert_lines
contains-alert_lines f [] after drive r ps qs p e = rw e (
    contains-section _
      (("Drive: " <> drive <> "\n") ∷ (corrupted_lines f 1 (ps ++ (p ∷ qs)) ++ ("\n" ∷ []))) _ _
      (positive_of_split ps qs p)
      (contains-append (("Drive: " <> drive <> "\n") ∷ []) _ _ (
        inr (
          contains-append (corrupted_lines f 1 (ps ++ (p ∷ qs))) ("\n" ∷ []) _
            (inl (contains-corrupted_lines f 1 (suc (length ps)) ps qs p (omega arith)))))))
contains-alert_lines f ((d, x) ∷ before) after drive r ps qs p e =
    contains-append _ (alert_lines f (before ++ ((drive, r) ∷ after))) _
      (inr (contains-alert_lines f before after drive r ps qs p e))

contains-error_lines :
    (f : Formats) (i k : ℕ) (ps qs : List String) (e : String)
    → k ≡ i + length ps
    → contains (error_lines f i (ps ++ (e ∷ qs))) (error_line f k e) ≡ true
unfolding error_lines
contains-error_lines f i k [] qs e h =
    subst (λ n. contains (error_lines f i (e ∷ qs)) (error_line f n e) ≡ true) {x = i}
      (omega (arith, h)) (ground (arith, ==_refl (error_line f i e)))
contains-error_lines f i k (q ∷ ps) qs e h =
    ground (arith, contains-error_lines f (suc i) k ps qs e (omega (arith, h)))

contains-critical :
    (f : Formats) (st : String) (syncs : List SyncEntry) (scrubs : List ScrubEntry)
    (healths : List DriveHealth) (errors : List String) (duration : ℕ) (line : String)
    → has_bit_rot scrubs ≡ true
    → contains (alert_lines f scrubs) line ≡ true
    → contains (build_body f st syncs scrubs healths errors duration) line ≡ true
unfolding build_body
contains-critical f st syncs scrubs healths errors duration line rot h =
    let failures = section_if (ltb 0 (length errors)) (error_section f errors) in
    let alerts = section_if (has_bit_rot scrubs) (alert_section f scrubs) in
    contains-append (opening f st healths duration) (alerts ++ (failures ++ results f syncs scrubs))
      line
      (inr (
        contains-section (has_bit_rot scrubs) (alert_section f scrubs)
          (failures ++ results f syncs scrubs) line rot
          (ground (arith, contains-append (alert_lines f scrubs) (advice f) line (inl h)))))

contains-failed :
    (f : Formats) (st : String) (syncs : List SyncEntry) (scrubs : List ScrubEntry)
    (healths : List DriveHealth) (errors : List String) (duration : ℕ) (line : String)
    → ltb 0 (length errors) ≡ true
    → contains (error_lines f 1 errors) line ≡ true
    → contains (build_body f st syncs scrubs healths errors duration) line ≡ true
unfolding build_body
contains-failed f st syncs scrubs healths errors duration line some_errors h =
    let failures = section_if (ltb 0 (length errors)) (error_section f errors) in
    let alerts = section_if (has_bit_rot scrubs) (alert_section f scrubs) in
    contains-append (opening f st healths duration) (alerts ++ (failures ++ results f syncs scrubs))
      line
      (inr (
        contains-append alerts (failures ++ results f syncs scrubs) line (
          inr (
            contains-section (ltb 0 (length errors)) (error_section f errors)
              (results f syncs scrubs) line some_errors
              (ground
                (arith, contains-append (error_lines f 1 errors) ("\n" ∷ []) line (inl h)))))))

-- A status that is not "SUCCESS" is reported whatever the configuration says.
send_unified_report-status :
    (f : Formats) (cfg : Config) (syncs : List SyncEntry) (scrubs : List ScrubEntry)
    (healths : List DriveHealth) (errors : List String) (duration : ℕ) (st : String)
    → status scrubs errors ≡ st
    → (st == "SUCCESS") ≡ false
    → send_unified_report f cfg syncs scrubs healths errors duration
      ≡ some (
        build_subject f st syncs scrubs healths,
        build_body f st syncs scrubs healths errors duration,
      )
unfolding send_unified_report
send_unified_report-status f cfg syncs scrubs healths errors duration st is_st bad =
    rw (is_st, bad) refl

status-critical :
    (scrubs : List ScrubEntry) (errors : List String)
    → has_bit_rot scrubs ≡ true
    → status scrubs errors ≡ "CRITICAL"
unfolding status
status-critical scrubs errors rot = rw rot refl

-- If a drive of the report has the corrupted files ps ++ (p ∷ qs), a mail is sent even where mails on
-- success are turned off, its subject is the one of a critical status, and its body has a line with `p`
-- under its number in the drive's list.
pub send_unified_report-corrupted :
    (f : Formats) (cfg : Config) (syncs : List SyncEntry) (before after : List ScrubEntry)
    (drive : String) (r : ScrubResult) (ps qs : List String) (p : String)
    (healths : List DriveHealth) (errors : List String) (duration : ℕ)
    → r.files_corrupted ≡ ps ++ (p ∷ qs)
    → let scrubs = before ++ ((drive, r) ∷ after) in
      (body : List String) × (send_unified_report f cfg syncs scrubs healths errors duration
        ≡ some (build_subject f "CRITICAL" syncs scrubs healths, body))
      × (contains body (corrupted_line f (suc (length ps)) p) ≡ true)
unfolding string_eq
send_unified_report-corrupted f cfg syncs before after drive r ps qs p healths errors duration e =
    let scrubs = before ++ ((drive, r) ∷ after) in
    let rot = has_bit_rot-entry before after drive r ps qs p e in
    (
      _,
      send_unified_report-status f cfg syncs scrubs healths errors duration "CRITICAL"
          (status-critical scrubs errors rot) refl,
      contains-critical f "CRITICAL" syncs scrubs healths errors duration _ rot
          (contains-alert_lines f before after drive r ps qs p e),
    )

status-failed :
    (scrubs : List ScrubEntry) (errors : List String)
    → ltb 0 (length errors) ≡ true
    → (st : String) × (status scrubs errors ≡ st) × ((st == "SUCCESS") ≡ false)
unfolding status string_eq
status-failed scrubs errors h = elim (Bool-cases (has_bit_rot scrubs)) [
  | inl rot ↦ ("CRITICAL", rw rot refl, refl)
  | inr clean ↦ ("WARNING", rw (clean, h) refl, refl)
]

send_unified_report-failed :
    (f : Formats) (cfg : Config) (syncs : List SyncEntry) (scrubs : List ScrubEntry)
    (healths : List DriveHealth) (x : String) (xs : List String) (duration : ℕ)
    → send_unified_report f cfg syncs scrubs healths (x ∷ xs) duration ≢ none
send_unified_report-failed f cfg syncs scrubs healths x xs duration h =
    let (st, is_st, bad) = status-failed scrubs (x ∷ xs) (positive_of_split [] xs x) in
    absurd (
      ground (
        arith,
        send_unified_report-status f cfg syncs scrubs healths (x ∷ xs) duration st is_st bad,
        h,
      ))

-- A mail is withheld exactly if no drive has corrupted files, there is no error, and mails on success
-- are turned off.
pub send_unified_report-withheld :
    (f : Formats) (cfg : Config) (syncs : List SyncEntry) (scrubs : List ScrubEntry)
    (healths : List DriveHealth) (errors : List String) (duration : ℕ)
    → (send_unified_report f cfg syncs scrubs healths errors duration ≡ none)
      ↔ ((has_bit_rot scrubs ≡ false) × (errors ≡ []) × (cfg.notify_on_success ≡ false))
unfolding send_unified_report status string_eq
send_unified_report-withheld f cfg syncs scrubs healths [] duration =
    elim (Bool-cases (has_bit_rot scrubs)) [
      | inl rot ↦ rw rot (grind arith)
      | inr clean ↦ rw clean (grind arith)
    ]
send_unified_report-withheld f cfg syncs scrubs healths (x ∷ xs) duration = (
  λ h. absurd (send_unified_report-failed f cfg syncs scrubs healths x xs duration h),
  λ h. absurd (omega (arith, ap length h.1)),
)

-- If the collected errors are ps ++ (e ∷ qs), a mail is sent, and its body has a line with `e` under its
-- number in the list.
pub send_unified_report-errors :
    (f : Formats) (cfg : Config) (syncs : List SyncEntry) (scrubs : List ScrubEntry)
    (healths : List DriveHealth) (ps qs : List String) (e : String) (duration : ℕ)
    → (subject : String) × (body : List String) × (send_unified_report f cfg syncs scrubs healths
          (ps ++ (e ∷ qs))
          duration
        ≡ some (subject, body))
      × (contains body (error_line f (suc (length ps)) e) ≡ true)
unfolding string_eq
send_unified_report-errors f cfg syncs scrubs healths ps qs e duration =
    let errors = ps ++ (e ∷ qs) in
    let line = error_line f (suc (length ps)) e in
    let some_errors = positive_of_split ps qs e in
    let (st, is_st, bad) = status-failed scrubs errors some_errors in
    (
      _,
      _,
      send_unified_report-status f cfg syncs scrubs healths errors duration st is_st bad,
      contains-failed f st syncs scrubs healths errors duration line some_errors
          (contains-error_lines f 1 (suc (length ps)) ps qs e (omega arith)),
    )
