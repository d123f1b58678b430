-- ===== src/Mailer/Tests.antt =====
-- Small inputs at which the theorems about the mailer apply.
use bit_rot_detector.Base.{
  ℕ, ◌/◌, ◌<◌, ◌≡◌, ◌⊎◌, refl, arith, true, false, none, some, List, [], ◌∷◌, String, ◌<>◌,
  contains, string_eq,
}
use bit_rot_detector.Base.Moment.{second, minute, hour}
use bit_rot_detector.Domain.{ScrubResult}
use bit_rot_detector.Mailer.{Config, Formats, ScrubEntry, build_subject, format_bytes, unit_at}
use bit_rot_detector.Mailer.Session.{Smtp, IsPrivate, send, send-IsPrivate}
use bit_rot_detector.Mailer.Body.{corrupted_line}
use bit_rot_detector.Mailer.Report.{send_unified_report, send_unified_report-corrupted}
use bit_rot_detector.Mailer.Sizes.{Fits, format_bytes_lem}

-- Numbers are printed as a word, and quotients are exact.
abbrev pub words : Formats
words = record {
  itoa = λ _. "n";
  itoa_ℤ = λ _. "n";
  pad_4 = λ _. "   n";
  pad_20 = λ s. s;
  quotient = λ _ _. "q";
  percent = λ _ _. "p";
  hours = λ d. d / hour;
  minutes = λ d. d / minute;
  seconds = λ d. d / second;
}

abbrev account : Config
account = record {
  host = "mail.example.org";
  port = 587;
  username = "user";
  password = "secret";
  sender = "a@example.org";
  recipient = "b@example.org";
  notify_on_success = false;
}

abbrev willing : Smtp
willing = record { has_starttls = true; dial_fails = none; refuses = λ _. none }

send-IsPrivate_example : IsPrivate willing false (send willing account "s" "t").1
send-IsPrivate_example = send-IsPrivate willing account "s" "t"

format_bytes_lem_example :
    ((5000 < 1024) × (format_bytes words 5000 ≡ some (words.itoa 5000 <> " B")))
    ⊎ ((div : ℕ) × (exp : ℕ) × (u : String) × (format_bytes words 5000
          ≡ some (words.quotient 5000 div <> " " <> u <> "B"))
        × (unit_at exp ≡ some u)
        × Fits 5000 (div, exp))
format_bytes_lem_example = format_bytes_lem words 5000 (omega arith)

abbrev rotten : ScrubResult
rotten = record { files_validated = 3; files_corrupted = "a" ∷ "b" ∷ []; errors = [] }

send_unified_report-corrupted_example :
    let scrubs : List ScrubEntry = ("/d", rotten) ∷ [] in
    (body : List String) × (send_unified_report words account [] scrubs [] [] 7
      ≡ some (build_subject words "CRITICAL" [] scrubs [], body))
    × (contains body (corrupted_line words 2 "b") ≡ true)
send_unified_report-corrupted_example =
    send_unified_report-corrupted words account [] [] [] "/d" rotten ("a" ∷ []) [] "b" [] [] 7 refl
