-- ===== src/Mailer/Session.antt =====
-- `send` of internal/mailer/mailer.go: the SMTP session, as the list of the commands that the server
-- sees, in their order, with the error. `Smtp` is what the server and the network answer. The deferred
-- `Close` of the client is left out.
use bit_rot_detector.Base.{
  String, ◌<>◌, Bool, true, false, Option, none, some, List, [], ◌∷◌, ◌==◌, ◌≡◌, refl, string_eq,
  if◌then◌else◌, if_ind,
}
use bit_rot_detector.Mailer.{Config, Formats}

pub data Command : Type 0 where
  starttls auth mail_from rcpt_to data_start end_of_data : Command
  body : String → Command

pub record Smtp : Type 0 where
  pub has_starttls : Bool
  pub dial_fails : Option String
  -- What a command is refused with, if it is.
  pub refuses : Command → Option String

abbrev Sent : Type 0
Sent = Option String × List Command

-- A command, its error under its prefix, and what follows if there is none.
issue : Smtp → Command → String → Sent → Sent
issue srv c prefix (e, rest) = elim (srv.refuses c) [
  | some message ↦ (some (prefix <> message), c ∷ [])
  | none ↦ (e, c ∷ rest)
]

-- From `MAIL FROM` on. The error of the last `Close` is returned as it is.
envelope : Smtp → String → Sent
unfolding issue
envelope srv msg = issue srv mail_from "smtp MAIL FROM: " (
    issue srv rcpt_to "smtp RCPT TO: " (
      issue srv data_start "smtp DATA: "
        (issue srv (body msg) "smtp write body: " (issue srv end_of_data "" (none, [])))))

login : Smtp → Config → String → Sent
unfolding issue envelope
login srv cfg msg =
    if cfg.username == "" then envelope srv msg else issue srv auth "smtp auth: " (envelope srv msg)

-- With or without an encrypted connection.
secure : Bool → Smtp → Config → String → Sent
unfolding login issue envelope
secure true srv cfg msg = issue srv starttls "starttls: " (login srv cfg msg)
secure false srv cfg msg = if cfg.username == "" then envelope srv msg else (
  some (
      "smtp: server " <> cfg.host
      <> " does not support STARTTLS; refusing to send credentials in plaintext"),
  [],
)

message : Config → String → String → String
message cfg subject text =
    "From: " <> cfg.sender <> "\r\nTo: " <> cfg.recipient <> "\r\nSubject: " <> subject
    <> "\r\nMIME-Version: 1.0\r\nContent-Type: text/plain; charset=utf-8\r\n\r\n" <> text

-- `send`
pub send : Smtp → Config → String → String → Option String × List Command
unfolding secure message
send srv cfg subject text = elim srv.dial_fails [
  | some e ↦ (some ("smtp dial: " <> e), [])
  | none ↦ secure srv.has_starttls srv cfg (message cfg subject text)
]

-- `SendTestEmail`
pub send_test_email : Formats → Smtp → Config → Option String × List Command
send_test_email f srv cfg = send srv cfg "Bit Rot Detector – Test Email" (
    "This is a test email from Bit Rot Detector.\n\nIf you received this, your SMTP configuration is working correctly.\n\n  SMTP Host:  "
    <> cfg.host
    <> "\n  SMTP Port:  "
    <> f.itoa cfg.port
    <> "\n  Sender:     "
    <> cfg.sender
    <> "\n  Recipient:  "
    <> cfg.recipient
    <> "\n")

-- The credentials are sent only after the connection was encrypted with the server's consent.
abbrev pub IsPrivate : Smtp → Bool → List Command → Type 0
IsPrivate srv safe [] = Unit {0}
IsPrivate srv safe (starttls ∷ rest) = IsPrivate srv true rest
IsPrivate srv safe (auth ∷ rest) =
    (safe ≡ true)
    × (srv.has_starttls ≡ true)
    × (srv.refuses starttls ≡ none)
    × IsPrivate srv safe rest
IsPrivate srv safe (mail_from ∷ rest) = IsPrivate srv safe rest
IsPrivate srv safe (rcpt_to ∷ rest) = IsPrivate srv safe rest
IsPrivate srv safe (data_start ∷ rest) = IsPrivate srv safe rest
IsPrivate srv safe (end_of_data ∷ rest) = IsPrivate srv safe rest
IsPrivate srv safe (body msg ∷ rest) = IsPrivate srv safe rest

issue-IsPrivate :
    (srv : Smtp) (c : Command) (prefix : String) (sent : Sent) (safe : Bool)
    → IsPrivate srv safe (c ∷ [])
    → (srv.refuses c ≡ none → IsPrivate srv safe (c ∷ sent.1))
    → IsPrivate srv safe (issue srv c prefix sent).1
unfolding issue
issue-IsPrivate srv c prefix (e, rest) safe alone whole = go (srv.refuses c) refl
  where
    go :
        (o : Option String)
        → srv.refuses c ≡ o
        → IsPrivate srv safe
            (elim o as (λ _. Option String × List Command) [
              | some m ↦ (some (prefix <> m), c ∷ [])
              | none ↦ (e, c ∷ rest)
            ]).1
    go none works = whole works
    go (some m) fails = alone

envelope-IsPrivate :
    (srv : Smtp) (msg : String) (safe : Bool) → IsPrivate srv safe (envelope srv msg).1
unfolding envelope
envelope-IsPrivate srv msg safe = issue-IsPrivate srv mail_from _ _ safe tt (λ _.
    issue-IsPrivate srv rcpt_to _ _ safe tt (λ _. issue-IsPrivate srv data_start _ _ safe tt (λ _.
      issue-IsPrivate srv (body msg) _ _ safe tt
        (λ _. issue-IsPrivate srv end_of_data "" (none, []) safe tt (λ _. tt)))))

-- Whatever the server answers, `send` sends the credentials only after `STARTTLS` was offered and
-- accepted.
pub send-IsPrivate :
    (srv : Smtp) (cfg : Config) (subject text : String)
    → IsPrivate srv false (send srv cfg subject text).1
unfolding send secure login
send-IsPrivate srv cfg subject text = dialled srv.dial_fails
  where
    msg : String
    msg = message cfg subject text

    secured : (b : Bool) → srv.has_starttls ≡ b → IsPrivate srv false (secure b srv cfg msg).1
    secured true offered = issue-IsPrivate srv starttls _ _ false tt (λ agreed.
        if_ind (λ (s : Sent). IsPrivate srv true s.1) (cfg.username == "")
          (envelope-IsPrivate srv msg true)
          (issue-IsPrivate srv auth _ _ true (refl, offered, agreed, tt)
            (λ _. (refl, offered, agreed, envelope-IsPrivate srv msg true))))
    secured false refused =
        if_ind (λ (s : Sent). IsPrivate srv false s.1) (cfg.username == "")
          (envelope-IsPrivate srv msg false) tt

    dialled :
        (o : Option String)
        → IsPrivate srv false
            (elim o as (λ _. Option String × List Command) [
              | some e ↦ (some ("smtp dial: " <> e), [])
              | none ↦ secure srv.has_starttls srv cfg msg
            ]).1
    dialled (some e) = tt
    dialled none = secured srv.has_starttls refl
