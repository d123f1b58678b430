-- ===== src/Config.antt =====
-- internal/config/config.go. `Lookup` stands for what `Load` takes from Go's library and from the
-- process: the environment, where an unset variable is "", the file system, and the parsers.
pub mod Paths
pub mod Valid
pub mod Tests
use bit_rot_detector.Base.{
  ℕ, String, ◌<>◌, Bool, true, false, not, ◌&&◌, ◌||◌, Option, none, some, List, [], ◌∷◌, ◌++◌,
  ◌==◌, string_eq, ltb, contains, if◌then◌else◌,
}
use bit_rot_detector.Base.Int.{ℤ, pos, negsuc}
use bit_rot_detector.Domain.{Result, ok, err}
use bit_rot_detector.Mailer

pub record Lookup : Type 1 where
  pub Float : Type 0
  -- `os.Getenv`, and whether `os.Stat` returns no error.
  pub getenv : String → String
  pub exists : String → Bool
  -- `strings.Split` at the commas, `strings.TrimSpace`, `strings.ToLower`, `strings.ToUpper`.
  pub split : String → List String
  pub trim : String → String
  pub lower : String → String
  pub upper : String → String
  -- `strconv.Atoi`, with the value that it returns beside an error, and whether there is one.
  pub atoi : String → ℤ × Bool
  -- `strconv.ParseFloat`, without the value beside an error; `<`, 0.1 and 100.0.
  pub parse_float : String → Option Float
  pub less : Float → Float → Bool
  pub lowest : Float
  pub highest : Float
  -- `%q`
  pub quote : String → String

pub record Config (Float : Type 0) : Type 0 where
  pub target_paths : List String
  pub email : Mailer.Config
  pub scrub_percentage : Float
  pub scrub_frequency : String
  pub max_workers : ℕ
  pub log_level : String
  pub log_retention_days : ℤ

-- A number of at least 1, from what `Atoi` returns.
unfoldable pub positive : ℤ × Bool → Option ℕ
positive (n, true) = none
positive (negsuc n, false) = none
positive (pos n, false) = if ltb n 1 then none else some n

unfoldable pub at_most : ℕ → Option ℕ → Option ℕ
at_most top none = none
at_most top (some n) = if ltb top n then none else some n

abbrev pub one_of : (String → Bool) → String → Option String
one_of valid s = if valid s then some s else none

abbrev pub some_of : List String → Option (List String)
some_of [] = none
some_of (p ∷ paths) = some (p ∷ paths)

-- `Load` goes on with the value, or returns the error.
unfoldable pub require {ℓ κ} :
    {A : Type ℓ} → {B : Type κ} → Option A → String → (A → Result B) → Result B
require none message continue = err message
require (some a) message continue = continue a

unfoldable pub bind {ℓ κ} : {A : Type ℓ} → {B : Type κ} → Result A → (A → Result B) → Result B
bind (err e) continue = err e
bind (ok a) continue = continue a

module _ (go : Lookup) where
  open go use {
    getenv, exists, split, trim, lower, upper, atoi, parse_float, less, lowest, highest, quote,
  }

  -- `envOrDefault`
  unfoldable pub env_or_default : String → String → String
  env_or_default key default = let v = getenv key in if v == "" then default else v

  -- The paths with one more, if it is new. `seen` of the source holds these paths.
  unfoldable pub add_path : List String → String → List String
  add_path paths p = if p == "" || contains paths p then paths else paths ++ (p ∷ [])

  -- The loop over the parts of `TARGET_DIRECTORY`.
  unfoldable pub collect_paths : List String → List String → Result (List String)
  unfolding add_path
  collect_paths [] paths = ok paths
  collect_paths (raw ∷ raws) paths =
      let p = trim raw in
      let rest = collect_paths raws (add_path paths p) in
      if p == ""
      then rest
      else if exists p
      then rest
      else err ("target directory does not exist: " <> p)

  abbrev pub is_frequency : String → Bool
  is_frequency s = s == "daily" || s == "weekly" || s == "monthly"

  abbrev pub is_log_level : String → Bool
  is_log_level s = s == "DEBUG" || s == "INFO" || s == "WARN" || s == "WARNING" || s == "ERROR"

  abbrev pub within : Option go.Float → Option go.Float
  within none = none
  within (some x) = if less x lowest || less highest x then none else some x

  abbrev email : ℕ → Mailer.Config
  email smtp_port = record {
    host = env_or_default "SMTP_HOST" "mail.smtp2go.com";
    port = smtp_port;
    username = getenv "SMTP_USERNAME";
    password = getenv "SMTP_PASSWORD";
    sender = getenv "SMTP_SENDER";
    recipient = getenv "SMTP_RECIPIENT";
    notify_on_success = lower (env_or_default "NOTIFY_ON_SUCCESS" "true") == "true";
  }

  -- `Load`, of the value of `TARGET_DIRECTORY`.
  unfoldable pub load_from : String → Result (Config go.Float)
  load_from dirs =
      let port_text = env_or_default "SMTP_PORT" "587" in
      let freq = lower (env_or_default "SCRUB_FREQUENCY" "daily") in
      let level = upper (env_or_default "LOG_LEVEL" "INFO") in
      bind (collect_paths (split dirs) []) (λ paths.
        require (some_of paths) "TARGET_DIRECTORY contains no valid paths" (λ target_paths.
          require (at_most 65_535 (positive (atoi port_text)))
            ("SMTP_PORT must be a valid port number (1-65535), got " <> quote port_text)
            (λ smtp_port.
              require (within (parse_float (env_or_default "SCRUB_PERCENTAGE" "1.0")))
                ("SCRUB_PERCENTAGE must be 0.1–100.0, got " <> quote (getenv "SCRUB_PERCENTAGE"))
                (λ pct.
                  require (one_of is_frequency freq)
                    ("SCRUB_FREQUENCY must be daily/weekly/monthly, got " <> quote freq)
                    (λ scrub_freq.
                      require (positive (atoi (env_or_default "MAX_WORKERS" "4")))
                        ("MAX_WORKERS must be >= 1, got " <> quote (getenv "MAX_WORKERS"))
                        (λ workers.
                          require (one_of is_log_level level)
                            ("LOG_LEVEL must be DEBUG/INFO/WARN/ERROR, got " <> quote level)
                            (λ log_level. ok (record {
                              target_paths = target_paths;
                              email = email smtp_port;
                              scrub_percentage = pct;
                              scrub_frequency = scrub_freq;
                              max_workers = workers;
                              log_level = log_level;
                              log_retention_days =
                                  (atoi (env_or_default "LOG_RETENTION_DAYS" "7")).0;
                            }))))))))

  unfoldable pub load : Result (Config go.Float)
  load =
      let dirs = getenv "TARGET_DIRECTORY" in
      if dirs == "" then err "TARGET_DIRECTORY not set" else load_from dirs
