-- ===== src/Config/Tests.antt =====
-- An environment with the defaults and three paths, one of them twice.
use bit_rot_detector.Base.{
  ℕ, true, false, some, [], ◌∷◌, ◌==◌, ◌≡◌, refl, string_eq, ltb, if◌then◌else◌,
}
use bit_rot_detector.Base.Int.{pos}
use bit_rot_detector.Domain.{ok}
use bit_rot_detector.Config.{
  Lookup, Config, env_or_default, add_path, collect_paths, positive, at_most, require, bind,
  load_from, load,
}
use bit_rot_detector.Config.Valid.{IsValid, load-IsValid}

abbrev pub lookup : Lookup
lookup = record {
  Float = ℕ;
  getenv = λ key. if key == "TARGET_DIRECTORY" then "/a,,/b,/a" else "";
  exists = λ p. true;
  split = λ s. "/a" ∷ "" ∷ "/b" ∷ "/a" ∷ [];
  trim = λ s. s;
  lower = λ s. s;
  upper = λ s. s;
  atoi = λ s. (pos (if s == "587" then 587 else 4), false);
  parse_float = λ s. some 10;
  less = ltb;
  lowest = 1;
  highest = 1000;
  quote = λ s. s;
}

abbrev pub defaults : Config ℕ
defaults = record {
  target_paths = "/a" ∷ "/b" ∷ [];
  email = record {
    host = "mail.smtp2go.com";
    port = 587;
    username = "";
    password = "";
    sender = "";
    recipient = "";
    notify_on_success = true;
  };
  scrub_percentage = 10;
  scrub_frequency = "daily";
  max_workers = 4;
  log_level = "INFO";
  log_retention_days = pos 4;
}

pub loads : load lookup ≡ ok defaults
unfolding load load_from collect_paths add_path env_or_default positive at_most require bind
    string_eq
loads = refl

load-IsValid_example : IsValid lookup defaults
load-IsValid_example = load-IsValid lookup defaults loads
