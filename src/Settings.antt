-- ===== src/Settings.antt =====
-- internal/settings/settings.go: the settings in memory and in their file, whose content is the settings
-- that it encodes, or a text that is no encoding of settings.
use bit_rot_detector.Base.{
  String, Bool, true, false, Option, none, some, ◌==◌, ◌≡◌, refl, arith, string_eq, if◌then◌else◌,
}
use bit_rot_detector.Base.Int.{ℤ, pos}

pub record DiskThresholds : Type 0 where
  pub warn_percent : ℤ
  pub error_percent : ℤ

pub record NotificationRules : Type 0 where
  pub on_success : Bool
  pub on_warning : Bool
  pub on_corruption : Bool
  pub on_error : Bool

pub record Settings : Type 0 where
  pub disk_thresholds : DiskThresholds
  pub notification_rules : NotificationRules

-- `DefaultSettings`
abbrev pub default_settings : Settings
default_settings = record {
  disk_thresholds = record { warn_percent = pos 75; error_percent = pos 90 };
  notification_rules = record {
    on_success = false;
    on_warning = true;
    on_corruption = true;
    on_error = true;
  };
}

pub record Store : Type 0 where
  pub settings : Settings
  pub file_path : String

-- A file: it cannot be read, is no encoding, or encodes settings.
pub data File : Type 0 where
  missing garbled : File
  encoded : Settings → File

-- `New`
pub new : String → File → Store
new path file =
    let s : Store = record { settings = default_settings; file_path = path } in
    if path == ""
    then s
    else elim file [ missing ↦ s | garbled ↦ s | encoded loaded ↦ record s { settings = loaded } ]

-- `Get`
pub get : Store → Settings
get s = s.settings

-- `Set`: the error, the store and the file. `fails` is an error of writing, which leaves `torn`.
pub set :
    (fails : Option String) → (torn : File) → Settings → Store → File → Option String × Store × File
set fails torn v s file =
    let t = record s { settings = v } in
    if s.file_path == ""
    then (none, t, file)
    else elim fails [ none ↦ (none, t, encoded v) | some e ↦ (some e, t, torn) ]

-- Whatever writing the file answers, the settings in memory are the new ones after `Set`. If `Set`
-- returns no error on a store with a file, a store that a restart makes of that file has them too.
pub set-new :
    (fails : Option String) (torn : File) (v : Settings) (s : Store) (file : File)
    → let (e, t, after) = set fails torn v s file in
      (get t ≡ v) × (e ≡ none → (s.file_path == "") ≡ false → get (new s.file_path after) ≡ v)
unfolding set get new
set-new fails torn v s file = saved (s.file_path == "") fails
  where
    saved :
        (b : Bool) (o : Option String)
        → let (e, t, after) =
            if b
            then (none, record s { settings = v }, file)
            else elim o as (λ _. Option String × Store × File) [
              | none ↦ (none, record s { settings = v }, encoded v)
              | some e ↦ (some e, record s { settings = v }, torn)
            ] in
          (t.settings ≡ v)
          × (e ≡ none
              → b ≡ false
              → (if b
                  then record { settings = default_settings; file_path = s.file_path }
                  else elim after as (λ _. Store) [
                    | missing ↦ record { settings = default_settings; file_path = s.file_path }
                    | garbled ↦ record { settings = default_settings; file_path = s.file_path }
                    | encoded loaded ↦ record { settings = loaded; file_path = s.file_path }
                  ]).settings
                ≡ v)
    saved true o = (refl, λ e k. absurd (ground (arith, k)))
    saved false none = (refl, λ e k. refl)
    saved false (some m) = (refl, λ e k. absurd (ground (arith, e)))
