-- ===== src/Domain.antt =====
-- internal/domain: models.go, the data that the components share, and interfaces.go, the interface
-- between the scanner and the database. An error is its message. File sizes are not negative.
pub mod Lawful
use bit_rot_detector.Base.{
  ℕ, String, Bool, List, [], ◌+◌, Option, none, some, ◌==◌, ◌≡◌, ◌⊎◌, inl, inr, refl, ap,
  if◌then◌else◌,
}
use bit_rot_detector.Base.Int.{ℤ, pos, int_eq}
use bit_rot_detector.Base.Moment.{Moment, unix, at_unix}
use bit_rot_detector.Base.Dict.{Dict}

-- A value and a Go error, of which one is nil.
pub data Result {ℓ} (A : Type ℓ) : Type ℓ where
  ok : A → Result A
  err : String → Result A

pub Result-cases {ℓ} :
    {A : Type ℓ} (r : Result A) → ((a : A) × (r ≡ ok a)) ⊎ ((e : String) × (r ≡ err e))
Result-cases (ok a) = inl (a, refl)
Result-cases (err e) = inr (e, refl)

pub ok_inj {ℓ} : {A : Type ℓ} {a b : A} → ok a ≡ ok b → a ≡ b
ok_inj {a} h = ap (λ r. elim r [ ok x ↦ x | err e ↦ a ]) h

pub record FileRecord : Type 0 where
  pub abs_path : String
  pub hash : String
  pub added_at : Moment
  pub last_seen : Moment
  pub last_scrubbed : Option Moment
  pub scrub_count : ℕ
  pub file_size : ℕ
  pub mtime : Moment

pub record SyncResult : Type 0 where
  pub files_scanned : ℕ
  pub files_added : ℕ
  pub files_modified : ℕ
  pub files_moved : ℕ
  pub files_removed : ℕ
  pub errors : List String

pub record ScrubResult : Type 0 where
  pub files_validated : ℕ
  pub files_corrupted : List String
  pub errors : List String

pub record DriveHealth : Type 0 where
  pub drive_name : String
  pub total_space : ℕ
  pub used_space : ℕ
  pub free_space : ℕ
  pub temperature : Option ℤ
  pub smart_status : String
  pub smart_errors : List String
  pub is_rotational : Bool

-- The empty string is the hash that is not known.
pub record WorkItem : Type 0 where
  pub path : String
  pub size : ℕ
  pub mtime : Moment
  pub known_hash : String

-- `hash` carries both `Hash` and `Err`.
pub record WorkResult : Type 0 where
  pub path : String
  pub hash : Result String
  pub size : ℕ
  pub mtime : Moment

pub record RunRecord : Type 0 where
  pub id : ℕ
  pub drive_id : String
  pub drive_name : String
  pub started_at : Moment
  pub duration_ms : ℕ
  pub files_scanned : ℕ
  pub files_added : ℕ
  pub files_modified : ℕ
  pub files_removed : ℕ
  pub files_moved : ℕ
  pub files_validated : ℕ
  pub files_corrupted : ℕ
  pub sync_errors : ℕ
  pub scrub_errors : ℕ

-- The Go interface, over an unknown state. `Float` is the type of a percentage, and a `Moment` is
-- what the method reads from the clock. A method without a result returns its error, if any.
pub record Repository (Float : Type 0) : Type 1 where
  pub State : Type 0
  pub get_all_files : State → Result (Dict FileRecord)
  pub upsert_file : Moment → FileRecord → State → Option String × State
  pub delete_file : String → State → Option String × State
  pub get_files_for_scrub : Moment → Float → Option ℕ → State → Result (List FileRecord)
  pub update_scrub_status : Moment → String → State → Option String × State
  pub compute_checksum : State → Result String
  pub commit : State → Option String × State
  pub rollback : State → Option String × State
  pub close : State → Option String × State

-- What a record reads as after it was written at the time `now`: times are kept in whole seconds,
-- and the current time takes the place of a first sighting at the epoch.
abbrev pub stored : Moment → FileRecord → FileRecord
stored now r = record r {
  added_at = at_unix (if unix r.added_at == pos 0 then unix now else unix r.added_at);
  last_seen = at_unix (unix now);
  last_scrubbed = elim r.last_scrubbed [ none ↦ none | some t ↦ some (at_unix (unix t)) ];
  mtime = at_unix (unix r.mtime);
}

-- What a record reads as after a scrub that found it intact.
abbrev pub scrubbed : Moment → FileRecord → FileRecord
scrubbed now r = record r {
  last_scrubbed = some (at_unix (unix now));
  scrub_count = r.scrub_count + 1;
}

abbrev pub no_changes : SyncResult
no_changes = record {
  files_scanned = 0;
  files_added = 0;
  files_modified = 0;
  files_moved = 0;
  files_removed = 0;
  errors = [];
}
