-- ===== src/Scanner/Classify.antt =====
-- The decisions of internal/scanner/scanner.go that need no state: which hash a worker reports, which
-- older record a new file takes over, and what the collector writes.
use mathlib.Core.Option.{some-injective}
use bit_rot_detector.Base.{
  false, inr, sym, subst, ◌∙◌, ℕ, zero, suc, String, Bool, true, ◌&&◌, Option, none, some, List, [],
  ◌∷◌, ◌==◌, string_eq, nat_eq, if◌then◌else◌, ◌≡◌, ◌≢◌, ◌⊎◌, inl, arith, refl,
}
use bit_rot_detector.Base.Int.{int_eq}
use bit_rot_detector.Base.Moment.{Moment, unix, zero_time}
use bit_rot_detector.Base.Dict.{Dict, lookup, NodupKeys}
use bit_rot_detector.Domain.{Result, ok, FileRecord, WorkItem, WorkResult}
use bit_rot_detector.Scanner.Walk.{Stamp}

-- Size and modification time agree with the stored record, to the second.
unfoldable pub same_stamp : FileRecord → ℕ → Moment → Bool
same_stamp r size mtime = r.file_size == size && unix r.mtime == unix mtime

-- `KnownHash` of a work item.
unfoldable pub known_hash : Dict FileRecord → String → Stamp → String
known_hash db_files path stamp = elim (lookup path db_files) [
  | none ↦ ""
  | some existing ↦ if same_stamp existing stamp.size stamp.mtime then existing.hash else ""
]

unfoldable pub work_item : Dict FileRecord → String → Stamp → WorkItem
work_item db_files path stamp = record {
  path = path;
  size = stamp.size;
  mtime = stamp.mtime;
  known_hash = known_hash db_files path stamp;
}

-- The body of a worker's loop.
unfoldable pub compute : (String → Result String) → WorkItem → WorkResult
compute hash_of w = record {
  path = w.path;
  hash = if w.known_hash == "" then hash_of w.path else ok w.known_hash;
  size = w.size;
  mtime = w.mtime;
}

-- `findMovedFile`: "" if there is no such record.
unfoldable pub find_moved_file : String → ℕ → Moment → Dict FileRecord → Dict Stamp → String
find_moved_file new_path size mtime [] seen = ""
find_moved_file new_path size mtime ((db_path, r) ∷ db_files) seen =
    let rest = find_moved_file new_path size mtime db_files seen in
    if db_path == new_path then rest else elim (lookup db_path seen) [
      | some stamp ↦ rest
      | none ↦ if same_stamp r size mtime then db_path else rest
    ]

-- What the collector writes for a result, before it knows of an older record.
abbrev pub fresh_record : WorkResult → String → FileRecord
fresh_record res hash = record {
  abs_path = res.path;
  hash = hash;
  added_at = zero_time;
  last_seen = zero_time;
  last_scrubbed = none;
  scrub_count = 0;
  file_size = res.size;
  mtime = res.mtime;
}

-- The history that a record takes over from an older one.
abbrev pub inherit : FileRecord → FileRecord → FileRecord
inherit old r = record r {
  added_at = old.added_at;
  last_scrubbed = old.last_scrubbed;
  scrub_count = old.scrub_count;
}

-- One item of those that were sent, and the others.
unfoldable pub pick : ℕ → List WorkItem → Option (WorkItem × List WorkItem)
pick n [] = none
pick zero (w ∷ items) = some (w, items)
pick (suc n) (w ∷ items) = elim (pick n items) [ none ↦ none | some (v, rest) ↦ some (v, w ∷ rest) ]

-- A record that a new file takes over belongs to another path, which the walk has not met yet.
pub find_moved_file-seen :
    (new_path : String) (size : ℕ) (mtime : Moment) (db_files : Dict FileRecord) (seen : Dict Stamp)
    → let m = find_moved_file new_path size mtime db_files seen in
      (m ≡ "") ⊎ ((m ≢ new_path) × (lookup m seen ≡ none) × (lookup m db_files ≢ none))
unfolding find_moved_file lookup
find_moved_file-seen new_path size mtime [] seen = inl refl
find_moved_file-seen new_path size mtime ((db_path, r) ∷ db_files) seen =
    ground (arith, find_moved_file-seen new_path size mtime db_files seen)

-- Its size and modification time are those of the new file.
abbrev Matches : ℕ → Moment → Dict FileRecord → String → Type 0
Matches size mtime db_files m =
    (m ≡ "")
    ⊎ ((old : FileRecord) × (lookup m db_files ≡ some old) × (same_stamp old size mtime ≡ true))

Matches-cons :
    (size : ℕ) (mtime : Moment) (db_path : String) (r : FileRecord) (db_files : Dict FileRecord)
    (m : String)
    → lookup db_path db_files ≡ none
    → Matches size mtime db_files m
    → Matches size mtime ((db_path, r) ∷ db_files) m
unfolding lookup
Matches-cons size mtime db_path r db_files m fresh (inl e) = inl e
Matches-cons size mtime db_path r db_files m fresh (inr (old, listed, same)) =
    inr (old, grind (arith, fresh, listed), same)

find_moved_file-Matches :
    (new_path : String) (size : ℕ) (mtime : Moment) (db_files : Dict FileRecord) (seen : Dict Stamp)
    → NodupKeys db_files
    → Matches size mtime db_files (find_moved_file new_path size mtime db_files seen)
unfolding find_moved_file lookup
find_moved_file-Matches new_path size mtime [] seen uniq = inl refl
find_moved_file-Matches new_path size mtime ((db_path, r) ∷ db_files) seen (fresh, uniq) =
    go (db_path == new_path) (lookup db_path seen) (same_stamp r size mtime) refl
      (find_moved_file-Matches new_path size mtime db_files seen uniq)
  where
    P : String → Type 0
    P = Matches size mtime ((db_path, r) ∷ db_files)

    rest : String
    rest = find_moved_file new_path size mtime db_files seen

    go :
        (b : Bool) (o : Option Stamp) (c : Bool)
        → same_stamp r size mtime ≡ c
        → Matches size mtime db_files rest
        → P (if b then rest else elim o [ some stamp ↦ rest | none ↦ if c then db_path else rest ])
    go true o c e ih = Matches-cons size mtime db_path r db_files rest fresh ih
    go false (some stamp) c e ih = Matches-cons size mtime db_path r db_files rest fresh ih
    go false none false e ih = Matches-cons size mtime db_path r db_files rest fresh ih
    go false none true e ih = inr (r, ground arith, e)

pub find_moved_file-same_stamp :
    (new_path : String) (size : ℕ) (mtime : Moment) (db_files : Dict FileRecord) (seen : Dict Stamp)
    (old : FileRecord)
    → find_moved_file new_path size mtime db_files seen ≢ ""
    → lookup (find_moved_file new_path size mtime db_files seen) db_files ≡ some old
    → NodupKeys db_files
    → same_stamp old size mtime ≡ true
find_moved_file-same_stamp new_path size mtime db_files seen old some_path listed uniq =
    elim (find_moved_file-Matches new_path size mtime db_files seen uniq) [
      | inl e ↦ absurd (some_path e)
      | inr (other, there, same) ↦
          subst (λ r. same_stamp r size mtime ≡ true) (some-injective _ _ (sym there ∙ listed)) same
    ]
