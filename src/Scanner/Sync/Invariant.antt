-- ===== src/Scanner/Sync/Invariant.antt =====
-- What holds in every state of a run of `SyncDirectory` in which the context is not cancelled.
use bit_rot_detector.Base.{
  String, false, Option, none, some, ◌≡◌, ◌≢◌, ◌⊎◌, string_eq, List, [], ◌∷◌, All,
}
use bit_rot_detector.Base.Moment.{Moment}
use bit_rot_detector.Base.Dict.{Dict, lookup, insert}
use bit_rot_detector.Domain.{Result, ok, FileRecord, Repository}
use bit_rot_detector.Domain.Lawful.{IsLawful}
use bit_rot_detector.Scanner.Walk.{Stamp, WalkEvent, failed, found}
use bit_rot_detector.Scanner.Classify.{work_item, compute}
use bit_rot_detector.Scanner.Sync.{State, Choice, cancels}
use bit_rot_detector.Scanner.Sync.Pending.{Waiting}
use bit_rot_detector.Scanner.Sync.Effect.{Written}

-- `seenFiles` after the events.
abbrev pub on_disk : List WalkEvent → Dict Stamp → Dict Stamp
on_disk [] seen = seen
on_disk (failed message ∷ events) seen = on_disk events seen
on_disk (found path stamp ∷ events) seen = on_disk events (insert path stamp seen)

-- No path is found twice.
abbrev pub Distinct : List WalkEvent → Dict Stamp → Type 0
Distinct [] seen = Unit
Distinct (failed message ∷ events) seen = Distinct events seen
Distinct (found path stamp ∷ events) seen =
    (lookup path seen ≡ none) × Distinct events (insert path stamp seen)

-- The context is cancelled by none of the choices.
abbrev pub Uncancelled : List Choice → Type 0
Uncancelled = All (λ c. c ≢ cancels)

module _ {Float : Type 0} {R : Repository Float} (L : IsLawful R) (Good : R.State → Type 0)
    (hash_of : String → Result String) (added_now seen_now : String → Moment)
    (db_files : Dict FileRecord) where
  -- The row is as the collector leaves it, unless the file cannot be hashed.
  abbrev pub Settled : String → Stamp → Option FileRecord → Type 0
  Settled p stamp row =
      let res = compute hash_of (work_item db_files p stamp) in
      (hash : String) → res.hash ≡ ok hash → Written db_files added_now seen_now res hash row

  pub record Inv (events : List WalkEvent) (s : State R) : Type 0 where
    pub good : Good s.repo
    pub uncancelled : s.cancelled ≡ false
    pub alive : s.aborted ≡ false
    pub walking : s.walk_err ≡ none
    pub ahead : on_disk s.todo s.seen ≡ on_disk events []
    pub distinct : Distinct s.todo s.seen
    pub sent :
        All
          (λ w.
            (stamp : Stamp) × (lookup w.path s.seen ≡ some stamp)
            × (w ≡ work_item db_files w.path stamp))
          s.pending
    pub settled :
        (p : String) (stamp : Stamp)
        → lookup p s.seen ≡ some stamp
        → Waiting p s.pending ⊎ Settled p stamp (L.row s.repo p)
    pub unseen :
        (p : String)
        → lookup p s.seen ≡ none
        → (L.row s.repo p ≡ lookup p db_files) ⊎ (L.row s.repo p ≡ none)
