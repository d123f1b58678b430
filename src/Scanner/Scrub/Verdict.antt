-- ===== src/Scanner/Scrub/Verdict.antt =====
-- A judgement of each file on its own, against which internal/scanner/scanner.go's `ScrubFiles` is
-- measured.

use bit_rot_detector.Base.{
  suc, ◌+◌, String, ◌<>◌, Bool, List, [], ◌∷◌, ◌++◌, ◌==◌, ◌≡◌, refl, arith, length, string_eq,
  if◌then◌else◌,
}
use bit_rot_detector.Domain.{Result, ok, err, FileRecord}

-- What there is to say of a file whose record is selected.
pub data Verdict : Type 0 where
  intact rotten : Verdict
  unread : String → Verdict

abbrev pub intact_path : String → Verdict → List String
intact_path p intact = p ∷ []
intact_path p rotten = []
intact_path p (unread m) = []

abbrev pub rotten_path : String → Verdict → List String
rotten_path p intact = []
rotten_path p rotten = p ∷ []
rotten_path p (unread m) = []

abbrev pub unread_message : Verdict → List String
unread_message intact = []
unread_message rotten = []
unread_message (unread m) = m ∷ []

module _ (missing : String → Bool) (hash_of : String → Result String) where
  unfoldable pub judge_hash : FileRecord → Result String → Verdict
  judge_hash r (err message) = unread ("hash " <> r.abs_path <> ": " <> message)
  judge_hash r (ok hash) = if hash == r.hash then intact else rotten

  unfoldable pub verdict : FileRecord → Verdict
  unfolding judge_hash
  verdict r =
      if missing r.abs_path
      then unread ("not found: " <> r.abs_path)
      else judge_hash r (hash_of r.abs_path)

  -- The paths of the intact files, those of the rotten ones, and the errors of the others.
  unfoldable pub intact_in : List FileRecord → List String
  unfolding verdict
  intact_in [] = []
  intact_in (r ∷ files) = intact_path r.abs_path (verdict r) ++ intact_in files

  unfoldable pub rotten_in : List FileRecord → List String
  unfolding verdict
  rotten_in [] = []
  rotten_in (r ∷ files) = rotten_path r.abs_path (verdict r) ++ rotten_in files

  unfoldable pub unread_in : List FileRecord → List String
  unfolding verdict
  unread_in [] = []
  unread_in (r ∷ files) = unread_message (verdict r) ++ unread_in files

  pub judged :
      (files : List FileRecord)
      → length (intact_in files) + length (rotten_in files) + length (unread_in files)
        ≡ length files
  unfolding intact_in rotten_in unread_in
  judged [] = refl
  judged (r ∷ files) = go (verdict r) (judged files)
    where
      go :
          (v : Verdict)
          → length (intact_in files) + length (rotten_in files) + length (unread_in files)
            ≡ length files
          → length (intact_path r.abs_path v ++ intact_in files)
              + length (rotten_path r.abs_path v ++ rotten_in files)
              + length (unread_message v ++ unread_in files)
            ≡ suc (length files)
      go intact h = omega (arith, h)
      go rotten h = omega (arith, h)
      go (unread m) h = omega (arith, h)
