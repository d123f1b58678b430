-- ===== src/Hasher.antt =====
-- internal/hasher/hasher.go. A `Read` is one round of the loop: the error of the context at its start,
-- the bytes that the file gives, and the error beside them. `Blake3` stands for zeebo/blake3.
pub mod Streaming
pub mod Tests
use bit_rot_detector.Base.{
  ℕ, String, ◌<>◌, Bool, true, false, Option, none, some, List, [], ◌∷◌, ltb, length, if◌then◌else◌,
}
use bit_rot_detector.Domain.{Result, ok, err}

pub record Blake3 : Type 1 where
  pub State : Type 0
  pub new : State
  pub write : State → List ℕ → Result State
  -- The digest in hexadecimal digits.
  pub sum : State → String

pub data ReadError : Type 0 where
  nil eof : ReadError
  failure : String → ReadError

pub record Read : Type 0 where
  pub cancelled : Option String
  pub bytes : List ℕ
  pub error : ReadError

module _ (b : Blake3) (path : String) where
  -- `Write` of what was read.
  unfoldable pub write_some : b.State → List ℕ → Result b.State
  write_some s bytes = if ltb 0 (length bytes) then b.write s bytes else ok s

  -- What the errors of a round say about the rest of the loop. No result means that the loop goes on
  -- after the last round given.
  abbrev pub after_read :
      ReadError → Result b.State → Option (Result String) → Option (Result String)
  after_read e (err m) rest = some (err ("hash write: " <> m))
  after_read eof (ok s) rest = some (ok (b.sum s))
  after_read nil (ok s) rest = rest
  after_read (failure m) (ok s) rest = some (err ("read " <> path <> ": " <> m))

  -- The loop of `ComputeHash`.
  unfoldable pub read_loop : List Read → b.State → Option (Result String)
  read_loop [] s = none
  read_loop (r ∷ reads) s =
      let written = write_some s r.bytes in
      let next : b.State = elim written [ ok t ↦ t | err m ↦ s ] in
      let rest = read_loop reads next in
      elim r.cancelled [ some e ↦ some (err e) | none ↦ after_read r.error written rest ]

  -- `ComputeHash`; `opening` is an error of `os.Open`.
  unfoldable pub compute_hash : Option String → List Read → Option (Result String)
  compute_hash (some e) reads = some (err ("open " <> path <> ": " <> e))
  compute_hash none reads = read_loop reads b.new
