-- ===== src/Api/Stream/Tests.antt =====
-- A subscriber that connects between two events.
use mathlib.Core.List.{Sublist}
use bit_rot_detector.Base.{ℕ, ◌≤◌, false, List, [], ◌∷◌, length}
use bit_rot_detector.Api.Hub.{ProgressEvent}
use bit_rot_detector.Api.Stream.{
  Step, emits, forwards, connects, writes, leaves, opened, buffer_of, steps,
}
use bit_rot_detector.Api.Stream.Buffers.{Holds, waiting_in}
use bit_rot_detector.Api.Stream.InOrder.{emitted, steps_lem}

abbrev walked : ℕ → ProgressEvent
walked n = record { phase = "walk"; drive = "d"; count = n; total = 0; message = "" }

abbrev hour : List Step
hour =
    emits (walked 250)
    ∷ forwards
    ∷ connects
    ∷ emits (walked 500)
    ∷ forwards
    ∷ emits (walked 750)
    ∷ writes 0 false
    ∷ leaves 1
    ∷ []

steps_lem_example :
    let p = steps hour opened in
    Sublist (p.written 0) (emitted hour)
    × Holds (emitted hour) (p.written 0) (waiting_in p.channel) (buffer_of 0 (p.hub).subs)
    × (length (waiting_in p.channel) ≤ 256)
steps_lem_example = steps_lem hour 0
