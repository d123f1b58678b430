-- ===== src/Api/Stream.antt =====
-- The way of the progress events of one operation: `emitProgress` of internal/scanner/scanner.go puts
-- them in the channel, and in internal/api/server.go the forwarder of `startOperationForPaths` hands
-- them to the hub, and the loop of `handleProgress` writes those of its subscriber to its connection. These
-- goroutines go on in any order, so that a run is a list of their steps.
pub mod Buffers
pub mod Turns
pub mod InOrder
pub mod Tests
use bit_rot_detector.Base.{
  ℕ, Bool, true, false, String, Option, none, some, List, [], ◌∷◌, ◌++◌, ◌==◌, nat_eq, ltb, length,
  if◌then◌else◌,
}
use bit_rot_detector.Api.Hub.{
  ProgressEvent, Subscriber, ProgressHub, new_progress_hub, subscribe, unsubscribe, publish,
}

-- `emitProgress`: without a channel nothing happens, and an event for which there is no room is dropped.
unfoldable pub emit_progress :
    ProgressEvent → Option (List ProgressEvent) → Option (List ProgressEvent)
emit_progress e none = none
emit_progress e (some channel) =
    some (if ltb (length channel) 256 then channel ++ (e ∷ []) else channel)

unfoldable pub buffer_of : ℕ → List Subscriber → Option (List ProgressEvent)
buffer_of k [] = none
buffer_of k ((n, buffer) ∷ subs) =
    let rest = buffer_of k subs in if n == k then some buffer else rest

unfoldable pub set_buffer : ℕ → List ProgressEvent → List Subscriber → List Subscriber
set_buffer k buffer [] = []
set_buffer k buffer ((n, old) ∷ subs) =
    (n, if n == k then buffer else old) ∷ set_buffer k buffer subs

pub record Pipe : Type 0 where
  pub channel : Option (List ProgressEvent)
  pub hub : ProgressHub
  -- What the loop of a subscriber has written.
  pub written : ℕ → List ProgressEvent

-- An operation has begun, and nobody is connected.
abbrev pub opened : Pipe
opened = record { channel = some []; hub = new_progress_hub; written = λ k. [] }

pub data Step : Type 0 where
  -- A call of `emitProgress`.
  emits : ProgressEvent → Step
  -- The forwarder takes an event.
  forwards : Step
  -- A request for the stream, up to the loop.
  connects : Step
  -- The loop of a subscriber takes an event; the write may fail.
  writes : ℕ → (fails : Bool) → Step
  -- The context of the request is done.
  leaves : ℕ → Step

-- A receive from an empty channel waits.
unfoldable pub forward : Option (List ProgressEvent) → Pipe → Pipe
forward none p = p
forward (some []) p = p
forward (some (e ∷ rest)) p = record p { channel = some rest; hub = publish e p.hub }

abbrev pub add_written : ℕ → ProgressEvent → (ℕ → List ProgressEvent) → ℕ → List ProgressEvent
add_written k e written j = if j == k then written j ++ (e ∷ []) else written j

-- One turn of the loop of `handleProgress`: a failed write ends it.
unfoldable pub write_next : ℕ → Bool → Option (List ProgressEvent) → Pipe → Pipe
write_next k fails none p = p
write_next k fails (some []) p = p
write_next k true (some (e ∷ rest)) p = record p { hub = unsubscribe k p.hub }
write_next k false (some (e ∷ rest)) p = record p {
  hub = record (p.hub) { subs = set_buffer k rest (p.hub).subs };
  written = add_written k e p.written;
}

unfoldable pub step : Step → Pipe → Pipe
step (emits e) p = record p { channel = emit_progress e p.channel }
step forwards p = forward p.channel p
step connects p = record p { hub = (subscribe p.hub).1 }
step (writes k fails) p = write_next k fails (buffer_of k (p.hub).subs) p
step (leaves k) p = record p { hub = unsubscribe k p.hub }

unfoldable pub steps : List Step → Pipe → Pipe
steps [] p = p
steps (s ∷ rest) p = steps rest (step s p)
