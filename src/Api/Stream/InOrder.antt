-- ===== src/Api/Stream/InOrder.antt =====
-- The events that internal/api/server.go streams come in order, none of them twice.
use mathlib.Core.List.{Sublist, nil-sublist}
use bit_rot_detector.Base.{
  ℕ, ◌≤◌, Bool, true, false, Option, none, some, List, [], ◌∷◌, ◌++◌, ◌≡◌, refl, sym, ap, ◌∙◌,
  subst, arith, nat_eq, length, append_assoc, append-nil,
}
use bit_rot_detector.Api.Hub.{ProgressEvent, subscribe, unsubscribe}
use bit_rot_detector.Api.Stream.{
  Pipe, Step, emits, forwards, connects, writes, leaves, opened, buffer_of, forward, write_next,
  step, steps,
}
use bit_rot_detector.Api.Stream.Buffers.{Holds, Ordered, waiting_in}
use bit_rot_detector.Api.Stream.Turns.{
  emit-Ordered, forward-Ordered, connect-Ordered, leave-Ordered, write-Ordered,
}

-- The events of the calls of `emitProgress`.
pub emitted : List Step → List ProgressEvent
emitted [] = []
emitted (emits e ∷ rest) = e ∷ emitted rest
emitted (forwards ∷ rest) = emitted rest
emitted (connects ∷ rest) = emitted rest
emitted (writes k fails ∷ rest) = emitted rest
emitted (leaves k ∷ rest) = emitted rest

-- The history of one step.
abbrev emitted_by : Step → List ProgressEvent
emitted_by (emits e) = e ∷ []
emitted_by forwards = []
emitted_by connects = []
emitted_by (writes k fails) = []
emitted_by (leaves k) = []

emitted-cons : (s : Step) (rest : List Step) → emitted (s ∷ rest) ≡ emitted_by s ++ emitted rest
unfolding emitted
emitted-cons (emits e) rest = refl
emitted-cons forwards rest = refl
emitted-cons connects rest = refl
emitted-cons (writes k fails) rest = refl
emitted-cons (leaves k) rest = refl

abbrev InOrder : List ProgressEvent → Pipe → Type 0
InOrder history p = Ordered history p.channel p.hub p.written

forward-InOrder :
    (history : List ProgressEvent) (p : Pipe) (o : Option (List ProgressEvent))
    → p.channel ≡ o
    → InOrder history p
    → InOrder history (forward o p)
unfolding forward
forward-InOrder history p none here h = h
forward-InOrder history p (some []) here h = h
forward-InOrder history p (some (e ∷ rest)) here h =
    forward-Ordered p.hub p.written history e rest
      (subst (λ c. Ordered history c p.hub p.written) here h)

write_next-InOrder :
    (history : List ProgressEvent) (k : ℕ) (fails : Bool) (p : Pipe)
    (o : Option (List ProgressEvent))
    → buffer_of k (p.hub).subs ≡ o
    → InOrder history p
    → InOrder history (write_next k fails o p)
unfolding write_next
write_next-InOrder history k fails p none here h = h
write_next-InOrder history k fails p (some []) here h = h
write_next-InOrder history k true p (some (e ∷ rest)) here h =
    leave-Ordered p.hub p.written history k p.channel h
write_next-InOrder history k false p (some (e ∷ rest)) here h =
    write-Ordered p.hub p.written history k e rest p.channel here h

step-InOrder :
    (history : List ProgressEvent) (s : Step) (p : Pipe)
    → InOrder history p
    → InOrder (history ++ emitted_by s) (step s p)
unfolding step
step-InOrder history (emits e) p h = emit-Ordered p.hub p.written history e p.channel h
step-InOrder history forwards p h =
    subst (λ l. InOrder l (forward p.channel p)) (sym (append-nil history))
      (forward-InOrder history p p.channel refl h)
step-InOrder history connects p h =
    subst (λ l. Ordered l p.channel (subscribe p.hub).1 p.written) (sym (append-nil history))
      (connect-Ordered p.hub p.written history p.channel h)
step-InOrder history (writes k fails) p h =
    subst (λ l. InOrder l (write_next k fails (buffer_of k (p.hub).subs) p))
      (sym (append-nil history))
      (write_next-InOrder history k fails p (buffer_of k (p.hub).subs) refl h)
step-InOrder history (leaves k) p h =
    subst (λ l. Ordered l p.channel (unsubscribe k p.hub) p.written) (sym (append-nil history))
      (leave-Ordered p.hub p.written history k p.channel h)

steps-InOrder :
    (history : List ProgressEvent) (xs : List Step) (p : Pipe)
    → InOrder history p
    → InOrder (history ++ emitted xs) (steps xs p)
unfolding steps emitted
steps-InOrder history [] p h = subst (λ l. InOrder l p) (sym (append-nil history)) h
steps-InOrder history (s ∷ rest) p h =
    subst (λ l. InOrder l (steps rest (step s p)))
      (append_assoc history (emitted_by s) (emitted rest)
        ∙ ap (λ l. history ++ l) (sym (emitted-cons s rest)))
      (steps-InOrder (history ++ emitted_by s) rest (step s p) (step-InOrder history s p h))

opened-InOrder : InOrder [] opened
unfolding buffer_of
opened-InOrder = record {
  sent = nil-sublist [];
  held = λ k. tt;
  past = λ k. nil-sublist [];
  fresh = λ k later. (refl, refl);
  room = omega arith;
}

-- Whatever the order of the emissions of an operation, of the steps of the forwarder and of the loops,
-- and of the connections that begin and end: what the loop of a subscriber has written, then what is in
-- its buffer, then what is in the channel, is a subsequence of the events emitted, so that none is
-- written twice or out of order. The buffer has at most 64 events, and the channel at most 256.
pub steps_lem :
    (xs : List Step) (k : ℕ)
    → let p = steps xs opened in
      Sublist (p.written k) (emitted xs)
      × Holds (emitted xs) (p.written k) (waiting_in p.channel) (buffer_of k (p.hub).subs)
      × (length (waiting_in p.channel) ≤ 256)
steps_lem xs k = let h = steps-InOrder [] xs opened opened-InOrder in (h.past k, h.held k, h.room)
