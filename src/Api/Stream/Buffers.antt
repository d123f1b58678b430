-- ===== src/Api/Stream/Buffers.antt =====
-- The buffers of the subscribers in internal/api/server.go, and what is to hold of the events there.
use mathlib.Core.List.{Sublist, nil-sublist}
use mathlib.Core.List.Sublist
use bit_rot_detector.Base.{
  ℕ, ◌≤◌, Bool, true, false, Option, none, some, List, [], ◌∷◌, ◌++◌, ◌≡◌, refl, sym, ap, ◌∙◌,
  subst, ◌==◌, nat_eq, ==_iff, length, append-nil, if_ind, if◌then◌else◌,
}
use bit_rot_detector.Api.Hub.{ProgressEvent, Subscriber, ProgressHub, without, offer, offer_all}
use bit_rot_detector.Api.Stream.{buffer_of, set_buffer}

-- The buffers after each operation of the hub.
pub buffer_of-offer_all :
    (e : ProgressEvent) (k : ℕ) (subs : List Subscriber)
    → buffer_of k (offer_all e subs)
      ≡ elim (buffer_of k subs) as (λ _. Option (List ProgressEvent)) [
        | none ↦ none
        | some b ↦ some (offer e b)
      ]
unfolding buffer_of offer_all
buffer_of-offer_all e k [] = refl
buffer_of-offer_all e k ((n, b) ∷ subs) = go (n == k) (buffer_of-offer_all e k subs)
  where
    over : Option (List ProgressEvent) → Option (List ProgressEvent)
    over o = elim o as (λ _. Option (List ProgressEvent)) [
      | none ↦ none
      | some b ↦ some (offer e b)
    ]

    go :
        (c : Bool)
        → buffer_of k (offer_all e subs) ≡ over (buffer_of k subs)
        → (if c then some (offer e b) else buffer_of k (offer_all e subs))
          ≡ over (if c then some b else buffer_of k subs)
    go true ih = refl
    go false ih = ih

pub buffer_of-without :
    (n k : ℕ) (subs : List Subscriber)
    → buffer_of k (without n subs) ≡ (if k == n then none else buffer_of k subs)
unfolding buffer_of without
buffer_of-without n k [] = if_ind (λ (o : Option (List ProgressEvent)). none ≡ o) (k == n) refl refl
buffer_of-without n k ((m, b) ∷ subs) = go (m == n) refl (m == k) refl (buffer_of-without n k subs)
  where
    go :
        (c : Bool)
        → (m == n) ≡ c
        → (d : Bool) → (m == k) ≡ d
        → buffer_of k (without n subs) ≡ (if k == n then none else buffer_of k subs)
        → buffer_of k (if c then without n subs else (m, b) ∷ without n subs)
          ≡ (if k == n then none else if d then some b else buffer_of k subs)
    go true h true h' ih =
        let both : (k == n) ≡ true = subst (λ i. (i == n) ≡ true) ((==_iff m k).0 h') h in
        ih
        ∙ ap (λ c. if c then none else buffer_of k subs) both
        ∙ sym (ap (λ c. if c then none else some b) both)
    go true h false h' ih = ih
    go false h true h' ih =
        let apart : (k == n) ≡ false = subst (λ i. (i == n) ≡ false) ((==_iff m k).0 h') h in
        ap (λ d. if d then some b else buffer_of k (without n subs)) h'
        ∙ sym (ap (λ c. if c then none else some b) apart)
    go false h false h' ih = ap (λ d. if d then some b else buffer_of k (without n subs)) h' ∙ ih

pub buffer_of-set_buffer :
    (n k : ℕ) (b : List ProgressEvent) (subs : List Subscriber)
    → buffer_of k (set_buffer n b subs)
      ≡ elim (buffer_of k subs) as (λ _. Option (List ProgressEvent)) [
        | none ↦ none
        | some old ↦ some (if k == n then b else old)
      ]
unfolding buffer_of set_buffer
buffer_of-set_buffer n k b [] = refl
buffer_of-set_buffer n k b ((m, old) ∷ subs) = go (m == k) refl (buffer_of-set_buffer n k b subs)
  where
    over : Option (List ProgressEvent) → Option (List ProgressEvent)
    over o = elim o as (λ _. Option (List ProgressEvent)) [
      | none ↦ none
      | some old ↦ some (if k == n then b else old)
    ]

    go :
        (c : Bool)
        → (m == k) ≡ c
        → buffer_of k (set_buffer n b subs) ≡ over (buffer_of k subs)
        → (if c then some (if m == n then b else old) else buffer_of k (set_buffer n b subs))
          ≡ over (if c then some old else buffer_of k subs)
    go true same ih = ap (λ i. some (if i == n then b else old)) ((==_iff m k).0 same)
    go false other ih = ih

-- The events that are in the channel.
abbrev pub waiting_in : Option (List ProgressEvent) → List ProgressEvent
waiting_in none = []
waiting_in (some channel) = channel

-- What was written, what is in the buffer and what is in the channel is, in this order, a part of the
-- history; and the buffer has no more than its size.
abbrev pub Holds :
    (history written channel : List ProgressEvent) → Option (List ProgressEvent) → Type 0
Holds history written channel none = Unit {0}
Holds history written channel (some b) =
    Sublist (written ++ (b ++ channel)) history × (length b ≤ 64)

pub record Ordered (history : List ProgressEvent) (channel : Option (List ProgressEvent))
    (hub : ProgressHub) (written : ℕ → List ProgressEvent) : Type 0 where
  pub sent : Sublist (waiting_in channel) history
  pub held : (k : ℕ) → Holds history (written k) (waiting_in channel) (buffer_of k hub.subs)
  pub past : (k : ℕ) → Sublist (written k) history
  pub fresh : (k : ℕ) → hub.next ≤ k → (buffer_of k hub.subs ≡ none) × (written k ≡ [])
  pub room : length (waiting_in channel) ≤ 256

pub grow :
    (xs history : List ProgressEvent) (e : ProgressEvent)
    → Sublist xs history
    → Sublist xs (history ++ (e ∷ []))
grow xs history e h =
    subst (λ l. Sublist l (history ++ (e ∷ []))) (append-nil xs)
      (Sublist.append h (nil-sublist (e ∷ [])))

pub snoc :
    (xs history : List ProgressEvent) (e : ProgressEvent)
    → Sublist xs history
    → Sublist (xs ++ (e ∷ [])) (history ++ (e ∷ []))
snoc xs history e h = Sublist.append h (Sublist.refl (e ∷ []))
