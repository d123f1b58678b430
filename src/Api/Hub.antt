-- ===== src/Api/Hub.antt =====
-- The progress hub of internal/api/server.go. A subscriber is its number and what is in the buffer of its
-- channel; the mutex makes each method one step.
use bit_rot_detector.Base.{
  ℕ, ◌+◌, ◌≤◌, String, List, [], ◌∷◌, ◌++◌, ◌==◌, arith, nat_eq, ltb, length, length-append, All,
  if◌then◌else◌,
}

-- `domain.ProgressEvent`
pub record ProgressEvent : Type 0 where
  pub phase : String
  pub drive : String
  pub count : ℕ
  pub total : ℕ
  pub message : String

abbrev pub Subscriber : Type 0
Subscriber = ℕ × List ProgressEvent

pub record ProgressHub : Type 0 where
  pub subs : List Subscriber
  pub next : ℕ

abbrev pub new_progress_hub : ProgressHub
new_progress_hub = record { subs = []; next = 0 }

-- The size of the buffer of a channel.
abbrev buffer_size : ℕ
buffer_size = 64

unfoldable pub subscribe : ProgressHub → ℕ × ProgressHub
subscribe h = (h.next, record { subs = (h.next, []) ∷ h.subs; next = h.next + 1 })

unfoldable pub without : ℕ → List Subscriber → List Subscriber
without n [] = []
without n ((k, buffer) ∷ subs) =
    let rest = without n subs in if k == n then rest else (k, buffer) ∷ rest

unfoldable pub unsubscribe : ℕ → ProgressHub → ProgressHub
unfolding without
unsubscribe n h = record h { subs = without n h.subs }

-- An event for which there is no room is dropped.
unfoldable pub offer : ProgressEvent → List ProgressEvent → List ProgressEvent
offer e buffer = if ltb (length buffer) buffer_size then buffer ++ (e ∷ []) else buffer

unfoldable pub offer_all : ProgressEvent → List Subscriber → List Subscriber
offer_all e [] = []
offer_all e ((k, buffer) ∷ subs) = (k, offer e buffer) ∷ offer_all e subs

unfoldable pub publish : ProgressEvent → ProgressHub → ProgressHub
publish e h = record h { subs = offer_all e h.subs }

-- No buffer holds more than its size.
abbrev pub Fit : ProgressHub → Type 0
Fit h = All (λ (s : Subscriber). length s.1 ≤ 64) h.subs

pub offer-fits :
    (e : ProgressEvent) (buffer : List ProgressEvent)
    → length buffer ≤ 64
    → length (offer e buffer) ≤ 64
unfolding offer
offer-fits e buffer h = ground (arith, h, length-append buffer (e ∷ []))

offer_all-Fit :
    (e : ProgressEvent) (subs : List Subscriber)
    → All (λ (s : Subscriber). length s.1 ≤ 64) subs
    → All (λ (s : Subscriber). length s.1 ≤ 64) (offer_all e subs)
unfolding offer_all
offer_all-Fit e [] h = tt
offer_all-Fit e ((k, buffer) ∷ subs) h = (offer-fits e buffer h.0, offer_all-Fit e subs h.1)

-- Publishing never overfills a buffer.
pub publish-Fit : (e : ProgressEvent) (h : ProgressHub) → Fit h → Fit (publish e h)
unfolding publish
publish-Fit e h fit = offer_all-Fit e h.subs fit
