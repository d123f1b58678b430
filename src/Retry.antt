-- ===== src/Retry.antt =====
-- internal/retry/retry.go: the bounded queue of failed operations with exponential backoff.
-- `fmt.Sprintf("%d", n)` is the parameter `itoa`; `time.Now()` is the argument `now`. The mutex
-- makes each method one step. `Due` returns pointers; their targets are the items returned here.
pub mod Invariant
pub mod Backoff
pub mod Due
mod Tests
use bit_rot_detector.Base.{
  ℕ, ◌+◌, ◌*◌, ◌^◌, ◌%◌, String, Bool, true, false, not, ◌&&◌, List, [], ◌∷◌, ◌++◌, ltb, leb,
  length, ◌==◌, string_eq, if◌then◌else◌,
}
use bit_rot_detector.Base.Moment.{Moment, minute, hour, add, add_signed, before}
use bit_rot_detector.Base.Int.{ℤ, pos, negsuc, ltb_ℤ, to_int64}

pub record Item : Type 0 where
  pub id : String
  pub path : String
  pub op : String
  pub err : String
  pub attempts : ℕ
  pub next_at : Moment
  pub done : Bool

pub record Queue : Type 0 where
  pub items : List Item
  pub max : ℕ
  pub counter : ℕ

-- `New`
abbrev pub new : ℕ → Queue
new max = record { items = []; max = max; counter = 0 }

module _ (itoa : ℕ → String) where
  -- `Add`
  pub enqueue : (path op err_msg : String) → Moment → Queue → Queue
  enqueue path op err_msg now q =
      let n = q.counter + 1 in
      let item : Item = record {
        id = itoa n;
        path = path;
        op = op;
        err = err_msg;
        attempts = 0;
        next_at = add now minute;
        done = false;
      } in
      if leb q.max (length q.items)
      then q
      else record q { items = q.items ++ (item ∷ []); counter = n }

-- `All`
pub all : Queue → List Item
all q = q.items

-- The loop of `Due`.
due_items : Moment → List Item → List Item
due_items now [] = []
due_items now (it ∷ items) =
    let rest = due_items now items in
    if not it.done && before it.next_at now then it ∷ rest else rest

-- `Due`
pub due : Moment → Queue → List Item
unfolding due_items
due now q = due_items now q.items

-- The loop that `MarkDone` and `MarkFailed` share: it changes the first item with the id.
update_first : (Item → Item) → String → List Item → List Item
update_first f id [] = []
update_first f id (it ∷ items) = if it.id == id then f it ∷ items else it ∷ update_first f id items

abbrev finish : Item → Item
finish it = record it { done = true }

-- `MarkDone`
pub mark_done : String → Queue → Queue
unfolding update_first
mark_done id q = record q { items = update_first finish id q.items }

-- The delay that `MarkFailed` computes from the new attempt count, as an int64: both the shift and the
-- product keep the low 64 bits.
pub backoff : ℕ → ℤ
backoff attempts =
    let shift = if ltb 20 attempts then 20 else attempts in
    let delay = to_int64 (2 ^ shift % 2 ^ 64 * minute) in
    if ltb_ℤ (pos (24 * hour)) delay then pos (24 * hour) else delay

abbrev reschedule : String → Moment → Item → Item
reschedule err_msg now it = record it {
  attempts = it.attempts + 1;
  err = err_msg;
  next_at = add_signed now (backoff (it.attempts + 1));
}

-- `MarkFailed`
pub mark_failed : (id err_msg : String) → Moment → Queue → Queue
unfolding update_first
mark_failed id err_msg now q = record q { items = update_first (reschedule err_msg now) id q.items }

-- One call of a method that changes the queue.
pub data Call : Type 0 where
  adds : (path op err_msg : String) → Moment → Call
  succeeds : String → Call
  fails : (id err_msg : String) → Moment → Call

module _ (itoa : ℕ → String) where
  pub step : Call → Queue → Queue
  step (adds path op err_msg now) q = enqueue itoa path op err_msg now q
  step (succeeds id) q = mark_done id q
  step (fails id err_msg now) q = mark_failed id err_msg now q

  pub run : List Call → Queue → Queue
  run [] q = q
  run (c ∷ calls) q = run calls (step c q)
