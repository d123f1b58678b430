-- ===== src/Retry/Tests.antt =====
-- A queue of two places, and the theorems of the other children at it.
use mathlib.Core.Path.{ap}
use Prim.Native.String.{String}
use bit_rot_detector.Base.{
  ℕ, zero, suc, ◌*◌, map, ◌≡◌, refl, List, [], ◌∷◌, arith, string_eq, false,
}
use bit_rot_detector.Base.Moment.{add_signed, Moment, at_unix, add, minute, hour, before}
use bit_rot_detector.Base.Int.{pos, ◌+ℤ◌, int_eq}
use bit_rot_detector.Retry.{
  Item, Queue, Call, adds, succeeds, fails, step, run, new, enqueue, due, due_items, update_first,
  mark_done, mark_failed, backoff,
}
use bit_rot_detector.Retry.Invariant.{IsValid, run-IsValid, paths, paths-run_full}
use bit_rot_detector.Retry.Backoff.{backoff-eq-capped}

-- Stands for the decimal digits: any injective function serves.
strokes : ℕ → String
strokes zero = String.[]
strokes (suc n) = String.◌∷◌ "I" (strokes n)

strokes_injective : (m n : ℕ) → strokes m ≡ strokes n → m ≡ n
unfolding strokes
strokes_injective zero zero h = refl
strokes_injective zero (suc n) h = cc
strokes_injective (suc m) zero h = cc
strokes_injective (suc m) (suc n) h = ap suc (strokes_injective m n (ground arith))

abbrev start : Moment
start = at_unix (pos 1000)

abbrev calls : List Call
calls =
    adds "/a" "sync" "locked" start
    ∷ adds "/b" "scrub" "gone" start
    ∷ adds "/c" "scrub" "gone" start
    ∷ fails "II" "gone again" start
    ∷ []

abbrev full : Queue
full = run strokes calls (new 2)

program : Unit {0}
unfolding strokes step run enqueue due due_items update_first mark_done mark_failed backoff add
    add_signed before string_eq ◌+ℤ◌ int_eq
program = tt

paths_test : paths full ≡ "/a" ∷ "/b" ∷ []
unfolding program
paths_test = refl

run-IsValid_example : IsValid strokes full
run-IsValid_example = run-IsValid strokes 2 calls

-- The third path finds no place, and finishing an item makes none.
paths-run_full_example :
    paths (run strokes (succeeds "I" ∷ adds "/d" "sync" "x" start ∷ []) full) ≡ paths full
unfolding program
paths-run_full_example =
    paths-run_full strokes (succeeds "I" ∷ adds "/d" "sync" "x" start ∷ []) full (omega arith)

backoff-eq-capped_example : backoff 30 ≡ pos (24 * hour)
backoff-eq-capped_example = backoff-eq-capped 30

due_before : map (λ it. it.id) (due (add start (2 * minute)) full) ≡ "I" ∷ []
unfolding program
due_before = refl

abbrev waiting : Item
waiting = record {
  id = "I";
  path = "/a";
  op = "sync";
  err = "locked";
  attempts = 0;
  next_at = at_unix (pos 1060);
  done = false;
}
