-- ===== src/Coordinator/Drives.antt =====
-- `Run` of internal/coordinator/coordinator.go: a goroutine per drive and the semaphore that bounds how
-- many of them run at once. A drive's goroutine waits for the semaphore, runs, and is done with its
-- result in its slot; a run is a list of choices, each of which lets one goroutine go on. `process` is
-- what `processDrive` returns for a path: the drives do not share anything.
pub mod Slots
pub mod Schedule
pub mod Tests
use bit_rot_detector.Base.{
  ℕ, zero, suc, ◌+◌, String, Bool, true, false, Option, none, some, List, [], ◌∷◌, ltb, length,
  if◌then◌else◌,
}
use bit_rot_detector.Coordinator.{DriveResult}

pub data Slot : Type 0 where
  waiting running : String → Slot
  done : String → DriveResult → Slot

-- A goroutine sends to the semaphore; or stores its result and receives from it.
pub data Choice : Type 0 where
  acquire release : ℕ → Choice

unfoldable pub spawn : List String → List Slot
spawn [] = []
spawn (p ∷ paths) = waiting p ∷ spawn paths

-- How many values the semaphore holds.
unfoldable pub held : List Slot → ℕ
held [] = 0
held (waiting p ∷ slots) = held slots
held (running p ∷ slots) = suc (held slots)
held (done p r ∷ slots) = held slots

abbrev pub begin : Slot → Slot
begin (waiting p) = running p
begin (running p) = running p
begin (done p r) = done p r

abbrev pub end : (String → DriveResult) → Slot → Slot
end process (waiting p) = waiting p
end process (running p) = done p (process p)
end process (done p r) = done p r

unfoldable pub change_at : (Slot → Slot) → ℕ → List Slot → List Slot
change_at f i [] = []
change_at f zero (s ∷ slots) = f s ∷ slots
change_at f (suc i) (s ∷ slots) = s ∷ change_at f i slots

-- The capacity of the semaphore: the smaller of `MaxWorkers` and the number of drives.
abbrev pub capacity : ℕ → ℕ → ℕ
capacity max_workers drives = if ltb max_workers drives then max_workers else drives

module _ (process : String → DriveResult) (cap : ℕ) where
  -- A send waits while the semaphore is full.
  unfoldable pub go_on : Choice → List Slot → List Slot
  go_on (acquire i) slots = if ltb (held slots) cap then change_at begin i slots else slots
  go_on (release i) slots = change_at (end process) i slots

  unfoldable pub goes_on : List Choice → List Slot → List Slot
  goes_on [] slots = slots
  goes_on (c ∷ choices) slots = goes_on choices (go_on c slots)

-- `wg.Wait`: the results, when all goroutines are done.
unfoldable pub results_of : List Slot → Option (List DriveResult)
results_of [] = some []
results_of (waiting p ∷ slots) = none
results_of (running p ∷ slots) = none
results_of (done p r ∷ slots) = elim (results_of slots) [ none ↦ none | some rs ↦ some (r ∷ rs) ]

-- The slots after some choices: `Run`.
unfoldable pub run_drives :
    (process : String → DriveResult) → (max_workers : ℕ) → List String → List Choice → List Slot
run_drives process max_workers paths choices =
    goes_on process (capacity max_workers (length paths)) choices (spawn paths)
