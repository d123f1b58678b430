-- ===== src/Coordinator/Workers.antt =====
-- How many goroutines hash the files of a drive: internal/coordinator/coordinator.go takes the number
-- of internal/monitor/drive.go, bounded by the options, and `NewSyncer` of internal/scanner/scanner.go
-- takes at least one.
use bit_rot_detector.Base.{
  String, if_ind, ℕ, ◌≤◌, true, false, ◌≡◌, ◌⊎◌, inl, inr, refl, arith, ltb, string_eq, ◌==◌,
  if◌then◌else◌,
}
use bit_rot_detector.Domain.{Result, ok, err}
use bit_rot_detector.Monitor.{
  Info, Platform, detect, flagged_device, found_device, device_for_path, is_hdd,
}

-- `numWorkers` of `processDrive`.
unfoldable pub num_workers : Platform → ℕ → ℕ
num_workers os max_workers =
    let workers = (detect os).workers in if ltb max_workers workers then max_workers else workers

-- `NewSyncer`
unfoldable pub new_syncer : ℕ → ℕ
new_syncer workers = if ltb workers 1 then 1 else workers

-- One worker for a drive that rotates, else one for each processor.
abbrev Sized : ℕ → Info → Type 0
Sized num_cpu i =
    ((is_hdd i ≡ true) × (i.workers ≡ 1)) ⊎ ((is_hdd i ≡ false) × (i.workers ≡ num_cpu))

flagged_device-Sized :
    (os : Platform) (dev : String) (flag : Result String)
    → Sized os.num_cpu (flagged_device os dev flag)
unfolding flagged_device
flagged_device-Sized os dev (err e) = inr (refl, refl)
flagged_device-Sized os dev (ok text) =
    if_ind (Sized os.num_cpu) (text == "1") (inl (refl, refl)) (inr (refl, refl))

found_device-Sized : (os : Platform) (dev : Result String) → Sized os.num_cpu (found_device os dev)
unfolding found_device
found_device-Sized os (err e) = inr (refl, refl)
found_device-Sized os (ok dev) = flagged_device-Sized os dev (os.flag dev)

detect-Sized : (os : Platform) → Sized os.num_cpu (detect os)
unfolding detect
detect-Sized os =
    if_ind (Sized os.num_cpu) os.is_linux (found_device-Sized os (device_for_path os))
      (inr (refl, refl))

-- If the bound and the number of processors are not 0, a drive has at least one goroutine that hashes,
-- and no more than the bound and the number of processors. It has only one if it was found to rotate.
pub new_syncer-num_workers :
    (os : Platform) (max_workers : ℕ)
    → 1 ≤ max_workers
    → 1 ≤ os.num_cpu
    → let workers = new_syncer (num_workers os max_workers) in
      (1 ≤ workers)
      × (workers ≤ max_workers)
      × (workers ≤ os.num_cpu)
      × ((is_hdd (detect os) ≡ false) ⊎ (workers ≡ 1))
unfolding new_syncer num_workers
new_syncer-num_workers os max_workers some_worker some_cpu = elim (detect-Sized os) [
  | inl (turns, one) ↦ rw one (ground (arith, some_worker, some_cpu))
  | inr (still, all) ↦ rw (still, all) (ground (arith, some_worker, some_cpu))
]
