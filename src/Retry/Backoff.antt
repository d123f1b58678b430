-- ===== src/Retry/Backoff.antt =====
-- The delay of `MarkFailed` in internal/retry/retry.go.
use native.Mathlib.Nat.{pow-le-pow_right, one-le-pow}
use native.Mathlib.Decide.{dec_lt}
use bit_rot_detector.Base.{ℕ, ◌*◌, ◌^◌, ◌≤◌, ◌≡◌, arith, ltb, if◌then◌else◌}
use bit_rot_detector.Base.Int.{pos, ◌≤ℤ◌}
use bit_rot_detector.Base.Moment.{minute, hour}
use bit_rot_detector.Retry.{backoff}

-- The documented rule: 2^attempts minutes, at most 24 hours.
abbrev pub capped : ℕ → ℕ
capped attempts =
    if ltb (24 * hour) (2 ^ attempts * minute) then 24 * hour else 2 ^ attempts * minute

pow-ge : (n : ℕ) → 20 ≤ n → 2 ^ 20 ≤ 2 ^ n
pow-ge n h = pow-le-pow_right (omega arith) h

shift_fits : (shift : ℕ) → shift ≤ 20 → 2 ^ shift ≤ 2 ^ 20
shift_fits shift h = pow-le-pow_right {n = 2} (omega arith) h

-- The delay as an int64 is the number 2^attempts minutes, at most 24 hours, for every number of attempts:
-- neither the shift nor the product overflows, and the cap on the shift never shows.
pub backoff-eq-capped : (attempts : ℕ) → backoff attempts ≡ pos (capped attempts)
unfolding backoff
backoff-eq-capped attempts = elim (dec_lt 20 attempts) [
  | yes large ↦ ground (arith, pow-ge attempts (omega arith))
  | no small ↦ ground (arith, shift_fits attempts (omega arith))
]

-- The delay is between a minute and a day.
pub backoff_bounds :
    (attempts : ℕ) → (pos minute ≤ℤ backoff attempts) × (backoff attempts ≤ℤ pos (24 * hour))
backoff_bounds attempts =
    rw (backoff-eq-capped attempts) (ground (arith, one-le-pow attempts 2 (omega arith)))

-- More attempts never give a shorter delay.
pub backoff_mono : (a b : ℕ) → a ≤ b → backoff a ≤ℤ backoff b
backoff_mono a b h =
    rw (backoff-eq-capped, backoff-eq-capped)
      (ground (arith, pow-le-pow_right {n = 2} (omega arith) h))
