-- ===== src/Base/Moment.antt =====
-- Go's `time.Time` and `time.Duration`, as far as the source uses them. A moment is the number of
-- whole seconds since the Unix epoch, which may be negative, and the nanoseconds beyond them.
-- A duration is a number of nanoseconds.
use Prim.Native.Nat.{ℕ, suc, ◌+◌, ◌-◌, ◌*◌, ◌/◌, ◌%◌, ◌<◌}
use mathlib.Core.Path.{◌≡◌}
use mathlib.Core.Bool.{Bool, true, false, ◌&&◌, ◌||◌}
use native.Mathlib.Omega.{arith}
use bit_rot_detector.Base.Tests.{ltb, ◌==◌}
use bit_rot_detector.Base.Int.{
  ℤ, pos, negsuc, ◌+ℤ◌, ◌-ℤ◌, +ℤ_parts, -ℤ_parts, eq_of_parts, ltb_ℤ, int_eq,
}

pub record Moment : Type 0 where
  pub sec : ℤ
  pub nsec : ℕ

abbrev pub second : ℕ
second = 1_000_000_000

abbrev pub minute : ℕ
minute = 60 * second

abbrev pub hour : ℕ
hour = 60 * minute

-- `t.Unix()`
abbrev pub unix : Moment → ℤ
unix t = t.sec

-- `time.Unix(s, 0)`
abbrev pub at_unix : ℤ → Moment
at_unix s = record { sec = s; nsec = 0 }

-- `time.Time{}` is the first of January of year 1.
abbrev pub zero_time : Moment
zero_time = record { sec = negsuc 62135596799; nsec = 0 }

-- `t.Add(d)` for a duration that is not negative.
unfoldable pub add : Moment → ℕ → Moment
add t d = record { sec = t.sec +ℤ pos ((t.nsec + d) / second); nsec = (t.nsec + d) % second }

-- `t.Add(d)`
unfoldable pub add_signed : Moment → ℤ → Moment
unfolding add
add_signed t (pos d) = add t d
add_signed t (negsuc n) =
    let seconds = suc n / second + 1 in
    add (record t { sec = t.sec -ℤ pos seconds }) (seconds * second - suc n)

-- `t.Before(u)`
unfoldable pub before : Moment → Moment → Bool
before t u = ltb_ℤ t.sec u.sec || (t.sec == u.sec && ltb t.nsec u.nsec)

pub before_irrefl : (t : Moment) → before t t ≡ false
unfolding before
before_irrefl t = ground arith

pub before_trans : (t u v : Moment) → before t u ≡ true → before u v ≡ true → before t v ≡ true
unfolding before
before_trans t u v h k = ground arith

-- Adding a duration never goes back in time.
pub before-add : (t : Moment) (d : ℕ) → t.nsec < second → before (add t d) t ≡ false
unfolding before add
before-add t d h = ground (arith, +ℤ_parts t.sec (pos ((t.nsec + d) / second)))

-- Going back by whole seconds.
pub add_signed-seconds :
    (t : Moment) (n seconds : ℕ)
    → t.nsec < second
    → suc n ≡ seconds * second
    → (add_signed t (negsuc n)).sec ≡ t.sec -ℤ pos seconds
unfolding add_signed
add_signed-seconds t n seconds h e =
    let q = suc n / second + 1 in
    eq_of_parts _ _ (
      omega (
        arith,
        h,
        e,
        +ℤ_parts (t.sec -ℤ pos q) (pos ((t.nsec + (q * second - suc n)) / second)),
        -ℤ_parts t.sec (pos q),
        -ℤ_parts t.sec (pos seconds),
      ))

pub add_signed-zero : (t : Moment) → t.nsec < second → (add_signed t (pos 0)).sec ≡ t.sec -ℤ pos 0
unfolding add_signed add
add_signed-zero t h =
    eq_of_parts _ _
      (omega (arith, h, +ℤ_parts t.sec (pos ((t.nsec + 0) / second)), -ℤ_parts t.sec (pos 0)))
