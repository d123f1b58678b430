-- ===== src/Mailer/Sizes.antt =====
-- The numbers that internal/mailer/mailer.go prints: sizes in units of 1024, and durations.
use bit_rot_detector.Base.{
  ◌<>◌, ℕ, suc, zero, ◌+◌, ◌*◌, ◌/◌, ◌%◌, ◌^◌, ◌≤◌, ◌<◌, ◌≡◌, ◌⊎◌, inl, inr, refl, arith, String,
  Option, none, some, leb, ltb, Bool, true, false, if◌then◌else◌,
}
use bit_rot_detector.Base.Moment.{second, minute, hour}
use bit_rot_detector.Mailer.{Formats, scale, unit_at, format_bytes, duration_parts}

-- The divisor and the exponent that fit the number `b`.
abbrev pub Fits : ℕ → ℕ × ℕ → Type 0
Fits b (div, exp) = (div ≡ 1024 ^ (exp + 1)) × (div ≤ b) × (b < 1024 * div) × (exp < 6)

stage :
    (b n div exp fuel : ℕ)
    → div ≡ 1024 ^ (exp + 1)
    → div ≤ b
    → exp < 6
    → (n < 1024 → b < 1024 * div)
    → (1024 ≤ n
        → Fits b (scale fuel (n / 1024) (div * 1024 % 18_446_744_073_709_551_616) (exp + 1)))
    → Fits b (scale (suc fuel) n div exp)
unfolding scale
stage b n div exp fuel form below few last next = go (leb 1024 n) refl
  where
    go :
        (t : Bool)
        → leb 1024 n ≡ t
        → Fits b (
            if t
            then scale fuel (n / 1024) (div * 1024 % 18_446_744_073_709_551_616) (exp + 1)
            else (div, exp))
    go true e = next (ground arith)
    go false e = (form, below, last (ground arith), few)

scale-Fits :
    (b : ℕ) → 1024 ≤ b → b < 18_446_744_073_709_551_616 → Fits b (scale 7 (b / 1024) 1024 0)
scale-Fits b large small =
    stage b (b / 1024) 1024 0 6 refl large (omega arith) (λ h. omega arith)
      (λ h.
        stage b _ 1_048_576 1 5 refl (omega arith) (omega arith) (λ k. omega arith)
          (λ h.
            stage b _ 1_073_741_824 2 4 refl (omega arith) (omega arith) (λ k. omega arith)
              (λ h.
                stage b _ 1_099_511_627_776 3 3 refl (omega arith) (omega arith) (λ k. omega arith)
                  (λ h.
                    stage b _ 1_125_899_906_842_624 4 2 refl (omega arith) (omega arith)
                      (λ k. omega arith)
                      (λ h.
                        stage b _ 1_152_921_504_606_846_976 5 1 refl (omega arith) (omega arith)
                          (λ k. omega arith) (λ h. absurd (omega arith)))))))

unit_at-lt : (exp : ℕ) → exp < 6 → (u : String) × (unit_at exp ≡ some u)
unfolding unit_at
unit_at-lt zero h = (_, refl)
unit_at-lt (suc zero) h = (_, refl)
unit_at-lt (suc (suc zero)) h = (_, refl)
unit_at-lt (suc (suc (suc zero))) h = (_, refl)
unit_at-lt (suc (suc (suc (suc zero)))) h = (_, refl)
unit_at-lt (suc (suc (suc (suc (suc zero))))) h = (_, refl)
unit_at-lt (suc (suc (suc (suc (suc (suc n)))))) h = absurd (omega arith)

-- `formatBytes` of a number below 2 ^ 64 never indexes past "KMGTPE". Below 1024 it prints the number;
-- else it divides by a power of 1024 that is not larger than the number and more than a 1024th of it,
-- which has not wrapped, and prints the unit of that power.
pub format_bytes_lem :
    (f : Formats) (b : ℕ)
    → b < 18_446_744_073_709_551_616
    → ((b < 1024) × (format_bytes f b ≡ some (f.itoa b <> " B")))
      ⊎ ((div : ℕ) × (exp : ℕ) × (u : String) × (format_bytes f b
            ≡ some (f.quotient b div <> " " <> u <> "B"))
          × (unit_at exp ≡ some u)
          × Fits b (div, exp))
unfolding format_bytes
format_bytes_lem f b small = go (ltb b 1024) refl
  where
    parts : ℕ × ℕ
    parts = scale 7 (b / 1024) 1024 0

    go :
        (t : Bool)
        → ltb b 1024 ≡ t
        → ((b < 1024)
            × ((if t
                  then some (f.itoa b <> " B")
                  else elim (unit_at parts.1) as (λ _. Option String) [
                    | none ↦ none
                    | some u ↦ some (f.quotient b parts.0 <> " " <> u <> "B")
                  ])
                ≡ some (f.itoa b <> " B")))
          ⊎ ((div : ℕ) × (exp : ℕ) × (u : String) × ((if t
                  then some (f.itoa b <> " B")
                  else elim (unit_at parts.1) as (λ _. Option String) [
                    | none ↦ none
                    | some u ↦ some (f.quotient b parts.0 <> " " <> u <> "B")
                  ])
                ≡ some (f.quotient b div <> " " <> u <> "B"))
              × (unit_at exp ≡ some u)
              × Fits b (div, exp))
    go true e = inl (ground arith, refl)
    go false e =
        let fits = scale-Fits b (ground arith) small in
        let (u, found) = unit_at-lt parts.1 fits.3 in
        inr (parts.0, parts.1, u, rw found refl, found, fits)

-- If the three float64 quotients are exact, the parts that `formatDuration` prints are the duration in
-- whole seconds: h * 3600 + m * 60 + s, with m and s below 60.
pub duration_parts_lem :
    (f : Formats) (d : ℕ)
    → f.hours d ≡ d / hour
    → f.minutes d ≡ d / minute
    → f.seconds d ≡ d / second
    → let (h, m, s) = duration_parts f d in
      (h * 3600 + m * 60 + s ≡ d / second) × (m < 60) × (s < 60)
unfolding duration_parts
duration_parts_lem f d hs ms ss = rw (hs, ms, ss) (omega arith, omega arith, omega arith)
