-- ===== src/Monitor.antt =====
-- internal/monitor/drive.go: the kind of a drive and its number of workers. `Platform` is what the
-- operating system and Go's library answer: the path with its symbolic links resolved, the fields of the
-- lines of /proc/mounts, which names there are below /sys/block, and the content of the flag there. The
-- loop over the map of mounts is in the order of its entries.
pub mod Mounts
pub mod Tests
use Prim.Native.String.{len, slice}
use bit_rot_detector.Base.{
  false, ℕ, zero, suc, ◌+◌, String, ◌<>◌, Bool, true, not, ◌&&◌, Option, none, some, List, [], ◌∷◌,
  ◌==◌, string_eq, nat_eq, ltb, contains, if◌then◌else◌,
}
use bit_rot_detector.Base.Dict.{Dict, insert}
use bit_rot_detector.Domain.{Result, ok, err}

pub data DriveType : Type 0 where
  unknown rotational non_rotational : DriveType

pub record Info : Type 0 where
  pub drive_type : DriveType
  pub device_name : String
  pub workers : ℕ

pub record Platform : Type 0 where
  pub is_linux : Bool
  pub num_cpu : ℕ
  pub resolved : Result String
  pub mounts : Result (List (List String))
  -- `strings.HasPrefix`, `strings.Contains` and `filepath.Base`.
  pub has_prefix : String → String → Bool
  pub has_part : String → String → Bool
  pub base : String → String
  pub in_sys_block : String → Bool
  -- The flag `queue/rotational` of a device, without the space around it.
  pub flag : String → Result String

abbrev is_digit : String → Bool
is_digit = contains ("0" ∷ "1" ∷ "2" ∷ "3" ∷ "4" ∷ "5" ∷ "6" ∷ "7" ∷ "8" ∷ "9" ∷ [])

abbrev pub is_hdd : Info → Bool
is_hdd i = elim i.drive_type [ unknown ↦ false | rotational ↦ true | non_rotational ↦ false ]

-- The byte at an index.
abbrev byte_at : String → ℕ → String
byte_at s i = slice s i (i + 1)

-- The loop of `isAllDigits` over the first bytes.
digits_up_to : String → ℕ → Bool
digits_up_to s zero = true
digits_up_to s (suc n) = digits_up_to s n && is_digit (byte_at s n)

pub is_all_digits : String → Bool
unfolding digits_up_to
is_all_digits s = not (s == "") && digits_up_to s (len s)

-- `strings.LastIndex` of "p" among the first bytes.
last_p : String → ℕ → Option ℕ
last_p s zero = none
last_p s (suc n) = let rest = last_p s n in if byte_at s n == "p" then some n else rest

-- The number of the first bytes without the digits at their end.
strip_digits : String → ℕ → ℕ
strip_digits s zero = zero
strip_digits s (suc n) =
    let rest = strip_digits s n in if is_digit (byte_at s n) then rest else suc n

module _ (os : Platform) where
  open os use {has_prefix, has_part, base, in_sys_block}

  -- The generic suffix in `baseDevice`.
  strip_generic : String → String
  unfolding strip_digits
  strip_generic dev =
      let candidate = slice dev 0 (strip_digits dev (len dev)) in
      if not (candidate == "") && not (candidate == dev) && in_sys_block candidate
      then candidate
      else dev

  -- `baseDevice`
  pub base_device : String → String
  unfolding last_p is_all_digits strip_generic
  base_device dev = elim (last_p dev (len dev)) [
    | none ↦ strip_generic dev
    | some i ↦
        let name = slice dev 0 i in
        if ltb 0 i
          && is_all_digits (slice dev (i + 1) (len dev))
          && has_part name "nvme"
          && in_sys_block name
        then name
        else strip_generic dev
  ]

  -- The loop of `parseMounts`: a later mount of a device takes the place of an earlier one.
  unfoldable pub parse_mounts : List (List String) → Dict String → Dict String
  parse_mounts [] mounts = mounts
  parse_mounts ([] ∷ lines) mounts = parse_mounts lines mounts
  parse_mounts ((dev ∷ []) ∷ lines) mounts = parse_mounts lines mounts
  parse_mounts ((dev ∷ mp ∷ fields) ∷ lines) mounts =
      parse_mounts lines (if has_prefix dev "/dev/" then insert (base dev) mp mounts else mounts)

  -- The loop of `deviceForPath`: the device and the mount point that are best so far.
  unfoldable pub best_mount : String → Dict String → String × String → String × String
  best_mount path [] best = best
  best_mount path ((dev, mp) ∷ mounts) (best_dev, best_mp) =
      best_mount path mounts (
        if has_prefix path mp && ltb (len best_mp) (len mp) then (dev, mp) else (best_dev, best_mp))

  -- `deviceForPath`
  unfoldable pub device_for_path : Result String
  device_for_path = elim os.resolved [
    | err e ↦ err ("abs path: " <> e)
    | ok path ↦ elim os.mounts [
      | err e ↦ err ("read /proc/mounts: " <> e)
      | ok lines ↦
          let (dev, mp) = best_mount path (parse_mounts lines []) ("", "") in
          if dev == "" then err ("no mount point found for " <> path) else ok (base_device dev)
    ]
  ]

  -- `Detect`, with the answer of `readRotational`.
  unfoldable pub flagged_device : String → Result String → Info
  flagged_device dev (err e) = record {
    drive_type = unknown;
    device_name = dev;
    workers = os.num_cpu;
  }
  flagged_device dev (ok text) =
      if text == "1"
      then record { drive_type = rotational; device_name = dev; workers = 1 }
      else record { drive_type = non_rotational; device_name = dev; workers = os.num_cpu }

  -- With the answer of `deviceForPath`.
  unfoldable pub found_device : Result String → Info
  found_device (err e) = record { drive_type = unknown; device_name = ""; workers = os.num_cpu }
  found_device (ok dev) = flagged_device dev (os.flag dev)

  -- `Detect`
  unfoldable pub detect : Info
  detect =
      if os.is_linux
      then found_device device_for_path
      else record { drive_type = unknown; device_name = ""; workers = os.num_cpu }
