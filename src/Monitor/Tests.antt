-- ===== src/Monitor/Tests.antt =====
-- A path below two mount points, and the theorem about the choice between them.
use bit_rot_detector.Base.{String, true, [], ◌∷◌, ◌≡◌, ◌⊎◌, string_eq, ◌==◌, ◌||◌, if◌then◌else◌}
use bit_rot_detector.Base.Dict.{Dict}
use bit_rot_detector.Domain.{ok}
use bit_rot_detector.Monitor.{Platform, best_mount}
use bit_rot_detector.Monitor.Mounts.{Holds, Longest, best_mount_lem}

-- "/" and "/data" are prefixes of the path "/data/photos".
abbrev platform : Platform
platform = record {
  is_linux = true;
  num_cpu = 4;
  resolved = ok "/data/photos";
  mounts = ok (("/dev/nvme0n1p2" ∷ "/" ∷ "ext4" ∷ []) ∷ ("/dev/sda1" ∷ "/data" ∷ "ext4" ∷ []) ∷ []);
  has_prefix = λ s prefix. prefix == "/" || prefix == "/data" || prefix == "/dev/";
  has_part = λ s part. true;
  base = λ p. if p == "/dev/sda1" then "sda1" else "nvme0n1p2";
  in_sys_block = λ name. name == "sda" || name == "nvme0n1";
  flag = λ name. ok (if name == "sda" then "1" else "0");
}

abbrev mounts : Dict String
mounts = ("nvme0n1p2", "/") ∷ ("sda1", "/data") ∷ []

best_mount_lem_example :
    let best = best_mount platform "/data/photos" mounts ("", "") in
    ((best ≡ ("", "")) ⊎ Holds platform "/data/photos" mounts best)
    × Longest platform "/data/photos" mounts best
best_mount_lem_example = best_mount_lem platform "/data/photos" mounts
