-- ===== src/Hasher/Tests.antt =====
-- A hash that is the sum of the bytes, and a file read in two parts.
use bit_rot_detector.Base.{
  ℕ, ◌+◌, none, some, List, [], ◌∷◌, ◌++◌, ◌≡◌, refl, ◌==◌, nat_eq, if◌then◌else◌,
}
use bit_rot_detector.Domain.{ok}
use bit_rot_detector.Hasher.{Blake3, eof, nil, Read, compute_hash}
use bit_rot_detector.Hasher.Streaming.{content, IsStreaming, compute_hash_lem}

abbrev total : ℕ → List ℕ → ℕ
total n [] = n
total n (x ∷ xs) = total (n + x) xs

total-append : (n : ℕ) (xs ys : List ℕ) → total (total n xs) ys ≡ total n (xs ++ ys)
total-append n [] ys = refl
total-append n (x ∷ xs) ys = total-append (n + x) xs ys

abbrev additive : Blake3
additive = record {
  State = ℕ;
  new = 0;
  write = λ s xs. ok (total s xs);
  sum = λ s. if s == 6 then "six" else "other";
}

additive-IsStreaming : IsStreaming additive
additive-IsStreaming = record {
  absorb = total;
  accepts = λ s xs. refl;
  nothing = λ s. refl;
  parts = total-append;
}

abbrev reads : List Read
reads =
    record { cancelled = none; bytes = 1 ∷ 2 ∷ []; error = nil }
    ∷ record { cancelled = none; bytes = 3 ∷ []; error = nil }
    ∷ record { cancelled = none; bytes = []; error = eof }
    ∷ []

compute_hash_lem_example :
    compute_hash additive "/f" none reads ≡ some (ok (additive.sum (total 0 (1 ∷ 2 ∷ 3 ∷ []))))
unfolding content additive-IsStreaming
compute_hash_lem_example =
    compute_hash_lem additive additive-IsStreaming "/f" reads (1 ∷ 2 ∷ 3 ∷ []) refl
