-- ===== src/Hasher/Streaming.antt =====
-- The digest that internal/hasher/hasher.go computes is the one of the whole content.
use bit_rot_detector.Base.{
  subst, some_inj, ℕ, String, Option, none, some, List, [], ◌∷◌, ◌++◌, ◌≡◌, refl, sym, ap, ◌∙◌,
  arith,
}
use bit_rot_detector.Domain.{Result, ok, err}
use bit_rot_detector.Hasher.{
  Blake3, ReadError, nil, eof, failure, Read, write_some, after_read, read_loop, compute_hash,
}

-- The bytes of a file that is read to its end with no error.
unfoldable pub content : List Read → Option (List ℕ)
content [] = none
content (r ∷ reads) =
    let rest = content reads in
    elim r.cancelled [
      | some e ↦ none
      | none ↦ elim r.error [
        | nil ↦ elim rest [ none ↦ none | some bytes ↦ some (r.bytes ++ bytes) ]
        | eof ↦ some r.bytes
        | failure m ↦ none
      ]
    ]

-- What a hash does: it never refuses bytes, and only their sequence counts, not its parts.
pub record IsStreaming (b : Blake3) : Type 0 where
  pub absorb : b.State → List ℕ → b.State
  pub accepts : (s : b.State) (xs : List ℕ) → b.write s xs ≡ ok (absorb s xs)
  pub nothing : (s : b.State) → absorb s [] ≡ s
  pub parts : (s : b.State) (xs ys : List ℕ) → absorb (absorb s xs) ys ≡ absorb s (xs ++ ys)

module _ (b : Blake3) (h : IsStreaming b) (path : String) where
  open h use {absorb, accepts, nothing, parts}

  write_some_lem : (s : b.State) (xs : List ℕ) → write_some b path s xs ≡ ok (absorb s xs)
  unfolding write_some
  write_some_lem s [] = ap ok (sym (nothing s))
  write_some_lem s (x ∷ xs) = ground (arith, accepts s (x ∷ xs))

  read_loop_lem :
      (reads : List Read) (s : b.State) (bytes : List ℕ)
      → content reads ≡ some bytes
      → read_loop b path reads s ≡ some (ok (b.sum (absorb s bytes)))
  unfolding content read_loop
  read_loop_lem [] s bytes e = absurd (ground (arith, e))
  read_loop_lem (r ∷ reads) s bytes e =
      subst
        (λ w.
          elim r.cancelled as (λ _. Option (Result String)) [
            | some m ↦ some (err m)
            | none ↦
                after_read b path r.error w
                  (read_loop b path reads (elim w as (λ _. b.State) [ ok t ↦ t | err m ↦ s ]))
          ]
          ≡ some (ok (b.sum (absorb s bytes))))
        (sym (write_some_lem s r.bytes))
        (round r.cancelled r.error (content reads)
          (λ rest k. read_loop_lem reads (absorb s r.bytes) rest k) e)
    where
      round :
          (c : Option String) (error : ReadError) (rest : Option (List ℕ))
          → ((ys : List ℕ)
              → rest ≡ some ys
              → read_loop b path reads (absorb s r.bytes)
                ≡ some (ok (b.sum (absorb (absorb s r.bytes) ys))))
          → elim c as (λ _. Option (List ℕ)) [
            | some m ↦ none
            | none ↦ elim error as (λ _. Option (List ℕ)) [
              | nil ↦ elim rest as (λ _. Option (List ℕ)) [
                | none ↦ none
                | some ys ↦ some (r.bytes ++ ys)
              ]
              | eof ↦ some r.bytes
              | failure m ↦ none
            ]
          ]
            ≡ some bytes
          → elim c as (λ _. Option (Result String)) [
            | some m ↦ some (err m)
            | none ↦
                after_read b path error
                  (ok (absorb s r.bytes))
                  (read_loop b path reads (absorb s r.bytes))
          ]
            ≡ some (ok (b.sum (absorb s bytes)))
      round (some m) error rest ih k = absurd (ground (arith, k))
      round none eof rest ih k = ap (λ ys. some (ok (b.sum (absorb s ys)))) (some_inj k)
      round none (failure m) rest ih k = absurd (ground (arith, k))
      round none nil none ih k = absurd (ground (arith, k))
      round none nil (some ys) ih k =
          ih ys refl
          ∙ ap (λ t. some (ok (b.sum t))) (parts s r.bytes ys ∙ ap (absorb s) (some_inj k))

-- The digest of a file that is read to its end does not depend on how the reads cut it: it is the one
-- of its whole content, and the loop ends.
pub compute_hash_lem :
    (b : Blake3) (h : IsStreaming b) (path : String) (reads : List Read) (bytes : List ℕ)
    → content reads ≡ some bytes
    → compute_hash b path none reads ≡ some (ok (b.sum (h.absorb b.new bytes)))
unfolding compute_hash
compute_hash_lem b h path reads bytes e = read_loop_lem b h path reads b.new bytes e
