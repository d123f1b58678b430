-- ===== src/Config/Paths.antt =====
-- The paths that `Load` of internal/config/config.go collects.
use bit_rot_detector.Base.{
  subst, String, ◌<>◌, Bool, true, false, List, [], ◌∷◌, ◌++◌, ◌==◌, ◌≡◌, ◌⊎◌, inl, inr, refl,
  arith, string_eq, contains, contains-append, ==_refl, All, All-append, Bool-cases, if◌then◌else◌,
}
use bit_rot_detector.Domain.{ok, err, ok_inj}
use bit_rot_detector.Config.{Lookup, add_path, collect_paths}

abbrev pub Distinct : List String → Type 0
Distinct [] = Unit
Distinct (x ∷ xs) = (contains xs x ≡ false) × Distinct xs

contains-snoc :
    (xs : List String) (a x : String)
    → contains xs x ≡ false
    → (a == x) ≡ false
    → contains (xs ++ (a ∷ [])) x ≡ false
contains-snoc [] a x h differ = ground arith
contains-snoc (y ∷ xs) a x h differ = ground (arith, contains-snoc xs a x)

Distinct-snoc :
    (xs : List String) (a : String)
    → Distinct xs
    → contains xs a ≡ false
    → Distinct (xs ++ (a ∷ []))
Distinct-snoc [] a h new = (refl, tt)
Distinct-snoc (x ∷ xs) a (differ, rest) new =
    (contains-snoc xs a x differ (ground arith), Distinct-snoc xs a rest (ground arith))

module _ (go : Lookup) where
  open go use {exists, trim}

  -- Each path is there and not empty, and no path is listed twice.
  abbrev pub Good : List String → Type 0
  Good paths = All (λ p. ((p == "") ≡ false) × (exists p ≡ true)) paths × Distinct paths

  -- Each part is empty or one of the paths.
  abbrev pub Covers : List String → List String → Type 0
  Covers raws paths =
      All (λ raw. ((trim raw == "") ≡ true) ⊎ (contains paths (trim raw) ≡ true)) raws

  abbrev Grown : List String → List String → Type 0
  Grown old new = (q : String) → contains old q ≡ true → contains new q ≡ true

  add_path-Good :
      (paths : List String) (p : String)
      → Good paths
      → ((p == "") ≡ true) ⊎ (exists p ≡ true)
      → Good (add_path go paths p)
        × Grown paths (add_path go paths p)
        × (((p == "") ≡ true) ⊎ (contains (add_path go paths p) p ≡ true))
  unfolding add_path
  add_path-Good paths p good here = elim (Bool-cases (p == "")) [
    | inl empty ↦ rw empty (good, (λ q h. h), inl refl)
    | inr full ↦ elim (Bool-cases (contains paths p)) [
      | inl known ↦ rw (full, known) (good, (λ q h. h), inr known)
      | inr new ↦
          rw (full, new)
            (
              (
                All-append _ paths (p ∷ []) good.0 ((full, ground (arith, here, full)), tt),
                Distinct-snoc paths p good.1 new,
              ),
              (λ q h. contains-append paths (p ∷ []) q (inl h)),
              inr (contains-append paths (p ∷ []) p (inr (ground (arith, ==_refl p)))),
            )
    ]
  ]

  pub collect_paths-Good :
      (raws paths out : List String)
      → Good paths
      → collect_paths go raws paths ≡ ok out
      → Good out × Grown paths out × Covers raws out
  unfolding collect_paths
  collect_paths-Good [] paths out good h =
      subst (λ o. Good o × Grown paths o × Unit) (ok_inj h) (good, (λ q k. k), tt)
  collect_paths-Good (raw ∷ raws) paths out good h =
      go_on (collect_paths-Good raws (add_path go paths (trim raw)) out) (trim raw == "") refl
        (exists (trim raw)) refl h
    where
      after :
          (Good (add_path go paths (trim raw))
            → collect_paths go raws (add_path go paths (trim raw)) ≡ ok out
            → Good out × Grown (add_path go paths (trim raw)) out × Covers raws out)
          → ((trim raw == "") ≡ true) ⊎ (exists (trim raw) ≡ true)
          → collect_paths go raws (add_path go paths (trim raw)) ≡ ok out
          → Good out × Grown paths out × Covers (raw ∷ raws) out
      after ih here rest =
          let (good_next, grown, covered) = add_path-Good paths (trim raw) good here in
          let (good_out, grows, covers) = ih good_next rest in
          let here_too : ((trim raw == "") ≡ true) ⊎ (contains out (trim raw) ≡ true) =
            elim covered [ inl empty ↦ inl empty | inr listed ↦ inr (grows (trim raw) listed) ] in
          (good_out, (λ q k. grows q (grown q k)), (here_too, covers))

      go_on :
          (Good (add_path go paths (trim raw))
            → collect_paths go raws (add_path go paths (trim raw)) ≡ ok out
            → Good out × Grown (add_path go paths (trim raw)) out × Covers raws out)
          → (b : Bool) → (trim raw == "") ≡ b
          → (c : Bool) → exists (trim raw) ≡ c
          → (if b
              then collect_paths go raws (add_path go paths (trim raw))
              else if c
              then collect_paths go raws (add_path go paths (trim raw))
              else err ("target directory does not exist: " <> trim raw))
            ≡ ok out
          → Good out × Grown paths out × Covers (raw ∷ raws) out
      go_on ih true empty c e rest = after ih (inl empty) rest
      go_on ih false full true here rest = after ih (inr here) rest
      go_on ih false full false gone rest = absurd (ground (arith, rest))
