-- ===== src/Coordinator/Drives/Slots.antt =====
-- What every step of the drives' goroutines of internal/coordinator/coordinator.go keeps.
use bit_rot_detector.Base.{
  ℕ, zero, suc, ◌≤◌, String, Option, none, some, List, [], ◌∷◌, ◌≡◌, refl, sym, ap, ◌∙◌, arith, ltb,
  map, some_inj, Bool-cases, inl, inr,
}
use bit_rot_detector.Coordinator.{DriveResult}
use bit_rot_detector.Coordinator.Drives.{
  Slot, waiting, running, done, Choice, acquire, release, spawn, held, begin, end, change_at, go_on,
  goes_on, results_of,
}

module _ (process : String → DriveResult) where
  -- The slot is the one of the path, and its result, if there is one, is what the drive returned.
  abbrev pub Right : String → Slot → Type 0
  Right p (waiting q) = q ≡ p
  Right p (running q) = q ≡ p
  Right p (done q r) = (q ≡ p) × (r ≡ process p)

  abbrev pub AreRight : List String → List Slot → Type 0
  AreRight [] [] = Unit
  AreRight [] (s ∷ slots) = ⊥
  AreRight (p ∷ paths) [] = ⊥
  AreRight (p ∷ paths) (s ∷ slots) = Right p s × AreRight paths slots

  spawn-AreRight : (paths : List String) → AreRight paths (spawn paths)
  unfolding spawn
  spawn-AreRight [] = tt
  spawn-AreRight (p ∷ paths) = (refl, spawn-AreRight paths)

  begin-Right : (p : String) (s : Slot) → Right p s → Right p (begin s)
  begin-Right p (waiting q) h = h
  begin-Right p (running q) h = h
  begin-Right p (done q r) h = h

  end-Right : (p : String) (s : Slot) → Right p s → Right p (end process s)
  end-Right p (waiting q) h = h
  end-Right p (running q) h = (h, ap process h)
  end-Right p (done q r) h = h

  change_at-AreRight :
      (f : Slot → Slot)
      → ((p : String) (s : Slot) → Right p s → Right p (f s))
      → (i : ℕ) (paths : List String) (slots : List Slot) → AreRight paths slots
      → AreRight paths (change_at f i slots)
  unfolding change_at
  change_at-AreRight f keeps i [] [] h = tt
  change_at-AreRight f keeps i [] (s ∷ slots) h = absurd h
  change_at-AreRight f keeps i (p ∷ paths) [] h = absurd h
  change_at-AreRight f keeps zero (p ∷ paths) (s ∷ slots) h = (keeps p s h.0, h.1)
  change_at-AreRight f keeps (suc i) (p ∷ paths) (s ∷ slots) h =
      (h.0, change_at-AreRight f keeps i paths slots h.1)

  held-begin : (i : ℕ) (slots : List Slot) → held (change_at begin i slots) ≤ suc (held slots)
  unfolding change_at held
  held-begin i [] = omega arith
  held-begin zero (waiting p ∷ slots) = omega arith
  held-begin zero (running p ∷ slots) = omega arith
  held-begin zero (done p r ∷ slots) = omega arith
  held-begin (suc i) (waiting p ∷ slots) = held-begin i slots
  held-begin (suc i) (running p ∷ slots) = omega (arith, held-begin i slots)
  held-begin (suc i) (done p r ∷ slots) = held-begin i slots

  held-end : (i : ℕ) (slots : List Slot) → held (change_at (end process) i slots) ≤ held slots
  unfolding change_at held
  held-end i [] = omega arith
  held-end zero (waiting p ∷ slots) = omega arith
  held-end zero (running p ∷ slots) = omega arith
  held-end zero (done p r ∷ slots) = omega arith
  held-end (suc i) (waiting p ∷ slots) = held-end i slots
  held-end (suc i) (running p ∷ slots) = omega (arith, held-end i slots)
  held-end (suc i) (done p r ∷ slots) = held-end i slots

  held-spawn : (paths : List String) → held (spawn paths) ≡ 0
  unfolding spawn held
  held-spawn [] = refl
  held-spawn (p ∷ paths) = held-spawn paths

  module _ (cap : ℕ) where
    abbrev pub Kept : List String → List Slot → Type 0
    Kept paths slots = AreRight paths slots × (held slots ≤ cap)

    go_on-Kept :
        (c : Choice) (paths : List String) (slots : List Slot)
        → Kept paths slots
        → Kept paths (go_on process cap c slots)
    unfolding go_on
    go_on-Kept (acquire i) paths slots (right, bound) = elim (Bool-cases (ltb (held slots) cap)) [
      | inl free ↦ rw free (
        change_at-AreRight begin begin-Right i paths slots right,
        let room : suc (held slots) ≤ cap = ground (arith, free) in
            omega (arith, held-begin i slots, room),
      )
      | inr full ↦ rw full (right, bound)
    ]
    go_on-Kept (release i) paths slots (right, bound) = (
      change_at-AreRight (end process) end-Right i paths slots right,
      omega (arith, held-end i slots, bound),
    )

    pub goes_on-Kept :
        (choices : List Choice) (paths : List String) (slots : List Slot)
        → Kept paths slots
        → Kept paths (goes_on process cap choices slots)
    unfolding goes_on
    goes_on-Kept [] paths slots h = h
    goes_on-Kept (c ∷ choices) paths slots h =
        goes_on-Kept choices paths (go_on process cap c slots) (go_on-Kept c paths slots h)

  pub spawn-Kept : (cap : ℕ) (paths : List String) → Kept cap paths (spawn paths)
  spawn-Kept cap paths = (spawn-AreRight paths, omega (arith, held-spawn paths))

  -- When all goroutines are done, the results are those of the paths, in their order.
  pub results_of-map :
      (paths : List String) (slots : List Slot) (rs : List DriveResult)
      → AreRight paths slots
      → results_of slots ≡ some rs
      → rs ≡ map process paths
  unfolding results_of
  results_of-map [] [] rs h e = sym (some_inj e)
  results_of-map [] (s ∷ slots) rs h e = absurd h
  results_of-map (p ∷ paths) [] rs h e = absurd h
  results_of-map (p ∷ paths) (waiting q ∷ slots) rs h e = absurd (ground (arith, e))
  results_of-map (p ∷ paths) (running q ∷ slots) rs h e = absurd (ground (arith, e))
  results_of-map (p ∷ paths) (done q r ∷ slots) rs h e =
      go (results_of slots) (results_of-map paths slots) e
    where
      go :
          (o : Option (List DriveResult))
          → ((ss : List DriveResult) → AreRight paths slots → o ≡ some ss → ss ≡ map process paths)
          → elim o as (λ _. Option (List DriveResult)) [ none ↦ none | some ss ↦ some (r ∷ ss) ]
            ≡ some rs
          → rs ≡ map process (p ∷ paths)
      go none ih k = absurd (ground (arith, k))
      go (some ss) ih k =
          sym (some_inj k) ∙ ap (λ x. x ∷ ss) h.0.1 ∙ ap (λ l. process p ∷ l) (ih ss h.1 refl)
