-- ===== src/Watcher/Kept.antt =====
-- No change is lost in the event loop of internal/watcher/watcher.go.
use bit_rot_detector.Base.{
  ℕ, ◌+◌, String, Bool, true, false, ◌||◌, Option, none, some, List, [], ◌∷◌, ◌++◌, ◌≡◌, ◌≢◌, ◌⊎◌,
  inl, inr, refl, sym, ap, ◌∙◌, subst, arith, string_eq, contains, leb, if_ind, append_assoc,
  append-nil,
}
use bit_rot_detector.Watcher.{
  Tree, Result, Happening, changes, fires, watch_error, stops, Watch, ignored, add_root, fire,
  change, called, happen, turn, run,
}
use bit_rot_detector.Watcher.Debounce.{contains_still, contains-add_root, turn-changes}

-- The root is among those that some of the calls report.
abbrev pub reported_in : List (ℕ × List String) → String → Bool
reported_in [] r = false
reported_in ((now, roots) ∷ calls) r = contains roots r || reported_in calls r

-- Since the calls `before`, the root has been reported, or it waits and the timer is armed.
abbrev Held : List (ℕ × List String) → String → Watch → Type 0
Held before r w =
    (new : List (ℕ × List String)) × (w.calls ≡ before ++ new)
    × ((reported_in new r ≡ true) ⊎ ((contains w.pending r ≡ true) × (w.timer ≢ none)))

reported_in-append :
    (xs ys : List (ℕ × List String)) (r : String)
    → (reported_in xs r ≡ true) ⊎ (reported_in ys r ≡ true)
    → reported_in (xs ++ ys) r ≡ true
reported_in-append [] ys r (inl h) = absurd (ground arith)
reported_in-append [] ys r (inr h) = h
reported_in-append ((now, roots) ∷ xs) ys r h = ground (arith, reported_in-append xs ys r)

module _ (refuses : String → Bool) (base : String → String) (root_of : String → String)
    (debounce : ℕ) (before : List (ℕ × List String)) (r : String) where
  called-Held :
      (now : ℕ) (pending : List String) (calls new : List (ℕ × List String))
      → calls ≡ before ++ new
      → (reported_in new r ≡ true) ⊎ (contains pending r ≡ true)
      → (new' : List (ℕ × List String)) × (called now pending calls ≡ before ++ new')
        × (reported_in new' r ≡ true)
  called-Held now [] calls new e (inl h) = (new, e, h)
  called-Held now [] calls new e (inr h) = absurd (ground arith)
  called-Held now (p ∷ pending) calls new e h = (
    new ++ ((now, p ∷ pending) ∷ []),
    ap (λ c. c ++ ((now, p ∷ pending) ∷ [])) e ∙ append_assoc before new _,
    reported_in-append new ((now, p ∷ pending) ∷ []) r (ground arith),
  )

  fire-Held :
      (now : ℕ) (o : Option ℕ) (w : Watch)
      → w.timer ≡ o
      → Held before r w
      → Held before r (fire refuses base root_of debounce now o w)
  unfolding fire
  fire-Held now none w set h = h
  fire-Held now (some at) w set (new, e, h) =
      if_ind (Held before r) (leb at now)
        (let (new', e', h') = called-Held now w.pending w.calls new e (ground arith) in
          (new', e', inl h'))
        (new, e, h)

  change-Held :
      (now : ℕ) (name : String) (created : Option (Result Tree)) (w : Watch)
      → Held before r w
      → Held before r (change refuses base root_of debounce now name created w)
  unfolding change
  change-Held now name created w (new, e, h) =
      if_ind (Held before r) (ignored (base name)) (new, e, h) (new, e, noted h)
    where
      noted :
          (reported_in new r ≡ true) ⊎ ((contains w.pending r ≡ true) × (w.timer ≢ none))
          → (reported_in new r ≡ true)
            ⊎ ((contains (add_root (root_of name) w.pending) r ≡ true)
                × (some (now + debounce) ≢ none))
      noted (inl h) = inl h
      noted (inr (waits, set)) =
          inr (contains_still (root_of name) r w.pending waits, λ k. ground arith)

  turn-Held :
      (x : Happening) (w : Watch)
      → Held before r w
      → Held before r (turn refuses base root_of debounce x w)
  unfolding turn happen
  turn-Held (changes now name created) w h =
      if_ind (Held before r) w.stopped h (change-Held now name created w h)
  turn-Held (fires now) w h = if_ind (Held before r) w.stopped h (fire-Held now w.timer w refl h)
  turn-Held watch_error w h = if_ind (Held before r) w.stopped h h
  turn-Held stops w h = if_ind (Held before r) w.stopped h h

  run-Held :
      (xs : List Happening) (w : Watch)
      → Held before r w
      → Held before r (run refuses base root_of debounce xs w)
  unfolding run
  run-Held [] w h = h
  run-Held (x ∷ xs) w h = run-Held xs _ (turn-Held x w h)

module _ (refuses : String → Bool) (base : String → String) (root_of : String → String)
    (debounce : ℕ) where
  -- After a change that is not ignored, whatever happens next, even if the loop ends: either a call
  -- made since then has reported its root, or the root is pending and the timer is armed. No call that
  -- was made is taken back.
  pub run-keeps_change :
      (t : ℕ) (name : String) (created : Option (Result Tree)) (xs : List Happening) (w : Watch)
      → w.stopped ≡ false
      → ignored (base name) ≡ false
      → let v = run refuses base root_of debounce (changes t name created ∷ xs) w in
        (new : List (ℕ × List String)) × (v.calls ≡ w.calls ++ new)
        × ((reported_in new (root_of name) ≡ true)
            ⊎ ((contains v.pending (root_of name) ≡ true) × (v.timer ≢ none)))
  unfolding run
  run-keeps_change t name created xs w going plain =
      run-Held refuses base root_of debounce w.calls (root_of name) xs _ (
        subst (Held w.calls (root_of name))
          (sym (turn-changes refuses base root_of debounce t name created w plain going))
          (
            [],
            sym (append-nil w.calls),
            inr (contains-add_root (root_of name) w.pending, λ k. ground arith),
          ))
