-- ===== src/Watcher/Debounce.antt =====
-- The debounce of internal/watcher/watcher.go: a burst makes one call, and no change is lost.
use bit_rot_detector.Base.{
  Option, contains-append, ℕ, ◌+◌, ◌≤◌, String, Bool, true, false, none, some, List, [], ◌∷◌, ◌++◌,
  ◌≡◌, refl, sym, ap, ◌∙◌, subst, arith, string_eq, contains, ==_refl, leb, if◌then◌else◌, if_ind,
  All,
}
use bit_rot_detector.Watcher.{
  Tree, Result, Happening, changes, fires, watch_error, stops, Watch, ignored, add_root, fire,
  change, note, called, happen, turn, run,
}

-- A change that is not ignored and comes at `t` or later.
abbrev pub After : (String → String) → ℕ → Happening → Type 0
After base t (changes now name created) = (t ≤ now) × (ignored (base name) ≡ false)
After base t (fires now) = ⊥
After base t watch_error = Unit
After base t stops = ⊥

pub contains-add_root :
    (root : String) (pending : List String) → contains (add_root root pending) root ≡ true
contains-add_root root pending =
    ground (arith, contains-append pending (root ∷ []) root, ==_refl root)

pub contains_still :
    (root r : String) (pending : List String)
    → contains pending r ≡ true
    → contains (add_root root pending) r ≡ true
contains_still root r pending h = ground (arith, contains-append pending (root ∷ []) r)

called_lem :
    (now : ℕ) (pending : List String) (calls : List (ℕ × List String)) (root : String)
    → contains pending root ≡ true
    → called now pending calls ≡ calls ++ ((now, pending) ∷ [])
called_lem now [] calls root h = absurd (ground arith)
called_lem now (r ∷ pending) calls root h = refl

module _ (refuses : String → Bool) (base : String → String) (root_of : String → String)
    (debounce : ℕ) where
  -- The watch is armed for no earlier than `t`, with `r` among what it will report.
  record Armed (t : ℕ) (r : String) (w : Watch) : Type 0 where
    deadline : (at : ℕ) × (w.timer ≡ some at) × (t + debounce ≤ at)
    reported : contains w.pending r ≡ true
    running : w.stopped ≡ false

  note-Armed :
      (now t : ℕ) (name : String) (created : Option (Result Tree)) (w : Watch)
      → t ≤ now
      → w.stopped ≡ false
      → Armed t (root_of name) (note refuses base root_of debounce now name created w)
  note-Armed now t name created w late going = record {
    deadline = (now + debounce, refl, omega (arith, late));
    reported = contains-add_root (root_of name) w.pending;
    running = going;
  }

  note-keeps :
      (now t : ℕ) (name r : String) (created : Option (Result Tree)) (w : Watch)
      → t ≤ now
      → Armed t r w
      → Armed t r (note refuses base root_of debounce now name created w)
  note-keeps now t name r created w late h = record {
    deadline = (now + debounce, refl, omega (arith, late));
    reported = contains_still (root_of name) r w.pending h.reported;
    running = h.running;
  }

  abbrev Run : List Happening → Watch → Watch
  Run = run refuses base root_of debounce

  pub turn-changes :
      (now : ℕ) (name : String) (created : Option (Result Tree)) (w : Watch)
      → ignored (base name) ≡ false
      → w.stopped ≡ false
      → turn refuses base root_of debounce (changes now name created) w
        ≡ note refuses base root_of debounce now name created w
  unfolding turn happen change
  turn-changes now name created w plain going =
      ap (λ b. if b then w else change refuses base root_of debounce now name created w) going
      ∙ ap (λ b. if b then w else note refuses base root_of debounce now name created w) plain

  turn-Armed :
      (h : Happening) (t : ℕ) (r : String) (w : Watch)
      → After base t h
      → Armed t r w
      → Armed t r (turn refuses base root_of debounce h w)
        × ((turn refuses base root_of debounce h w).calls ≡ w.calls)
  unfolding turn happen
  turn-Armed (changes now name created) t r w (late, plain) h =
      let e = turn-changes now name created w plain h.running in
      (subst (Armed t r) (sym e) (note-keeps now t name r created w late h), ap (λ v. v.calls) e)
  turn-Armed (fires now) t r w late h = absurd late
  turn-Armed watch_error t r w late h =
      let e : turn refuses base root_of debounce watch_error w ≡ w =
        if_ind (λ (v : Watch). v ≡ w) w.stopped refl refl in
      (subst (Armed t r) (sym e) h, ap (λ v. v.calls) e)
  turn-Armed stops t r w late h = absurd late

  run-Armed :
      (hs : List Happening) (t : ℕ) (r : String) (w : Watch)
      → All (After base t) hs
      → Armed t r w
      → Armed t r (Run hs w) × ((Run hs w).calls ≡ w.calls)
  unfolding run
  run-Armed [] t r w late h = (h, refl)
  run-Armed (x ∷ hs) t r w (now, late) h =
      let (armed, same) = turn-Armed x t r w now h in
      let (armed', same') = run-Armed hs t r (turn refuses base root_of debounce x w) late armed in
      (armed', same' ∙ same)

  fire-calls :
      (now at : ℕ) (root : String) (v : Watch)
      → contains v.pending root ≡ true
      → let u = fire refuses base root_of debounce now (some at) v in
        (u.calls ≡ (if leb at now then v.calls ++ ((now, v.pending) ∷ []) else v.calls))
        × (u.pending ≡ (if leb at now then [] else v.pending))
  unfolding fire
  fire-calls now at root v h = go (leb at now)
    where
      go :
          (b : Bool)
          → let u : Watch =
              if b
              then record v { pending = []; timer = none; calls = called now v.pending v.calls }
              else v in
            (u.calls ≡ (if b then v.calls ++ ((now, v.pending) ∷ []) else v.calls))
            × (u.pending ≡ (if b then [] else v.pending))
      go true = (called_lem now v.pending v.calls root h, refl)
      go false = (refl, refl)

  -- After a change at the time `t` that is not ignored, and then other such changes, none of them
  -- earlier, and errors: the timer is armed for a time that is at least the debounce window after `t`;
  -- a timer that is taken before then makes no call; one that is taken then makes exactly one call,
  -- which reports all roots that are pending, that of this change among them, and leaves none pending.
  pub run-burst :
      (t now : ℕ) (name : String) (created : Option (Result Tree)) (rest : List Happening)
      (w : Watch)
      → w.stopped ≡ false
      → ignored (base name) ≡ false
      → All (After base t) rest
      → let v = run refuses base root_of debounce (changes t name created ∷ rest) w in
        let u = turn refuses base root_of debounce (fires now) v in
        (at : ℕ) × (v.timer ≡ some at)
        × (t + debounce ≤ at)
        × (contains v.pending (root_of name) ≡ true)
        × (u.calls ≡ (if leb at now then w.calls ++ ((now, v.pending) ∷ []) else w.calls))
        × (u.pending ≡ (if leb at now then [] else v.pending))
  unfolding run turn happen
  run-burst t now name created rest w going plain late =
      let first =
        subst (Armed t (root_of name)) (sym (turn-changes t name created w plain going))
          (note-Armed t t name created w (omega arith) going) in
      let (armed, same) = run-Armed rest t (root_of name) _ late first in
      let (at, set, wait) = armed.deadline in
      let v = run refuses base root_of debounce (changes t name created ∷ rest) w in
      let e =
        ap (λ b. if b then v else fire refuses base root_of debounce now v.timer v) armed.running
        ∙ ap (λ o. fire refuses base root_of debounce now o v) set in
      let (made, left) = fire-calls now at (root_of name) v armed.reported in
      let kept = same ∙ ap (λ u. u.calls) (turn-changes t name created w plain going) in
      (
        at,
        set,
        wait,
        armed.reported,
        ap (λ u. u.calls) e
            ∙ made
            ∙ ap (λ c. if leb at now then c ++ ((now, v.pending) ∷ []) else c) kept,
        ap (λ u. u.pending) e ∙ left,
      )
