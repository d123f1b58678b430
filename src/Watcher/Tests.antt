-- ===== src/Watcher/Tests.antt =====
-- A watch of one root, and the theorems about the debounce at it.
use bit_rot_detector.Watcher.AddTree.{Tree, directory, other, end, entry}
use bit_rot_detector.Watcher.Added.{Absent, Covers, directories, new_watcher_lem, turn-adds_created}
use bit_rot_detector.Base.{
  ℕ, ◌+◌, ◌≤◌, String, true, false, none, some, List, [], ◌∷◌, ◌≡◌, ◌≢◌, ◌⊎◌, refl, arith,
  string_eq, ◌==◌, All, contains, leb, if◌then◌else◌,
}
use bit_rot_detector.Watcher.{
  Watch, err, ok, new_watcher, Result, Tree, changes, fires, stops, idle, ignored, root_for,
  debounce_of, fire, change, happen, turn, run,
}
use bit_rot_detector.Watcher.Debounce.{After, run-burst}
use bit_rot_detector.Watcher.Kept.{reported_in, run-keeps_change}

-- `/d` is the root of all paths but those of its hidden entries.
abbrev root_of : String → String
root_of =
    root_for (λ root path. some (if path == "/d/.cache" then ".cache" else "photo")) ("/d" ∷ [])

abbrev window : ℕ
window = debounce_of 3_000

program : Unit {0}
unfolding ignored root_for fire change happen turn run string_eq
program = tt

plain : ignored "photo" ≡ false
unfolding program
plain = refl

-- A change of a hidden entry is reported under its own path.
hidden_entry : root_of "/d/.cache" ≡ "/d/.cache"
unfolding program
hidden_entry = refl

burst : All (After (λ p. "photo") 10) (changes 20 "/d/photo" none ∷ changes 30 "/d/photo" none ∷ [])
unfolding program
burst = ((omega arith, refl), ((omega arith, refl), tt))

one_call :
    (run
      (λ p. false)
      (λ p. "photo")
      root_of
      window
      (changes 10 "/d/photo" none
        ∷ changes 20 "/d/photo" none
        ∷ fires 100_000_010
        ∷ fires 100_000_020
        ∷ [])
      idle).calls
    ≡ (100_000_020, "/d" ∷ []) ∷ []
unfolding program
one_call = refl

run-burst_example :
    let v =
      run
        (λ p. false)
        (λ p. "photo")
        root_of
        window
        (changes 10 "/d/photo" none ∷ changes 20 "/d/photo" none ∷ changes 30 "/d/photo" none ∷ [])
        idle in
    let u = turn (λ p. false) (λ p. "photo") root_of window (fires 200_000_000) v in
    (at : ℕ) × (v.timer ≡ some at)
    × (10 + window ≤ at)
    × (contains v.pending (root_of "/d/photo") ≡ true)
    × (u.calls ≡ (if leb at 200_000_000 then (200_000_000, v.pending) ∷ [] else []))
    × (u.pending ≡ (if leb at 200_000_000 then [] else v.pending))
run-burst_example =
    run-burst (λ p. false) (λ p. "photo") root_of window 10 200_000_000 "/d/photo" none
      (changes 20 "/d/photo" none ∷ changes 30 "/d/photo" none ∷ []) idle refl plain burst

run-keeps_change_example :
    let v =
      run
        (λ p. false)
        (λ p. "photo")
        root_of
        window
        (changes 10 "/d/photo" none ∷ fires 20 ∷ fires 100_000_010 ∷ stops ∷ [])
        idle in
    (new : List (ℕ × List String)) × (v.calls ≡ new)
    × ((reported_in new (root_of "/d/photo") ≡ true)
        ⊎ ((contains v.pending (root_of "/d/photo") ≡ true) × (v.timer ≢ none)))
run-keeps_change_example =
    run-keeps_change (λ p. false) (λ p. "photo") root_of window 10 "/d/photo" none
      (fires 20 ∷ fires 100_000_010 ∷ stops ∷ []) idle refl plain

-- /d with a directory below it and a link.
abbrev tree : Tree
tree = directory "/d" (entry (directory "/d/a" end) (entry other end))

abbrev found_at : String → Result Tree
found_at p = if p == "/d" then ok tree else err "no such file or directory"

new_watcher_lem_example :
    let out = new_watcher (λ p. false) none found_at ("/d" ∷ []) in
    ((e : String) × (out ≡ err e) × ((none ≡ some e) ⊎ Absent found_at ("/d" ∷ []) e))
    ⊎ ((w : Watch) × (out ≡ ok w)
        × (w.pending ≡ [])
        × (w.timer ≡ none)
        × (w.stopped ≡ false)
        × All (Covers (λ p. false) found_at w.added) ("/d" ∷ []))
new_watcher_lem_example = new_watcher_lem (λ p. false) none found_at ("/d" ∷ [])

inside : contains (directories tree) "/d/a" ≡ true
unfolding directories string_eq
inside = refl

turn-adds_created_example :
    contains
      (turn
        (λ p. false)
        (λ p. "photo")
        root_of
        window
        (changes 10 "/d" (some (ok tree)))
        idle).added
      "/d/a"
    ≡ true
turn-adds_created_example =
    turn-adds_created (λ p. false) (λ p. "photo") root_of window 10 "/d" tree idle "/d/a" refl plain
      inside refl
