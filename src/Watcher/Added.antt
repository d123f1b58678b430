-- ===== src/Watcher/Added.antt =====
-- Which directories internal/watcher/watcher.go watches: those of the trees, and those created later.
use bit_rot_detector.Base.{
  ℕ, ==_refl, String, Bool, true, false, not, ◌&&◌, ◌||◌, Option, none, some, List, [], ◌∷◌, ◌++◌,
  ◌==◌, ◌≡◌, ◌⊎◌, inl, inr, refl, sym, ap, ◌∙◌, subst, arith, string_eq, ==_iff, contains, All,
  if◌then◌else◌,
}
use bit_rot_detector.Domain.{Result, ok, err}
use bit_rot_detector.Watcher.AddTree.{
  Tree, Entries, directory, other, unreadable, end, entry, add_dir, walk_tree, walk_entries,
  add_tree, add_trees,
}
use bit_rot_detector.Watcher.Debounce.{turn-changes}
use bit_rot_detector.Watcher.{idle, changes, Watch, ignored, turn, new_watcher}

-- The directories of a tree.
unfoldable mutual
  pub directories : Tree → List String
  directories (directory path entries) = path ∷ directories_in entries
  directories other = []
  directories unreadable = []

  pub directories_in : Entries → List String
  directories_in end = []
  directories_in (entry t entries) = directories t ++ directories_in entries

contains-both :
    (xs ys : List String) (p : String) → contains (xs ++ ys) p ≡ (contains xs p || contains ys p)
contains-both [] ys p = refl
contains-both (x ∷ xs) ys p =
    ap (λ b. (p == x) || b) (contains-both xs ys p) ∙ assoc (p == x) (contains xs p) (contains ys p)
  where
    assoc : (a b c : Bool) → (a || (b || c)) ≡ ((a || b) || c)
    assoc true b c = refl
    assoc false b c = refl

-- What was there, or is among the first and is not refused, or among the second.
both_added :
    (was a b kept : Bool) → ((was || (a && kept)) || (b && kept)) ≡ (was || ((a || b) && kept))
both_added true a b kept = refl
both_added false true b true = refl
both_added false true true false = refl
both_added false true false false = refl
both_added false false b kept = refl

or_false : (b : Bool) → (b || false) ≡ b
or_false true = refl
or_false false = refl

or_true : (b : Bool) → (b || true) ≡ true
or_true true = refl
or_true false = refl

-- The error is that of `os.Lstat` at one of the roots.
abbrev pub Absent : (String → Result Tree) → List String → String → Type 0
Absent lstat roots e = (root : String) × (contains roots root ≡ true) × (lstat root ≡ err e)

module _ (refuses : String → Bool) where
  add_dir-contains :
      (path p : String) (added : List String)
      → contains (add_dir refuses path added) p
        ≡ (contains added p || ((p == path) && not (refuses p)))
  add_dir-contains path p added = go (refuses path) refl (p == path) refl
    where
      go :
          (b : Bool)
          → refuses path ≡ b
          → (c : Bool) → (p == path) ≡ c
          → contains (if b then added else added ++ (path ∷ [])) p
            ≡ (contains added p || (c && not (refuses p)))
      go true h true same =
          let e = ap refuses ((==_iff p path).0 same) in rw (e, h, or_false (contains added p)) refl
      go true h false same = sym (or_false (contains added p))
      go false h true same =
          let e = ap refuses ((==_iff p path).0 same) in
          rw (contains-both added (path ∷ []) p, same, e, h) refl
      go false h false same = rw (contains-both added (path ∷ []) p, same) refl

  mutual
    unfolding walk_tree directories

    walk_tree-contains :
        (t : Tree) (p : String) (added : List String)
        → contains (walk_tree refuses t added) p
          ≡ (contains added p || (contains (directories t) p && not (refuses p)))
    walk_tree-contains (directory path entries) p added =
        walk_entries-contains entries p (add_dir refuses path added)
        ∙ ap (λ b. b || (contains (directories_in entries) p && not (refuses p)))
            (add_dir-contains path p added)
        ∙ both_added (contains added p) (p == path) (contains (directories_in entries) p)
            (not (refuses p))
    walk_tree-contains other p added = sym (or_false (contains added p))
    walk_tree-contains unreadable p added = sym (or_false (contains added p))

    walk_entries-contains :
        (es : Entries) (p : String) (added : List String)
        → contains (walk_entries refuses es added) p
          ≡ (contains added p || (contains (directories_in es) p && not (refuses p)))
    walk_entries-contains end p added = sym (or_false (contains added p))
    walk_entries-contains (entry t es) p added =
        walk_entries-contains es p (walk_tree refuses t added)
        ∙ ap (λ b. b || (contains (directories_in es) p && not (refuses p)))
            (walk_tree-contains t p added)
        ∙ both_added (contains added p) (contains (directories t) p)
            (contains (directories_in es) p) (not (refuses p))
        ∙ ap (λ b. contains added p || (b && not (refuses p)))
            (sym (contains-both (directories t) (directories_in es) p))

  -- All directories of the tree at the root are among those that were added, but the refused ones.
  abbrev pub Covers : (String → Result Tree) → List String → String → Type 0
  Covers lstat added root =
      (t : Tree) × (lstat root ≡ ok t)
      × ((p : String)
          → contains (directories t) p ≡ true
          → refuses p ≡ false
          → contains added p ≡ true)

  abbrev Outcome :
      (String → Result Tree) → (roots added : List String) → Result (List String) → Type 0
  Outcome lstat roots added out =
      ((e : String) × (out ≡ err e) × Absent lstat roots e)
      ⊎ ((after : List String) × (out ≡ ok after)
          × ((p : String) → contains added p ≡ true → contains after p ≡ true)
          × All (Covers lstat after) roots)

  walk_tree-keeps :
      (t : Tree) (p : String) (added : List String)
      → contains added p ≡ true
      → contains (walk_tree refuses t added) p ≡ true
  walk_tree-keeps t p added h = walk_tree-contains t p added ∙ rw h refl

  walk_tree-adds :
      (t : Tree) (p : String) (added : List String)
      → contains (directories t) p ≡ true
      → refuses p ≡ false
      → contains (walk_tree refuses t added) p ≡ true
  walk_tree-adds t p added h k =
      walk_tree-contains t p added ∙ rw (h, k) (or_true (contains added p))

  add_trees-Outcome :
      (lstat : String → Result Tree) (roots added : List String)
      → Outcome lstat roots added (add_trees refuses lstat roots added)
  unfolding add_trees add_tree
  add_trees-Outcome lstat [] added = inr (added, refl, λ p h. h, tt)
  add_trees-Outcome lstat (root ∷ roots) added =
      go (lstat root) refl (λ t. add_trees-Outcome lstat roots (walk_tree refuses t added))
    where
      step : Result Tree → Result (List String)
      step found =
          let (e, added') = add_tree refuses found added in
          let rest = add_trees refuses lstat roots added' in
          elim e [ some message ↦ err message | none ↦ rest ]

      go :
          (found : Result Tree)
          → lstat root ≡ found
          → ((t : Tree)
              → let before = walk_tree refuses t added in
                Outcome lstat roots before (add_trees refuses lstat roots before))
          → Outcome lstat (root ∷ roots) added (step found)
      go (err e) here next = inl (e, refl, (root, ground (arith, ==_refl root), here))
      go (ok t) here next = elim (next t) [
        | inl (e, fails, (r, among, absent)) ↦ inl (e, fails, (r, ground (arith, among), absent))
        | inr (after, ends, keeps, covers) ↦ inr (
          after,
          ends,
          λ p h. keeps p (walk_tree-keeps t p added h),
          ((t, here, λ p h k. keeps p (walk_tree-adds t p added h k)), covers),
        )
      ]

  -- `New` returns an error of fsnotify, or that of `os.Lstat` at a root, or else a watcher of an idle
  -- loop. Then each root was there, and all directories of its tree that fsnotify did not refuse are
  -- watched.
  pub new_watcher_lem :
      (starts : Option String) (lstat : String → Result Tree) (roots : List String)
      → let out = new_watcher refuses starts lstat roots in
        ((e : String) × (out ≡ err e) × ((starts ≡ some e) ⊎ Absent lstat roots e))
        ⊎ ((w : Watch) × (out ≡ ok w)
            × (w.pending ≡ [])
            × (w.timer ≡ none)
            × (w.stopped ≡ false)
            × All (Covers lstat w.added) roots)
  unfolding new_watcher
  new_watcher_lem (some e) lstat roots = inl (e, refl, inl refl)
  new_watcher_lem none lstat roots = elim (add_trees-Outcome lstat roots []) [
    | inl (e, fails, absent) ↦ inl (e, ap watcher_of fails, inr absent)
    | inr (added, ends, _, covers) ↦
        inr (record idle { added = added }, ap watcher_of ends, refl, refl, refl, covers)
  ]
    where
      watcher_of : Result (List String) → Result Watch
      watcher_of out = elim out [ err e ↦ err e | ok added ↦ ok (record idle { added = added }) ]

module _ (refuses : String → Bool) (base : String → String) (root_of : String → String)
    (debounce : ℕ) where
  -- At the end of the turn that handles the creation of a directory that is not ignored, each directory of
  -- its tree that fsnotify does not refuse has been given to fsnotify, however deep it lies and whatever
  -- could not be read on the way.
  pub turn-adds_created :
      (t : ℕ) (name : String) (tree : Tree) (w : Watch) (p : String)
      → w.stopped ≡ false
      → ignored (base name) ≡ false
      → contains (directories tree) p ≡ true
      → refuses p ≡ false
      → contains (turn refuses base root_of debounce (changes t name (some (ok tree))) w).added p
        ≡ true
  unfolding add_tree
  turn-adds_created t name tree w p going plain inside taken =
      subst (λ (v : Watch). contains v.added p ≡ true)
        (sym (turn-changes refuses base root_of debounce t name (some (ok tree)) w plain going))
        (walk_tree-adds refuses tree p w.added inside taken)
