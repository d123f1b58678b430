-- ===== src/Watcher/AddTree.antt =====
-- `addTree` of internal/watcher/watcher.go: the walk over a directory tree that adds its directories to
-- fsnotify. `lstat` is what `os.Lstat` and `filepath.WalkDir` find at a path, and `refuses` tells at
-- which paths `Add` returns an error, which is only logged. The list has the calls of `Add` that
-- returned no error.
use bit_rot_detector.Base.{String, Bool, Option, none, some, List, [], ◌∷◌, ◌++◌, if◌then◌else◌}
use bit_rot_detector.Domain.{Result, ok, err}

mutual
  -- What `WalkDir` meets: a directory, with the entries that could be read; anything else, a symbolic
  -- link too; or an error, which is only logged.
  pub data Tree : Type 0 where
    directory : (path : String) → Entries → Tree
    other unreadable : Tree

  pub data Entries : Type 0 where
    end : Entries
    entry : Tree → Entries → Entries

module _ (refuses : String → Bool) where
  abbrev pub add_dir : String → List String → List String
  add_dir path added = if refuses path then added else added ++ (path ∷ [])

  -- The function given to `WalkDir`, at each entry in turn.
  unfoldable mutual
    pub walk_tree : Tree → List String → List String
    walk_tree (directory path entries) added = walk_entries entries (add_dir path added)
    walk_tree other added = added
    walk_tree unreadable added = added

    pub walk_entries : Entries → List String → List String
    walk_entries end added = added
    walk_entries (entry t entries) added = walk_entries entries (walk_tree t added)

  -- `addTree`
  unfoldable pub add_tree : Result Tree → List String → Option String × List String
  add_tree (err e) added = (some e, added)
  add_tree (ok t) added = (none, walk_tree t added)

  -- The loop of `New`.
  unfoldable pub add_trees :
      (String → Result Tree) → List String → List String → Result (List String)
  add_trees lstat [] added = ok added
  add_trees lstat (root ∷ roots) added =
      let (e, added') = add_tree (lstat root) added in
      let rest = add_trees lstat roots added' in elim e [ some message ↦ err message | none ↦ rest ]
