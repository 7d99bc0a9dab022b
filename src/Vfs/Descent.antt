-- ===== src/Vfs/Descent.antt =====
-- Path lookup (kernel/src/fs/vfs.c) in a tree of directories with file systems mounted in it.
use elysium_os.Base.{
  ℕ, ◌+◌, ◌≡◌, ◌⊎◌, true, List, [], ◌∷◌, Option, none, some, ◌==◌, if◌then◌else◌, length, Result,
  done, failed, enoent, Run, ok,
}
use elysium_os.Vfs.{Call, FileSystems}
use elysium_os.Vfs.Walk.{Component}

module _ (fs : FileSystems) where
  open fs use {World, Node, heap_room, first_root, node_lookup, mounted_root}

  -- What a directory answers for a name.
  abbrev pub entry : Option Node → Result (Option Node)
  entry none = failed enoent
  entry (some n) = done (some n)

  -- A state of the file systems: `child` are the entries of the directories, `over` leads from a node to
  -- the root of what is mounted on it, or to itself, and `root` is the first root.
  pub record IsTree (child : Node → List ℕ → Option Node) (over : Node → Node) (root : Node)
      (w : World) : Type 0 where
    pub looks :
        (node : Node) (name : List ℕ) → node_lookup node name w ≡ ok (entry (child node name), w)
    pub mounts :
        (node : Node)
        → ((mounted_root node w ≡ none) × (over node ≡ node))
          ⊎ ((r : Call World Node) × (mounted_root node w ≡ some r)
              × (r w ≡ ok (done (over node), w)))
    pub rooted : (r : Call World Node) × (first_root w ≡ some r) × (r w ≡ ok (done root, w))

  -- The heap has room for a copy of each component.
  abbrev pub HasRoom : List Component → World → Type 0
  HasRoom [] w = Unit
  HasRoom (c ∷ cs) w = (heap_room (1 + length c.0) w ≡ true) × HasRoom cs w

  -- Where a path begins.
  abbrev pub beginning : (root : Node) → (path : List ℕ) → (cwd : Option Node) → Option Node
  beginning root [] cwd = cwd
  beginning root (c ∷ path) cwd = if c == 47 then some root else cwd

  module _ (child : Node → List ℕ → Option Node) (over : Node → Node) where
    -- Down one name after the next.
    abbrev pub descend : Node → List Component → Result Node
    descend node [] = done node
    descend node (c ∷ cs) = elim (child node c.0) [
      | none ↦ failed enoent
      | some n ↦ descend (over n) cs
    ]

    -- From the root or from the working directory.
    abbrev pub descend_from : Option Node → List Component → Result Node
    descend_from none cs = failed enoent
    descend_from (some node) cs = descend (over node) cs

    module _ (root : Node) (w : World) (is : IsTree child over root w) where
      abbrev crossed : Node → Option (Call World Node) → Run (Result Node × World)
      crossed node none = ok (done node, w)
      crossed node (some r) = r w

      abbrev reached : Option Node → Run (Result Node × World)
      reached none = ok (failed enoent, w)
      reached (some n) = ok (done n, w)
