-- ===== src/Vfs.antt =====
-- Path lookup in the virtual file system, kernel/src/fs/vfs.c, over the operations that a file system
-- gives for its nodes (kernel/src/fs/vfs.h).
pub mod Walk
pub mod Exclusive
pub mod Descent
mod Tests
use elysium_os.Base.{
  ℕ, ◌≡◌, Bool, true, false, ◌&&◌, List, [], ◌∷◌, ◌++◌, Option, none, some, ◌==◌, if◌then◌else◌,
  Result, done, failed, Errno, enoent, eexist, Run, ok, panic, undefined, assert, ◌>>=◌, ◌>>◌, ◌+◌,
  length,
}

-- What a call answers, and what becomes of the file systems and of the heap.
abbrev pub Call : (World A : Type 0) → Type 0
Call World A = World → Run (Result A × World)

module _ {World A B : Type 0} where
  abbrev pub carry_on : (A → Call World B) → Run (Result A × World) → Run (Result B × World)
  carry_on f (ok (done a, w)) = f a w
  carry_on f (ok (failed e, w)) = ok (failed e, w)
  carry_on f panic = panic
  carry_on f undefined = undefined

  abbrev pub and_then : Call World A → (A → Call World B) → Call World B
  and_then m f w = carry_on f (m w)

abbrev pub answer : {World A : Type 0} → A → Call World A
answer a w = ok (done a, w)

abbrev pub refuse : {World A : Type 0} → Errno → Call World A
refuse e w = ok (failed e, w)

-- vfs_node_attr_t
pub record Attr : Type 0 where
  pub size : ℕ
  pub block_size : ℕ
  pub block_count : ℕ
  pub device_id : ℕ
  pub inode : ℕ

-- vfs_ops_t and vfs_node_ops_t, as far as a lookup calls them; a pointer is a `Node`, NULL is `none`.
pub record FileSystems : Type 1 where
  pub World : Type 0
  pub Node : Type 0
  -- whether heap_alloc finds a free block of a size; it panics otherwise
  pub heap_room : (size : ℕ) → World → Bool
  -- the root of the first file system of `g_vfs_all`, if there is one
  pub first_root : World → Option (Call World Node)
  -- node->ops->lookup, ->create and ->mkdir
  pub node_lookup : Node → List ℕ → Call World (Option Node)
  pub node_create : Node → List ℕ → Call World Node
  pub node_mkdir : Node → List ℕ → Call World Node
  -- node->vfs->mount_node
  pub mount_node : Node → World → Option Node
  -- node->vfs_mounted->ops->root(node->vfs_mounted, ...), if something is mounted on the node
  pub mounted_root : Node → World → Option (Call World Node)

-- vfs_lookup_create_t
pub data Create : Type 0 where
  create_none create_file create_dir : Create

module _ (fs : FileSystems) where
  open fs use {
    World, Node, heap_room, first_root, node_lookup, node_create, node_mkdir, mount_node,
    mounted_root,
  }

  unfoldable pub vfs_root : Call World Node
  vfs_root w = elim (first_root w) [ none ↦ ok (failed enoent, w) | some root ↦ root w ]

  -- What `r` and `current_node` are after a lookup. For the NULL above a root that is mounted
  -- somewhere, ".." is looked up once more, and what it leads to is dropped.
  unfoldable pub moved : Node → Result (Option Node) × World → Run (Result Node × World)
  moved node (failed e, w) = ok (failed e, w)
  moved node (done (some next), w) = ok (done next, w)
  moved node (done none, w) = elim (mount_node node w) [
    | none ↦ ok (done node, w)
    | some m ↦ carry_on (λ dropped. answer node) (node_lookup node (46 ∷ 46 ∷ []) w)
  ]

  abbrev pub created : Create → Node → List ℕ → Call World Node
  created create_none node component = refuse enoent
  created create_file node component = node_create node component
  created create_dir node component = node_mkdir node component

  abbrev pub unless : (exclusive : Bool) → Result Node × World → Result Node × World
  unless exclusive (r, w) = if exclusive then (failed eexist, w) else (r, w)

  -- The decision that follows a lookup.
  abbrev pub settled :
      Create
      → (exclusive last : Bool) → Node
      → List ℕ
      → Result Node × World
      → Run (Result Node × World)
  settled create exclusive true node component (failed enoent, w) = created create node component w
  settled create exclusive last node component r = ok (unless exclusive r)

  -- A component of the path, in `case '/'`: a copy of it comes from the heap.
  unfoldable pub enter : Create → (exclusive last : Bool) → Node → List ℕ → Call World Node
  unfolding moved
  enter create exclusive last node component w =
      assert (heap_room (1 + length component) w)
      >> node_lookup node component w
      >>= moved node
      >>= settled create exclusive last node component

  -- The end of a round: a node with something mounted on it gives way to the root of that.
  unfoldable pub cross : Node → Call World Node
  cross node w = elim (mounted_root node w) [ none ↦ ok (done node, w) | some root ↦ root w ]

  -- The switch of a round: a component that is not empty ends here.
  unfoldable pub ended : Create → (exclusive last : Bool) → Node → List ℕ → Call World Node
  unfolding enter
  ended create exclusive last node [] = answer node
  ended create exclusive last node (c ∷ cs) = enter create exclusive last node (c ∷ cs)

  -- The rounds of the loop, a character each; `component` are the characters from `comp_start` on.
  unfoldable pub lookup_loop :
      Create → (exclusive : Bool) → Node → (component path : List ℕ) → Call World Node
  unfolding ended cross
  lookup_loop create exclusive node component [] =
      and_then (ended create exclusive true node component) cross
  lookup_loop create exclusive node component (c ∷ path) =
      if c == 47
      then and_then (ended create exclusive false node component)
          (λ node. and_then (cross node) (λ node. lookup_loop create exclusive node [] path))
      else and_then (cross node)
          (λ node. lookup_loop create exclusive node (component ++ c ∷ []) path)

  -- Where the search begins: at the root for a path with a '/' in front, and at `cwd` otherwise.
  abbrev pub begin : (cwd : Option Node) → Call World Node
  begin none = refuse enoent
  begin (some node) = answer node

  unfoldable pub lookup_ext :
      (path : List ℕ) → (cwd : Option Node) → Create → (exclusive : Bool) → Call World Node
  unfolding vfs_root lookup_loop
  lookup_ext [] cwd create exclusive =
      and_then (begin cwd) (λ node. lookup_loop create exclusive node [] [])
  lookup_ext (c ∷ path) cwd create exclusive =
      if c == 47
      then and_then vfs_root (λ node. lookup_loop create exclusive node [] path)
      else and_then (begin cwd) (λ node. lookup_loop create exclusive node [] (c ∷ path))

  unfoldable pub lookup : (path : List ℕ) → (cwd : Option Node) → Call World Node
  unfolding lookup_ext
  lookup path cwd = lookup_ext path cwd create_none false

  -- `vfs_mkdir` and `vfs_create`
  unfoldable pub mkdir : (path name : List ℕ) → (cwd : Option Node) → Call World Node
  unfolding lookup
  mkdir path name cwd = and_then (lookup path cwd) (λ parent. node_mkdir parent name)

  unfoldable pub create : (path name : List ℕ) → (cwd : Option Node) → Call World Node
  unfolding lookup
  create path name cwd = and_then (lookup path cwd) (λ parent. node_create parent name)
