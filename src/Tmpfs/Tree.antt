-- ===== src/Tmpfs/Tree.antt =====
-- The nodes of the file system and its directories (kernel/src/fs/tmpfs.c).
pub mod Names
pub mod Laws
pub mod Listing
use elysium_os.Vfs.{Attr}
use elysium_os.Base.{
  ℕ, zero, suc, ◌+◌, ◌<◌, ◌≡◌, Bool, true, false, ◌&&◌, List, [], ◌∷◌, ◌++◌, Option, none, some,
  length, get_elem?, set, ltb, ◌==◌, if◌then◌else◌, add64, Run, ok, panic, undefined, ◌>>=◌, ◌>>◌,
  assert, Result, done, failed, enoent, eexist, enotdir,
}
use elysium_os.Tmpfs.File.{File}

-- A string without its terminator.
abbrev pub Name : Type 0
Name = List ℕ

-- strcmp(lhs, rhs) == 0
unfoldable pub str_eq : Name → Name → Bool
str_eq [] [] = true
str_eq [] (y ∷ ys) = false
str_eq (x ∷ xs) [] = false
str_eq (x ∷ xs) (y ∷ ys) = x == y && str_eq xs ys

-- The union of tmpfs_node_t; the type of the vfs node says which part is in use.
pub data Kind : Type 0 where
  dir : (children : Option ℕ) → Kind
  file : File → Kind

-- tmpfs_node_t; a pointer is the place of a node in the list of all nodes, `none` is NULL.
pub record Node : Type 0 where
  pub id : ℕ
  pub name : Option Name
  pub parent : Option ℕ
  pub sibling_next : Option ℕ
  pub kind : Kind

-- tmpfs_info_t, with the nodes that were made
pub record Tree : Type 0 where
  pub nodes : List Node
  pub root_dir : ℕ
  pub id_counter : ℕ

-- The loop of `dir_find`, on fuel; a NULL name or a pointer to no node is undefined.
unfoldable pub find_from : (fuel : ℕ) → List Node → Option ℕ → Name → Run (Option ℕ)
unfolding str_eq
find_from fuel nodes none name = ok none
find_from zero nodes (some i) name = undefined
find_from (suc fuel) nodes (some i) name = elim (get_elem? nodes i) [
  | none ↦ undefined
  | some n ↦
      let rest = find_from fuel nodes n.sibling_next name in
      elim n.name [ none ↦ undefined | some s ↦ if str_eq s name then ok (some i) else rest ]
]

unfoldable pub dir_find : Tree → (children : Option ℕ) → Name → Run (Option ℕ)
unfolding find_from
dir_find t children name = find_from (length t.nodes) t.nodes children name

abbrev pub new_kind : Bool → Kind
new_kind true = dir none
new_kind false = file (record { base = none; size = 0 })

-- The node that `create_tnode` fills in.
abbrev pub new_node : Tree → (parent sibling_next : Option ℕ) → Bool → Option Name → Node
new_node t parent sibling_next is_dir name = record {
  id = t.id_counter;
  name = name;
  parent = parent;
  sibling_next = sibling_next;
  kind = new_kind is_dir;
}

abbrev pub add_node : Tree → List Node → Node → Tree
add_node t nodes n = record t { nodes = nodes ++ n ∷ []; id_counter = add64 t.id_counter 1 }

-- `create_tnode` below a directory: the new node stands first among its children. `room` says whether the
-- heap has room for the objects of a node, the file included; heap_alloc panics otherwise.
unfoldable pub create_tnode :
    (room : Bool → Bool) → Tree → (parent : ℕ) → Node → Option ℕ → Bool → Name → Run (ℕ × Tree)
create_tnode room t parent p children is_dir name =
    assert (room is_dir)
    >> ok (
      length t.nodes,
      add_node t (set t.nodes parent (record p { kind = dir (some (length t.nodes)) }))
          (new_node t (some parent) children is_dir (some name)),
    )

abbrev pub created : ℕ × Tree → Run (Result ℕ × Tree)
created (j, t) = ok (done j, t)

-- What is done with a node, which a pointer must lead to.
abbrev pub with_node : {A : Type 0} → Tree → ℕ → (Node → Run A) → Run A
with_node t i f = elim (get_elem? t.nodes i) [ none ↦ undefined | some n ↦ f n ]

abbrev pub found : Option ℕ → Result (Option ℕ)
found none = failed enoent
found (some i) = done (some i)

-- `tmpfs_node_lookup`: "." is 46, and the answer `done none` is NULL.
unfoldable pub node_lookup : Tree → ℕ → Name → Run (Result (Option ℕ))
unfolding str_eq dir_find
node_lookup t i name = with_node t i (λ n. elim n.kind [
  | file f ↦ ok (failed enotdir)
  | dir children ↦
      if str_eq name (46 ∷ [])
      then ok (done (some i))
      else if str_eq name (46 ∷ 46 ∷ [])
      then ok (done n.parent)
      else (dir_find t children name >>= λ o. ok (found o))
])

-- `tmpfs_node_mkdir` and `tmpfs_node_create`, which differ in what they create.
unfoldable pub node_make :
    (room : Bool → Bool) → (is_dir : Bool) → Tree → ℕ → Name → Run (Result ℕ × Tree)
unfolding dir_find create_tnode
node_make room is_dir t i name = with_node t i (λ n. elim n.kind [
  | file f ↦ ok (failed enotdir, t)
  | dir children ↦ dir_find t children name >>= (λ o. elim o [
    | some j ↦ ok (failed eexist, t)
    | none ↦ create_tnode room t i n children is_dir name >>= created
  ])
])

abbrev pub node_mkdir : (room : Bool → Bool) → Tree → ℕ → Name → Run (Result ℕ × Tree)
node_mkdir room = node_make room true

abbrev pub node_create : (room : Bool → Bool) → Tree → ℕ → Name → Run (Result ℕ × Tree)
node_create room = node_make room false

-- The loop of `tmpfs_node_readdir`.
unfoldable pub skip : (offset : ℕ) → List Node → Option ℕ → Run (Option ℕ)
skip zero nodes head = ok head
skip (suc n) nodes none = ok none
skip (suc n) nodes (some i) = elim (get_elem? nodes i) [
  | none ↦ undefined
  | some x ↦ skip n nodes x.sibling_next
]

-- `tmpfs_node_readdir`: the name at an offset or NULL, and the next offset.
unfoldable pub node_readdir : Tree → ℕ → (offset : ℕ) → Run (Result (Option Name) × ℕ)
unfolding skip
node_readdir t i offset = with_node t i (λ n. elim n.kind [
  | file f ↦ ok (failed enotdir, offset)
  | dir children ↦ skip offset t.nodes children >>= (λ o. elim o [
    | none ↦ ok (done none, offset + 1)
    | some j ↦ with_node t j (λ x. ok (done x.name, offset + 1))
  ])
])

-- The root of a new file system is a directory with no name and no parent.
abbrev pub mounted : Tree
mounted = record {
  nodes = record { id = 1; name = none; parent = none; sibling_next = none; kind = dir none } ∷ [];
  root_dir = 0;
  id_counter = 2;
}

-- `tmpfs_mount`, if the heap has room for the file system and its root
unfoldable pub mount : (room : Bool) → Run Tree
mount room = assert room >> ok mounted

abbrev pub size_of : Kind → ℕ
size_of (dir children) = 0
size_of (file f) = f.size

unfoldable pub node_attr : Tree → ℕ → Run Attr
node_attr t i = with_node t i (λ n. ok (record {
  size = size_of n.kind;
  block_size = 1;
  block_count = size_of n.kind;
  device_id = 0;
  inode = n.id;
}))

unfoldable pub node_name : Tree → ℕ → Run (Option Name)
node_name t i = with_node t i (λ n. ok n.name)

-- `tmpfs_root`
abbrev pub root : Tree → ℕ
root t = t.root_dir
