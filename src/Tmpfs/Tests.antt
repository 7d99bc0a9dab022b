-- ===== src/Tmpfs/Tests.antt =====
-- The file system in memory (kernel/src/fs/tmpfs.c) on small inputs.
use elysium_os.Base.{
  ℕ, ◌-◌, ◌≡◌, true, false, panic, ◌⊎◌, Result, done, List, [], ◌∷◌, none, some, take, drop, min,
  replicate, Run, ok, arith, refl, length-replicate,
}
use elysium_os.Tmpfs.Tree.{
  dir, Tree, str_eq, node_make, node_lookup, node_readdir, mounted, mount, found,
}
use elysium_os.Tmpfs.Tree.Names.{IsDir, entry_of}
use elysium_os.Tmpfs.Tree.Laws.{IsPlain, Made, node_lookup-entry_of, node_make-Made}
use elysium_os.Tmpfs.File.{File, buffer, read, write, truncate}
use elysium_os.Tmpfs.File.Laws.{IsFile, Gives, read-take, Written, write-Written}
use elysium_os.Tmpfs.File.Truncate.{Truncated, truncate-Truncated}

-- a heap whose fresh memory is full of 255
abbrev heap_alloc : ℕ → Run (List ℕ)
heap_alloc n = ok (replicate n 255)

abbrev file : File
file = record { base = some (1 ∷ 2 ∷ 3 ∷ []); size = 3 }

-- A write past the end leaves what the heap held in the gap.
write_run :
    write heap_alloc file 4 (8 ∷ 9 ∷ [])
    ≡ ok (record { base = some (1 ∷ 2 ∷ 3 ∷ 255 ∷ 8 ∷ 9 ∷ []); size = 6 })
unfolding write
write_run = refl

truncate_run :
    truncate heap_alloc file 5 ≡ ok (record { base = some (1 ∷ 2 ∷ 3 ∷ 0 ∷ 0 ∷ []); size = 5 })
unfolding truncate
truncate_run = refl

IsFile-file : IsFile file
IsFile-file = record { sized = refl; in_memory = omega arith }

gives : (n : ℕ) → Gives heap_alloc n
gives n = (replicate n 255, refl, length-replicate n 255)

read-take_example : read file 1 5 ≡ ok (take (min 5 (3 - 1)) (drop 1 (buffer file)))
read-take_example = read-take file 1 5 IsFile-file (omega arith) (omega arith)

write-Written_example :
    (f' : File) × (write heap_alloc file 4 (8 ∷ 9 ∷ []) ≡ ok f') × Written file 4 (8 ∷ 9 ∷ []) f'
write-Written_example =
    write-Written heap_alloc file IsFile-file 4 (8 ∷ 9 ∷ []) (omega arith) (λ h. gives 6)

truncate-Truncated_example :
    (f' : File) × (truncate heap_alloc file 5 ≡ ok f') × Truncated file 5 f'
truncate-Truncated_example =
    truncate-Truncated heap_alloc file IsFile-file 5 (omega arith) (λ h. gives 5)

-- The root with one directory "a" in it.
abbrev tree : Tree
tree = record {
  nodes =
      record { id = 1; name = none; parent = none; sibling_next = none; kind = dir (some 1) }
      ∷ record {
        id = 2;
        name = some (97 ∷ []);
        parent = some 0;
        sibling_next = none;
        kind = dir none;
      }
      ∷ [];
  root_dir = 0;
  id_counter = 3;
}

mount_run : mount true ≡ ok mounted
unfolding mount
mount_run = refl

lookup_run : node_lookup tree 1 (46 ∷ 46 ∷ []) ≡ ok (done (some 0))
unfolding node_lookup
lookup_run = refl

readdir_run : node_readdir tree 0 0 ≡ ok (done (some (97 ∷ [])), 1)
unfolding node_readdir
readdir_run = refl

tree-IsDir : IsDir tree 0 ((97 ∷ [], 1) ∷ [])
tree-IsDir = record {
  node = record { id = 1; name = none; parent = none; sibling_next = none; kind = dir (some 1) };
  children = some 1;
  at = refl;
  kind = refl;
  entries = (
    refl,
    omega arith,
    (
      record {
        id = 2;
        name = some (97 ∷ []);
        parent = some 0;
        sibling_next = none;
        kind = dir none;
      },
      refl,
      refl,
      refl,
    ),
  );
}

a-IsPlain : IsPlain (97 ∷ [])
unfolding str_eq
a-IsPlain = record { not_self = refl; not_parent = refl }

node_lookup-entry_of_example :
    node_lookup tree 0 (97 ∷ []) ≡ ok (found (entry_of (97 ∷ []) ((97 ∷ [], 1) ∷ [])))
node_lookup-entry_of_example =
    node_lookup-entry_of tree 0 ((97 ∷ [], 1) ∷ []) (97 ∷ []) tree-IsDir a-IsPlain

node_make-Made_example :
    ((true ≡ false)
      × (entry_of (98 ∷ []) ((97 ∷ [], 1) ∷ []) ≡ none)
      × (node_make (λ is_dir. true) false tree 0 (98 ∷ []) ≡ panic))
    ⊎ ((r : Result ℕ) × (t' : Tree) × (node_make (λ is_dir. true) false tree 0 (98 ∷ [])
          ≡ ok (r, t'))
        × Made tree 0 ((97 ∷ [], 1) ∷ []) false (98 ∷ []) r t')
node_make-Made_example =
    node_make-Made (λ is_dir. true) false tree 0 ((97 ∷ [], 1) ∷ []) (98 ∷ []) tree-IsDir
