-- ===== src/Tmpfs/Tree/Listing.antt =====
-- Listing a directory, and the tree at first (kernel/src/fs/tmpfs.c).
use elysium_os.Base.{ℕ, zero, suc, [], ◌∷◌, Option, none, some, refl}
use elysium_os.Tmpfs.Tree.{Name, dir, Tree, mounted}
use elysium_os.Tmpfs.Tree.Names.{Entries, IsDir}

-- The name of the k-th entry.
abbrev pub name_at : Entries → ℕ → Option Name
name_at [] k = none
name_at (e ∷ es) zero = some (e.0)
name_at (e ∷ es) (suc k) = name_at es k

-- The root of a new file system is an empty directory.
pub mounted-IsDir : IsDir mounted 0 []
mounted-IsDir = record {
  node = record { id = 1; name = none; parent = none; sibling_next = none; kind = dir none };
  children = none;
  at = refl;
  kind = refl;
  entries = refl;
}
