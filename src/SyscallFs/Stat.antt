-- ===== src/SyscallFs/Stat.antt =====
-- `stat` and `getcwd` of kernel/src/syscall/syscall_fs.c.
use elysium_os.Base.{
  Result, done, failed, einval, ebadf, enoent, efault, erange, ℕ, Bool, true, false, List, [], ◌∷◌,
  ◌++◌, Option, none, some, length, leb, ◌==◌, if◌then◌else◌, Run, ok, undefined, ◌>>=◌,
}
use elysium_os.Vfs.{Attr, FileSystems, lookup}
use elysium_os.SyscallFs.{
  Nodes, Return, State, At, negated, refused, returned, with_world, string_in, base_node,
}

-- struct stat, as far as it is not 0
pub record Stat : Type 0 where
  pub st_dev : ℕ
  pub st_ino : ℕ
  pub st_size : ℕ
  pub st_blksize : ℕ
  pub st_blocks : ℕ

unfoldable pub stat_of : Attr → Stat
stat_of a = record {
  st_dev = a.device_id;
  st_ino = a.inode;
  st_size = a.size;
  st_blksize = a.block_size;
  st_blocks = a.block_count;
}

module _ (fs : FileSystems) (nodes : Nodes fs) where
  open fs use {World, Node}
  open nodes use {attr, buffer_out}

  -- `bytes_of` is how the compiler lays out a struct stat.
  module _ (bytes_of : Stat → List ℕ) where
    abbrev pub stat_attr :
        (statbuf : ℕ) → State Node World → Result Attr × World → Return × State Node World
    stat_attr statbuf st (failed e, w) = (refused e, with_world w st)
    stat_attr statbuf st (done a, w) =
        (returned 0, with_world (buffer_out statbuf (bytes_of (stat_of a)) w) st)

    abbrev pub stat_found :
        (statbuf : ℕ)
        → State Node World
        → Result (Option Node) × World
        → Run (Return × State Node World)
    stat_found statbuf st (failed e, w) = ok (refused e, with_world w st)
    stat_found statbuf st (done none, w) = undefined
    stat_found statbuf st (done (some node), w) = ok (stat_attr statbuf st (attr node w))

    abbrev pub found_node : Result Node × World → Result (Option Node) × World
    found_node (done node, w) = (done (some node), w)
    found_node (failed e, w) = (failed e, w)

    -- The empty path is the node itself, with AT_EMPTY_PATH.
    unfoldable pub stat_node :
        (empty_path : Bool)
        → (path : List ℕ) → Option Node
        → World
        → Run (Result (Option Node) × World)
    stat_node true [] parent w = ok (done parent, w)
    stat_node false [] parent w = ok (failed enoent, w)
    stat_node empty_path (c ∷ path) parent w =
        lookup fs (c ∷ path) parent w >>= λ r. ok (found_node r)

    abbrev pub stat_under :
        (empty_path : Bool)
        → (path : List ℕ) → (statbuf : ℕ) → State Node World
        → Option (Option Node)
        → Run (Return × State Node World)
    stat_under empty_path path statbuf st none = ok (refused ebadf, st)
    stat_under empty_path path statbuf st (some parent) =
        stat_node empty_path path parent st.world >>= stat_found statbuf st

    abbrev pub stat_string :
        At
        → (empty_path : Bool) → (statbuf : ℕ) → State Node World
        → Option (List ℕ) × World
        → Run (Return × State Node World)
    stat_string dir empty_path statbuf st (none, w) = ok (refused einval, with_world w st)
    stat_string dir empty_path statbuf st (some path, w) =
        base_node dir (with_world w st) >>= λ base.
        stat_under empty_path path statbuf (with_world w st) base

    unfoldable pub syscall_fs_stat :
        At
        → (path_length path : ℕ) → (empty_path : Bool) → (statbuf : ℕ) → State Node World
        → Run (Return × State Node World)
    unfolding stat_of stat_node
    syscall_fs_stat dir path_length path empty_path statbuf st =
        if statbuf == 0
        then ok (refused einval, st)
        else (string_in fs nodes path path_length st.world >>= λ s.
            stat_string dir empty_path statbuf st s)

  -- `vfs_path` is a parameter here: the path of a node.
  unfoldable pub syscall_fs_getcwd :
      (vfs_path : Option Node → World → Run (List ℕ))
      → (buffer_size buffer : ℕ) → State Node World
      → Run (Return × State Node World)
  syscall_fs_getcwd vfs_path buffer_size buffer st =
      if buffer == 0
      then ok (record { value = done 0; err = negated efault }, st)
      else (vfs_path st.cwd st.world >>= λ path.
          if leb buffer_size (length path)
          then ok (record { value = done 0; err = negated erange }, st)
          else ok (returned 0, with_world (buffer_out buffer (path ++ 0 ∷ []) st.world) st))
