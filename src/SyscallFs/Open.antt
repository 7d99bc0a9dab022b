-- ===== src/SyscallFs/Open.antt =====
-- `open` of kernel/src/syscall/syscall_fs.c.
pub mod Laws
use elysium_os.Base.{
  Result, done, failed, einval, ebadf, enotsup, enotdir, ℕ, Bool, true, false, not, ◌&&◌, List,
  Option, none, some, if◌then◌else◌, Run, ok, ◌>>=◌,
}
use elysium_os.Vfs.{Attr, FileSystems, Call, create_file, lookup, lookup_ext}
use elysium_os.Resource.{Mode, read_only, write_only, read_write, reference, Table, resource_create}
use elysium_os.SyscallFs.{
  Nodes, Return, State, At, no_error, refused, with_world, with_table, string_in, base_node, room,
}

-- flags & O_ACCMODE
pub data Access : Type 0 where
  o_rdonly o_wronly o_rdwr o_exec o_search o_other : Access

-- `unsupported` is set if there is a flag other than these.
pub record Flags : Type 0 where
  pub directory : Bool
  pub append : Bool
  pub creat : Bool
  pub trunc : Bool
  pub excl : Bool
  pub access : Access
  pub unsupported : Bool

abbrev pub mode_of : Access → Option Mode
mode_of o_rdonly = some read_only
mode_of o_wronly = some write_only
mode_of o_rdwr = some read_write
mode_of o_exec = some reference
mode_of o_search = some reference
mode_of o_other = none

abbrev pub truncates : Mode → Bool
truncates write_only = true
truncates read_write = true
truncates _ = false

-- sizeof(resource_t)
abbrev pub resource_size : ℕ
resource_size = 24

module _ (fs : FileSystems) (nodes : Nodes fs) where
  open fs use {World, Node}
  open nodes use {is_dir, attr, truncate}

  unfoldable pub open_created : State Node World → Result ℕ × Table Node → Return × State Node World
  open_created st (value, t) = (record { value = value; err = no_error }, with_table t st)

  -- The resource is a block of the heap.
  unfoldable pub open_at :
      Node → Mode → State Node World → (offset : ℕ) → Run (Return × State Node World)
  unfolding open_created
  open_at node mode st offset =
      resource_create (room fs nodes resource_size st.world) st.table node offset mode >>= λ r.
      ok (open_created st r)

  abbrev pub open_attr :
      Node → Mode → State Node World → Result Attr × World → Run (Return × State Node World)
  open_attr node mode st (failed e, w) = ok (refused e, with_world w st)
  open_attr node mode st (done a, w) = open_at node mode (with_world w st) a.size

  -- O_APPEND
  unfoldable pub open_append :
      Flags → Node → Mode → State Node World → Run (Return × State Node World)
  unfolding open_at
  open_append flags node mode st =
      if flags.append then open_attr node mode st (attr node st.world) else open_at node mode st 0

  abbrev pub open_truncated :
      Flags
      → Node
      → Mode
      → State Node World
      → Result (Unit {0}) × World
      → Run (Return × State Node World)
  open_truncated flags node mode st (failed e, w) = ok (refused e, with_world w st)
  open_truncated flags node mode st (done u, w) = open_append flags node mode (with_world w st)

  -- O_DIRECTORY and O_TRUNC
  unfoldable pub open_node :
      Flags → Mode → State Node World → Node → Run (Return × State Node World)
  unfolding open_append
  open_node flags mode st node =
      if flags.directory && not (is_dir node)
      then ok (refused enotdir, st)
      else if flags.trunc && truncates mode && not (is_dir node)
      then (truncate node 0 st.world >>= open_truncated flags node mode st)
      else open_append flags node mode st

  -- How the node is looked up, if the flags can stand together.
  unfoldable pub open_lookup : Flags → (path : List ℕ) → Option Node → Option (Call World Node)
  open_lookup flags path cwd =
      if flags.creat
      then if flags.directory then none else some (lookup_ext fs path cwd create_file flags.excl)
      else if flags.excl
      then none
      else some (lookup fs path cwd)

  abbrev pub open_found :
      Flags → Mode → State Node World → Result Node × World → Run (Return × State Node World)
  open_found flags mode st (failed e, w) = ok (refused e, with_world w st)
  open_found flags mode st (done node, w) = open_node flags mode (with_world w st) node

  abbrev pub open_looked :
      Flags → Mode → State Node World → Option (Call World Node) → Run (Return × State Node World)
  open_looked flags mode st none = ok (refused einval, st)
  open_looked flags mode st (some find) = find st.world >>= open_found flags mode st

  abbrev pub open_under :
      Flags
      → Mode
      → (path : List ℕ) → State Node World
      → Option (Option Node)
      → Run (Return × State Node World)
  open_under flags mode path st none = ok (refused ebadf, st)
  open_under flags mode path st (some cwd) = open_looked flags mode st (open_lookup flags path cwd)

  unfoldable pub open_path :
      At → Flags → State Node World → (path : List ℕ) → Run (Return × State Node World)
  unfolding open_node open_lookup
  open_path dir flags st path =
      if flags.unsupported then ok (refused enotsup, st) else elim (mode_of flags.access) [
        | none ↦ ok (refused einval, st)
        | some mode ↦ base_node dir st >>= λ base. open_under flags mode path st base
      ]

  abbrev pub open_string :
      At → Flags → State Node World → Option (List ℕ) × World → Run (Return × State Node World)
  open_string dir flags st (none, w) = ok (refused einval, with_world w st)
  open_string dir flags st (some path, w) = open_path dir flags (with_world w st) path

  unfoldable pub syscall_fs_open :
      At → (path_length path : ℕ) → Flags → State Node World → Run (Return × State Node World)
  unfolding open_path
  syscall_fs_open dir path_length path flags st =
      string_in fs nodes path path_length st.world >>= λ s. open_string dir flags st s
